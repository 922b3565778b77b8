-- ===== src/Lease/Refinement/Frames.antt =====
-- What the operations leave alone.
use swarmai.Prelude.{
  ℕ, ◌≡◌, refl, ◌∙◌, inl, inr, Bool, ◌||◌, ◌!=◌, Option, none, some, List, [], ◌∷◌, arith, lookup,
  put, Option-cases, Bool-cases, Result-cases, or_default,
}
use swarmai.Lease.Rows.{Db, Mission, Worker, Lease, Reason, is_active}
use swarmai.Lease.Authority.{Service, require_claimable_worker, load_claimable_mission}
use swarmai.Lease.Claim.{
  Candidate, ClaimCall, claim_eligible_attempt, claim_in_project, claim_candidate, bind_claim,
  next_claim, project_of,
}
use swarmai.Lease.RenewalChecks.{renewable_by, require_current_lease_authority, renewal_expires_at}
use swarmai.Lease.Renew.{RenewCall, renew_lease, renew_found, write_renewal}
use swarmai.Lease.Expire.{
  expire_attempt, expire_task, expire_lease, expire_row, expire_all, expire_leases, due_leases,
}
use swarmai.Lease.Cancel.{
  cancel_attempt, cancel_task, cancel_lease, cancel_active_lease, notify_all, cancelled_lease,
}

-- Workers, missions and results are as before.
pub record Untouched (d e : Db) : Type 0 where
  pub workers : e.workers ≡ d.workers
  pub missions : e.missions ≡ d.missions
  pub results : e.results ≡ d.results

pub Untouched-refl : (d : Db) → Untouched d d
Untouched-refl d = record { workers = refl; missions = refl; results = refl }

pub Untouched-trans : {c d e : Db} → Untouched c d → Untouched d e → Untouched c e
Untouched-trans a b = record {
  workers = b.workers ∙ a.workers;
  missions = b.missions ∙ a.missions;
  results = b.results ∙ a.results;
}

bind_claim-Untouched :
    (s : Service) (c : ClaimCall) (w : Worker) (p : ℕ) (x : Candidate) (m : Mission) (db : Db)
    → Untouched db (bind_claim s c w p x m db).1
unfolding bind_claim
bind_claim-Untouched s c w p (i, t) m db =
    elim (Bool-cases (p != m.project_id || p != t.project_id)) [
      | inl bad ↦ rw bad (Untouched-refl db)
      | inr good ↦ rw good (record { workers = refl; missions = refl; results = refl })
    ]

claim_candidate-Untouched :
    (s : Service) (c : ClaimCall) (w : Worker) (p : ℕ) (x : Option Candidate) (db : Db)
    → Untouched db (claim_candidate s c w p x db).1
unfolding claim_candidate
claim_candidate-Untouched s c w p none db = Untouched-refl db
claim_candidate-Untouched s c w p (some (i, t)) db =
    elim (Option-cases (load_claimable_mission t db)) [
      | inl lost ↦ rw (lost, claim_candidate) (Untouched-refl db)
      | inr (m, found) ↦ rw (found, claim_candidate) (bind_claim-Untouched s c w p (i, t) m db)
    ]

claim_in_project-Untouched :
    (s : Service) (c : ClaimCall) (locked : ℕ → Bool) (w : Worker) (p : Option ℕ) (db : Db)
    → Untouched db (claim_in_project s c locked w p db).1
unfolding claim_in_project
claim_in_project-Untouched s c locked w none db = Untouched-refl db
claim_in_project-Untouched s c locked w (some p) db =
    claim_candidate-Untouched s c w p (next_claim s w p locked db) db

pub claim-Untouched :
    (s : Service) (c : ClaimCall) (locked : ℕ → Bool) (db : Db)
    → Untouched db (claim_eligible_attempt s c locked db).1
unfolding claim_eligible_attempt
claim-Untouched s c locked db =
    elim (Result-cases (require_claimable_worker s c.worker_id c.membership_token db)) [
      | inl (w, known) ↦
          rw (known, claim_eligible_attempt)
            (claim_in_project-Untouched s c locked w (project_of w) db)
      | inr (e, refused) ↦ rw (refused, claim_eligible_attempt) (Untouched-refl db)
    ]

renew_found-Untouched :
    (s : Service) (c : RenewCall) (w : Worker) (l : Lease) (db : Db)
    → Untouched db (renew_found s c w l db).1
unfolding renew_found write_renewal
renew_found-Untouched s c w l db =
    elim (Result-cases (renewable_by w c.worker_id c.worker_generation c.clock l)) [
      | inr (e, refused) ↦ rw (refused, renew_found) (Untouched-refl db)
      | inl (u, may) ↦
          rw (may, renew_found)
            (elim (Result-cases (require_current_lease_authority l db)) [
              | inr (e, refused) ↦ rw refused (Untouched-refl db)
              | inl (_, current) ↦
                  rw current
                    (elim (Result-cases (
                      renewal_expires_at l c.clock
                        (or_default c.extend_seconds s.default_lease_seconds))) [
                          | inr (e, refused) ↦ rw refused (Untouched-refl db)
                          | inl (granted, given) ↦
                              rw given (record { workers = refl; missions = refl; results = refl })
                        ])
            ])
    ]

pub renew-Untouched : (s : Service) (c : RenewCall) (db : Db) → Untouched db (renew_lease s c db).1
unfolding renew_lease
renew-Untouched s c db =
    elim (Result-cases (require_claimable_worker s c.worker_id c.membership_token db)) [
      | inr (e, refused) ↦ rw (refused, renew_lease) (Untouched-refl db)
      | inl (w, known) ↦
          rw (known, renew_lease)
            (elim (Option-cases (lookup c.lease_id db.leases)) [
              | inl missing ↦ rw missing (Untouched-refl db)
              | inr (l, found) ↦ rw found (renew_found-Untouched s c w l db)
            ])
    ]

expire_attempt-Untouched : (clock a : ℕ) (db : Db) → Untouched db (expire_attempt clock a db)
unfolding expire_attempt
expire_attempt-Untouched clock a db = ground arith

expire_task-Untouched : (l : Lease) (db : Db) → Untouched db (expire_task l db)
unfolding expire_task
expire_task-Untouched l db = ground arith

expire_row-Untouched : (clock id : ℕ) (db : Db) → Untouched db (expire_row clock id db)
unfolding expire_row expire_lease
expire_row-Untouched clock id db = elim (Option-cases (lookup id db.leases)) [
  | inl missing ↦ rw (missing, expire_row) (Untouched-refl db)
  | inr (l, e) ↦
      rw (e, expire_row)
        (Untouched-trans
          (Untouched-trans (record { workers = refl; missions = refl; results = refl })
            (expire_attempt-Untouched clock l.attempt_id _))
          (expire_task-Untouched l _))
]

expire_all-Untouched : (clock : ℕ) (ids : List ℕ) (db : Db) → Untouched db (expire_all clock ids db)
unfolding expire_all
expire_all-Untouched clock [] db = Untouched-refl db
expire_all-Untouched clock (id ∷ ids) db =
    Untouched-trans (expire_row-Untouched clock id db)
      (expire_all-Untouched clock ids (expire_row clock id db))

pub expire-Untouched :
    (clock : ℕ) (p : Option ℕ) (limit : ℕ) (locked : ℕ → Bool) (db : Db)
    → Untouched db (expire_leases clock p limit locked db).1
unfolding expire_leases
expire-Untouched clock p limit locked db =
    expire_all-Untouched clock (due_leases clock p limit locked db) db

cancel_attempt-Untouched : (clock a : ℕ) (db : Db) → Untouched db (cancel_attempt clock a db)
unfolding cancel_attempt
cancel_attempt-Untouched clock a db = ground arith

cancel_task-Untouched : (why : Reason) (i : ℕ) (db : Db) → Untouched db (cancel_task why i db)
unfolding cancel_task
cancel_task-Untouched why i db = ground arith

cancel_lease-Untouched :
    (id : ℕ) (why : Reason) (clock : ℕ) (l : Lease) (db : Db)
    → Untouched db (cancel_lease id why clock l db)
unfolding cancel_lease
cancel_lease-Untouched id why clock l db =
    let a =
      cancel_attempt-Untouched clock l.attempt_id
        (record db { leases = put id (cancelled_lease clock l) db.leases }) in
    let t = cancel_task-Untouched why l.task_id (
      cancel_attempt clock l.attempt_id
        (record db { leases = put id (cancelled_lease clock l) db.leases })) in
    let u = Untouched-trans a t in
    record { workers = u.workers; missions = u.missions; results = u.results }

pub cancel_active_lease-Untouched :
    (id : ℕ) (why : Reason) (clock : ℕ) (db : Db)
    → Untouched db (cancel_active_lease id why clock db).1
unfolding cancel_active_lease
cancel_active_lease-Untouched id why clock db = elim (Option-cases (lookup id db.leases)) [
  | inl missing ↦ rw (missing, cancel_active_lease) (Untouched-refl db)
  | inr (l, e) ↦
      rw (e, cancel_active_lease)
        (elim (Bool-cases (is_active l.state)) [
          | inr over ↦ rw over (Untouched-refl db)
          | inl busy ↦ rw busy (cancel_lease-Untouched id why clock l db)
        ])
]

pub notify_all-Untouched :
    (why : Reason) (clock : ℕ) (ids : List ℕ) (db : Db)
    → Untouched db (notify_all why clock ids db).1
unfolding notify_all
notify_all-Untouched why clock [] db = Untouched-refl db
notify_all-Untouched why clock (id ∷ ids) db =
    elim (Result-cases (cancel_active_lease id why clock db).0) [
      | inr (x, e) ↦ rw (e, notify_all) (cancel_active_lease-Untouched id why clock db)
      | inl (x, e) ↦
          rw (e, notify_all)
            (Untouched-trans (cancel_active_lease-Untouched id why clock db)
              (notify_all-Untouched why clock ids (cancel_active_lease id why clock db).1))
    ]
