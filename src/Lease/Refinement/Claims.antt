-- ===== src/Lease/Refinement/Claims.antt =====
-- Claims and renewals.
use swarmai.Prelude.{
  ℕ, ◌≤◌, ◌<◌, ◌≡◌, refl, inl, inr, Bool, true, false, ◌||◌, Option, none, some, arith, lookup,
  Option-cases, or_default, Result-cases, ok, Bool-cases, ◌!=◌,
}
use swarmai.Prelude.Paging.Sound.{scan_sound}
use swarmai.Lease.Rows.{Db, Task, Worker, Mission, Lease, is_active}
use swarmai.Lease.Authority.{
  Service, has_active_lease, load_claimable_mission, require_claimable_worker,
}
use swarmai.Lease.Claim.{
  Candidate, ClaimCall, claim_eligible_attempt, claim_in_project, claim_candidate, bind_claim,
  next_claim, can_claim, before, claimed_lease, project_of,
}
use swarmai.Lease.RenewalChecks.{renewable_by, renewal_expires_at, require_current_lease_authority}
use swarmai.Lease.Renew.{RenewCall, renew_lease, renew_found, write_renewal, renewed_lease}
use swarmai.Lease.Moves.{issue, renew, Moves, still, Moves-one}

bind_claim-Moves :
    (s : Service) (c : ClaimCall) (w : Worker) (p i : ℕ) (t : Task) (m : Mission) (db : Db)
    → lookup c.lease_id db.leases ≡ none
    → has_active_lease i db ≡ false
    → Moves db.leases (bind_claim s c w p (i, t) m db).1.leases
unfolding bind_claim has_active_lease
bind_claim-Moves s c w p i t m db fresh free =
    elim (Bool-cases (p != m.project_id || p != t.project_id)) [
      | inl bad ↦ rw bad still
      | inr good ↦ rw good (
          Moves-one (
            issue c.lease_id (claimed_lease s c w p i t m) fresh free (λ upper h. ground arith)
              refl))
    ]

-- The last candidate of the scan passed all tests.
next_claim_sound :
    (s : Service) (w : Worker) (p : ℕ) (locked : ℕ → Bool) (db : Db) {x : Candidate}
    → next_claim s w p locked db ≡ some x
    → can_claim w db x ≡ true
unfolding next_claim
next_claim_sound s w p locked db h = scan_sound before _ _ (can_claim w db) none _ h

pub can_claim-free :
    (w : Worker) (db : Db) (i : ℕ) (t : Task)
    → can_claim w db (i, t) ≡ true
    → has_active_lease i db ≡ false
unfolding can_claim
can_claim-free w db i t h = ground arith

claim_candidate-Moves :
    (s : Service) (c : ClaimCall) (w : Worker) (p : ℕ) (x : Option Candidate) (db : Db)
    → lookup c.lease_id db.leases ≡ none
    → ((y : Candidate) → x ≡ some y → can_claim w db y ≡ true)
    → Moves db.leases (claim_candidate s c w p x db).1.leases
unfolding claim_candidate
claim_candidate-Moves s c w p none db fresh able = still
claim_candidate-Moves s c w p (some (i, t)) db fresh able =
    elim (Option-cases (load_claimable_mission t db)) [
      | inl lost ↦ rw (lost, claim_candidate) still
      | inr (m, found) ↦
          rw (found, claim_candidate)
            (bind_claim-Moves s c w p i t m db fresh (can_claim-free w db i t (able (i, t) refl)))
    ]

claim_in_project-Moves :
    (s : Service) (c : ClaimCall) (locked : ℕ → Bool) (w : Worker) (p : Option ℕ) (db : Db)
    → lookup c.lease_id db.leases ≡ none
    → Moves db.leases (claim_in_project s c locked w p db).1.leases
unfolding claim_in_project
claim_in_project-Moves s c locked w none db fresh = still
claim_in_project-Moves s c locked w (some p) db fresh =
    claim_candidate-Moves s c w p (next_claim s w p locked db) db fresh
      (λ y h. next_claim_sound s w p locked db h)

pub claim-Moves :
    (s : Service) (c : ClaimCall) (locked : ℕ → Bool) (db : Db)
    → lookup c.lease_id db.leases ≡ none
    → Moves db.leases (claim_eligible_attempt s c locked db).1.leases
unfolding claim_eligible_attempt
claim-Moves s c locked db fresh =
    elim (Result-cases (require_claimable_worker s c.worker_id c.membership_token db)) [
      | inl (w, known) ↦ rw known (claim_in_project-Moves s c locked w (project_of w) db fresh)
      | inr (e, refused) ↦ rw refused still
    ]

-- A renewal that is granted to a lease with a horizon ends behind the clock, not before the lease
-- would have ended, and not behind the horizon.
pub renewal_granted :
    (l : Lease) (clock extend upper : ℕ) {granted : ℕ}
    → renewal_expires_at l clock extend ≡ ok granted
    → l.renewable_until ≡ some upper
    → (l.expires_at ≤ granted) × (granted ≤ upper) × (clock < granted)
unfolding renewal_expires_at
renewal_granted l clock extend upper {granted = granted} h e = ground arith

renewable_by-active :
    (w : Worker) (worker_id generation clock : ℕ) (l : Lease) {u : Unit}
    → renewable_by w worker_id generation clock l ≡ ok u
    → is_active l.state ≡ true
unfolding renewable_by
renewable_by-active w worker_id generation clock l h = ground arith

write_renewal-Moves :
    (id : ℕ) (l : Lease) (clock extend granted : ℕ) (db : Db)
    → lookup id db.leases ≡ some l
    → is_active l.state ≡ true
    → renewal_expires_at l clock extend ≡ ok granted
    → Moves db.leases (write_renewal id l clock granted db).1.leases
unfolding write_renewal
write_renewal-Moves id l clock extend granted db found busy given = Moves-one (
    renew id l (renewed_lease l clock granted) found busy (ground arith)
      (λ upper h. let g = renewal_granted l clock extend upper given h in (g.0, g.1)) refl)

renew_found-Moves :
    (s : Service) (c : RenewCall) (w : Worker) (l : Lease) (db : Db)
    → lookup c.lease_id db.leases ≡ some l
    → Moves db.leases (renew_found s c w l db).1.leases
unfolding renew_found
renew_found-Moves s c w l db found =
    elim (Result-cases (renewable_by w c.worker_id c.worker_generation c.clock l)) [
      | inr (e, refused) ↦ rw (refused, renew_found) still
      | inl (u, may) ↦
          rw (may, renew_found)
            (elim (Result-cases (require_current_lease_authority l db)) [
              | inr (e, refused) ↦ rw refused still
              | inl (_, current) ↦
                  rw current
                    (elim (Result-cases (
                      renewal_expires_at l c.clock
                        (or_default c.extend_seconds s.default_lease_seconds))) [
                          | inr (e, refused) ↦ rw refused still
                          | inl (granted, given) ↦ rw given (
                              write_renewal-Moves c.lease_id l c.clock _ granted db found
                                (renewable_by-active w c.worker_id c.worker_generation c.clock l
                                  may)
                                given)
                        ])
            ])
    ]

pub renew-Moves :
    (s : Service) (c : RenewCall) (db : Db) → Moves db.leases (renew_lease s c db).1.leases
unfolding renew_lease
renew-Moves s c db =
    elim (Result-cases (require_claimable_worker s c.worker_id c.membership_token db)) [
      | inr (e, refused) ↦ rw (refused, renew_lease) still
      | inl (w, known) ↦
          rw (known, renew_lease)
            (elim (Option-cases (lookup c.lease_id db.leases)) [
              | inl missing ↦ rw missing still
              | inr (l, found) ↦ rw found (renew_found-Moves s c w l db found)
            ])
    ]
