-- ===== src/Lease/Refinement/Endings.antt =====
-- Cancellation, submission and acceptance.
use swarmai.Prelude.{
  ℕ, ◌≡◌, refl, ◌∙◌, sym, inl, inr, Bool, true, Option, some, List, [], ◌∷◌, arith, lookup, put,
  Option-cases, Bool-cases, Result-cases, if◌then◌else◌,
}
use swarmai.Lease.Rows.{
  Db, Task, Attempt, Lease, WorkerResult, AcceptanceState, LeaseState, Reason, is_active,
}
use swarmai.Lease.Cancel.{
  cancel_attempt, cancel_task, cancel_lease, cancelled_lease, cancel_active_lease, notify_all,
  bump_generation, revoke_mission_work, close_mission, cancel_mission, list_active_for_mission,
}
use swarmai.Lease.AcceptFence.{assert_accept_fence}
use swarmai.Lease.AcceptFence.Passed.{fence-Passed}
use swarmai.Lease.Results.{
  accepted_before-store, SubmitCall, submit_result, submit_found, accept_result, accept_in_state,
  accept_rows, settle_acceptance, released_lease,
}
use swarmai.Lease.Authority.{Service, require_authenticated_worker}
use swarmai.Lease.Moves.{finish, Moves, still, Moves-one, Moves-trans}

leases-cancel_attempt : (clock a : ℕ) (db : Db) → (cancel_attempt clock a db).leases ≡ db.leases
unfolding cancel_attempt
leases-cancel_attempt clock a db = ground arith

leases-cancel_task : (why : Reason) (i : ℕ) (db : Db) → (cancel_task why i db).leases ≡ db.leases
unfolding cancel_task
leases-cancel_task why i db = ground arith

leases-cancel_lease :
    (id : ℕ) (why : Reason) (clock : ℕ) (l : Lease) (db : Db)
    → (cancel_lease id why clock l db).leases ≡ put id (cancelled_lease clock l) db.leases
unfolding cancel_lease
leases-cancel_lease id why clock l db =
    leases-cancel_task why l.task_id _ ∙ leases-cancel_attempt clock l.attempt_id _

pub cancel_active_lease-Moves :
    (id : ℕ) (why : Reason) (clock : ℕ) (db : Db)
    → Moves db.leases (cancel_active_lease id why clock db).1.leases
unfolding cancel_active_lease
cancel_active_lease-Moves id why clock db = elim (Option-cases (lookup id db.leases)) [
  | inl missing ↦ rw (missing, cancel_active_lease) still
  | inr (l, e) ↦
      rw (e, cancel_active_lease)
        (elim (Bool-cases (is_active l.state)) [
          | inr over ↦ rw over still
          | inl busy ↦ rw busy (
              Moves-one (
                finish id l (cancelled_lease clock l) e busy refl (ground arith) refl
                  (leases-cancel_lease id why clock l db)))
        ])
]

notify_all-Moves :
    (why : Reason) (clock : ℕ) (ids : List ℕ) (db : Db)
    → Moves db.leases (notify_all why clock ids db).1.leases
unfolding notify_all
notify_all-Moves why clock [] db = still
notify_all-Moves why clock (id ∷ ids) db =
    elim (Result-cases (cancel_active_lease id why clock db).0) [
      | inr (x, e) ↦ rw (e, notify_all) (cancel_active_lease-Moves id why clock db)
      | inl (x, e) ↦
          rw (e, notify_all)
            (Moves-trans (cancel_active_lease-Moves id why clock db)
              (notify_all-Moves why clock ids (cancel_active_lease id why clock db).1))
    ]

pub revoke-Moves :
    (mission_id : ℕ) (why : Reason) (notify : Bool) (clock : ℕ) (db : Db)
    → Moves db.leases (revoke_mission_work mission_id why notify clock db).1.leases
unfolding revoke_mission_work
revoke-Moves mission_id why notify clock db = elim (Option-cases (lookup mission_id db.missions)) [
  | inl missing ↦ rw (missing, revoke_mission_work) still
  | inr (m, e) ↦
      let d = bump_generation mission_id m why db in
      let ids = if notify then list_active_for_mission mission_id d else [] in
      rw (e, revoke_mission_work)
        (elim (Result-cases (notify_all why clock ids d).0) [
          | inl (_, done) ↦ rw done (notify_all-Moves why clock ids d)
          | inr (_, failed) ↦ rw failed (notify_all-Moves why clock ids d)
        ])
]

leases-close_mission :
    (mission_id clock : ℕ) (db : Db) → (close_mission mission_id clock db).leases ≡ db.leases
unfolding close_mission
leases-close_mission mission_id clock db = ground arith

pub cancel_mission-Moves :
    (mission_id clock : ℕ) (db : Db) → Moves db.leases (cancel_mission mission_id clock db).1.leases
unfolding cancel_mission
cancel_mission-Moves mission_id clock db =
    let revoked = revoke-Moves mission_id Reason.cancelled true clock db in
    elim (Result-cases (revoke_mission_work mission_id Reason.cancelled true clock db).0) [
      | inl (_, done) ↦
          rw (done, cancel_mission) (rw (leases-close_mission mission_id clock _) revoked)
      | inr (_, failed) ↦ rw (failed, cancel_mission) revoked
    ]

released_lem :
    (l : Lease) (clock : ℕ)
    → is_active l.state ≡ true
    → released_lease l clock ≡ record l { state = LeaseState.released; updated_at = clock }
unfolding released_lease
released_lem l clock busy = rw busy

settle-Moves :
    (id : ℕ) (r : WorkerResult) (l : Lease) (a : Attempt) (t : Task) (clock : ℕ) (db : Db)
    → lookup r.lease_id db.leases ≡ some l
    → Moves db.leases
        (settle_acceptance id r l a t clock (assert_accept_fence id r l a t clock db) db).1.leases
unfolding settle_acceptance
settle-Moves id r l a t clock db e = elim (Result-cases (assert_accept_fence id r l a t clock db)) [
  | inr (x, refused) ↦ rw (refused, settle_acceptance) still
  | inl (u, passed) ↦
      let busy = (fence-Passed id r l a t clock db passed).lease_active in
      let e' = released_lem l clock busy in
      rw (passed, settle_acceptance)
        (Moves-one (
          finish r.lease_id l (released_lease l clock) e busy (rw e' refl) (rw e' (ground arith))
            (rw e' refl) refl))
]

accept_rows-Moves :
    (id : ℕ) (r : WorkerResult) (clock : ℕ) (l : Option Lease) (a : Option Attempt)
    (t : Option Task) (db : Db)
    → l ≡ lookup r.lease_id db.leases
    → Moves db.leases (accept_rows id r clock l a t db).1.leases
unfolding accept_rows
accept_rows-Moves id r clock (some l) (some a) (some t) db e =
    settle-Moves id r l a t clock db (sym e)
accept_rows-Moves id r clock _ _ _ db e = still

accept_in_state-Moves :
    (state : AcceptanceState) (id : ℕ) (r : WorkerResult) (clock : ℕ) (db : Db)
    → Moves db.leases (accept_in_state state id r clock db).1.leases
unfolding accept_in_state
accept_in_state-Moves AcceptanceState.submitted id r clock db =
    accept_rows-Moves id r clock (lookup r.lease_id db.leases) _ _ db refl
accept_in_state-Moves AcceptanceState.accepted id r clock db =
    rw (accepted_before-store id r db) still
accept_in_state-Moves _ id r clock db = still

pub accept-Moves : (id clock : ℕ) (db : Db) → Moves db.leases (accept_result id clock db).1.leases
unfolding accept_result
accept-Moves id clock db = elim (Option-cases (lookup id db.results)) [
  | inl missing ↦ rw (missing, accept_result) still
  | inr (r, e) ↦ rw (e, accept_result) (accept_in_state-Moves r.acceptance_state id r clock db)
]

-- A submission leaves the lease table alone.
pub leases-submit :
    (s : Service) (c : SubmitCall) (db : Db) → (submit_result s c db).1.leases ≡ db.leases
unfolding submit_result submit_found
leases-submit s c db =
    elim (Result-cases (require_authenticated_worker s c.worker_id c.membership_token db)) [
      | inr (_, refused) ↦ rw (refused, submit_result)
      | inl (w, known) ↦
          rw (known, submit_result)
            (elim (Option-cases (lookup c.lease_id db.leases)) [
              | inl missing ↦ rw missing
              | inr (l, e) ↦ rw e (ground arith)
            ])
    ]
