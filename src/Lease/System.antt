-- ===== src/Lease/System.antt =====
-- The lease store as a transition system: the calls of the services in any order, each a step, and
-- the steps of the rest of the program, which reads and writes missions and tasks.
pub mod Safety
use swarmai.Prelude.{ℕ, ◌≤◌, ◌≡◌, Bool, Option, none, some, lookup}
use swarmai.Lease.Rows.{Db, Mission, Reason}
use swarmai.Lease.Authority.{Service}
use swarmai.Lease.Claim.{ClaimCall, claim_eligible_attempt}
use swarmai.Lease.Renew.{RenewCall, renew_lease}
use swarmai.Lease.Expire.{expire_leases}
use swarmai.Lease.Cancel.{cancel_active_lease, revoke_mission_work, cancel_mission}
use swarmai.Lease.Results.{SubmitCall, submit_result, accept_result}
use swarmai.Lease.Refinement.Workers.{WorkerCall, run_worker}

-- The identifier of a new lease is drawn by `new_id`, and is not that of a lease in the table.
pub data Step (s : Service) (d e : Db) : Type 0 where
  claim :
      (c : ClaimCall) (locked : ℕ → Bool)
      → lookup c.lease_id d.leases ≡ none
      → e ≡ (claim_eligible_attempt s c locked d).1
      → Step s d e
  renew : (c : RenewCall) → e ≡ (renew_lease s c d).1 → Step s d e
  expire :
      (clock : ℕ) (project_id : Option ℕ) (limit : ℕ) (locked : ℕ → Bool)
      → e ≡ (expire_leases clock project_id limit locked d).1
      → Step s d e
  submit : (c : SubmitCall) → e ≡ (submit_result s c d).1 → Step s d e
  accept : (result_id clock : ℕ) → e ≡ (accept_result result_id clock d).1 → Step s d e
  cancel_lease :
      (lease_id : ℕ) (why : Reason) (clock : ℕ)
      → e ≡ (cancel_active_lease lease_id why clock d).1
      → Step s d e
  revoke :
      (mission_id : ℕ) (why : Reason) (notify : Bool) (clock : ℕ)
      → e ≡ (revoke_mission_work mission_id why notify clock d).1
      → Step s d e
  cancel_all : (mission_id clock : ℕ) → e ≡ (cancel_mission mission_id clock d).1 → Step s d e
  worker : (c : WorkerCall) → e ≡ (run_worker s c d).1 → Step s d e
  elsewhere : e.leases ≡ d.leases → e.results ≡ d.results → Step s d e

pub data Reach (s : Service) (d : Db) : Db → Type 0 where
  here : Reach s d d
  next : {e f : Db} → Reach s d e → Step s e f → Reach s d f
