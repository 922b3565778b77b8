-- ===== src/Lease/Refinement/Workers.antt =====
-- The calls of `WorkerRegistrationRepository` as one type, and the tables that they write.
use swarmai.Prelude.{ℕ, ◌≡◌, Bool, Option, List, arith, Exec}
use swarmai.Lease.Rows.{Db, Worker, LeaseError}
use swarmai.Lease.Authority.{Service}
use swarmai.Lease.Workers.{
  Registration, Report, upsert_registration, rotate_membership_token, revoke_worker, request_drain,
  record_heartbeat, advertise_capabilities,
}

pub record OnlyWorkers (d e : Db) : Type 0 where
  pub missions : e.missions ≡ d.missions
  pub tasks : e.tasks ≡ d.tasks
  pub attempts : e.attempts ≡ d.attempts
  pub leases : e.leases ≡ d.leases
  pub results : e.results ≡ d.results

-- The calls of `WorkerRegistrationRepository` that write.
pub data WorkerCall : Type 0 where
  enrol : Registration → WorkerCall
  rotate : (ℕ → Bool) → ℕ → ℕ → ℕ → ℕ → ℕ → WorkerCall
  quarantine : ℕ → ℕ → WorkerCall
  drain : ℕ → ℕ → WorkerCall
  heartbeat : ℕ → ℕ → ℕ → Report → ℕ → WorkerCall
  advertise : ℕ → ℕ → ℕ → Option (List ℕ) → Option ℕ → Option (List ℕ) → ℕ → WorkerCall

pub run_worker : Service → WorkerCall → Exec Db LeaseError Worker
run_worker s (enrol r) = upsert_registration s r
run_worker s (rotate secret w old new id clock) =
    rotate_membership_token s secret w old new id clock
run_worker s (quarantine w clock) = revoke_worker w clock
run_worker s (drain w clock) = request_drain w clock
run_worker s (heartbeat w token g r clock) = record_heartbeat s w token g r clock
run_worker s (advertise w token g caps units privacy clock) =
    advertise_capabilities s w token g caps units privacy clock

-- Whether the call succeeds or not.
pub run_worker-OnlyWorkers :
    (s : Service) (c : WorkerCall) (db : Db) → OnlyWorkers db (run_worker s c db).1
unfolding run_worker upsert_registration rotate_membership_token revoke_worker request_drain
    record_heartbeat advertise_capabilities
run_worker-OnlyWorkers s (enrol r) db = ground arith
run_worker-OnlyWorkers s (rotate secret w old new id clock) db = ground arith
run_worker-OnlyWorkers s (quarantine w clock) db = ground arith
run_worker-OnlyWorkers s (drain w clock) db = ground arith
run_worker-OnlyWorkers s (heartbeat w token g r clock) db = ground arith
run_worker-OnlyWorkers s (advertise w token g caps units privacy clock) db = ground arith
