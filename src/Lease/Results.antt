-- ===== src/Lease/Results.antt =====
-- `submit_result` and `accept_result`.
use swarmai.Prelude.{
  ◌≡◌, arith, ℕ, not, Option, none, some, List, [], ◌∷◌, ◌++◌, ◌!=◌, if◌then◌else◌, holds, lookup,
  put, ok, err, raise_if, or_raise, Exec,
}
use swarmai.Prelude.Act.{pure, lift, reads, modify, ◌>>=◌, ◌>>◌}
use swarmai.Lease.Rows.{
  Verdict, Db, Worker, Task, TaskStatus, Attempt, AttemptStatus, Lease, LeaseState, WorkerResult,
  AcceptanceState, Checks, LeaseError, lease_not_found, lease_worker_mismatch,
  lease_project_mismatch, lease_generation_mismatch, attempt_missing, result_not_found,
  result_terminal, missing_fence_rows, assertion_failed, is_active, is_terminal_task,
  result_submitted, result_accepted,
}
use swarmai.Lease.Authority.{Service, require_authenticated_worker}
use swarmai.Lease.AcceptFence.{assert_accept_fence}

pub record SubmitCall : Type 0 where
  pub lease_id : ℕ
  pub worker_id : ℕ
  pub membership_token : ℕ
  pub worker_generation : ℕ
  pub result_status : ℕ
  pub checks : Option Checks
  pub usage_refs : List ℕ
  pub effect_receipts : List (Option ℕ)
  pub clock : ℕ
  pub result_id : ℕ

-- The row is stamped by the lease, not by the caller.
unfoldable pub submitted_result : SubmitCall → Lease → WorkerResult
submitted_result c l = record {
  attempt_id = l.attempt_id;
  lease_id = c.lease_id;
  task_id = l.task_id;
  mission_id = l.mission_id;
  project_id = l.project_id;
  worker_id = c.worker_id;
  worker_generation = c.worker_generation;
  task_revision = l.task_revision;
  input_digest = l.input_digest;
  source_revision = l.source_revision;
  result_status = c.result_status;
  checks = c.checks;
  usage_refs = c.usage_refs;
  effect_receipts = c.effect_receipts;
  acceptance_state = AcceptanceState.submitted;
  submitted_at = c.clock;
  accepted_at = none;
  rejection_reason = none;
}

unfoldable pub write_submission : SubmitCall → Lease → Db → Db
unfolding submitted_result
write_submission c l db = record db {
  results = put c.result_id (submitted_result c l) db.results;
  outbox =
      db.outbox
      ++ result_submitted c.result_id l.attempt_id c.lease_id c.worker_id c.worker_generation ∷ [];
}

-- The part of `submit_result` behind the look-ups of worker and lease.
unfoldable pub submit_found : SubmitCall → Worker → Lease → Exec Db LeaseError WorkerResult
unfolding write_submission
submit_found c w l = do
  lift (raise_if (l.worker_id != c.worker_id) lease_worker_mismatch)
  lift (raise_if (not (holds w.project_id l.project_id)) lease_project_mismatch)
  lift (raise_if (l.worker_generation != c.worker_generation) lease_generation_mismatch)
  reads (λ db. or_raise (lookup l.attempt_id db.attempts) attempt_missing)
  modify (write_submission c l)
  pure (submitted_result c l)

unfoldable pub submit_result : Service → SubmitCall → Exec Db LeaseError WorkerResult
submit_result s c = do
  w ← reads (require_authenticated_worker s c.worker_id c.membership_token)
  l ← reads (λ db. or_raise (lookup c.lease_id db.leases) lease_not_found)
  submit_found c w l

pub record AcceptedResult : Type 0 where
  pub result_id : ℕ
  pub attempt_id : ℕ
  pub lease_id : ℕ
  pub task_id : ℕ
  pub mission_id : ℕ
  pub project_id : ℕ
  pub accepted_at : ℕ

unfoldable pub accepted_outcome : ℕ → WorkerResult → ℕ → AcceptedResult
accepted_outcome result_id r accepted_at = record {
  result_id = result_id;
  attempt_id = r.attempt_id;
  lease_id = r.lease_id;
  task_id = r.task_id;
  mission_id = r.mission_id;
  project_id = r.project_id;
  accepted_at = accepted_at;
}

-- `_mark_rejected`. The reason is cut at 512 characters, which is longer than any.
unfoldable pub mark_rejected : ℕ → WorkerResult → LeaseError → Db → Db
mark_rejected result_id r reason db = record db {
  results =
      put result_id
        (record r {
          acceptance_state = AcceptanceState.rejected;
          rejection_reason = some reason;
          accepted_at = none;
        })
        db.results;
}

-- The rows that an acceptance writes.
unfoldable pub accepted_result : WorkerResult → ℕ → WorkerResult
accepted_result r clock = record r {
  acceptance_state = AcceptanceState.accepted;
  accepted_at = some clock;
  rejection_reason = none;
}

unfoldable pub accepted_attempt : ℕ → Attempt → ℕ → Attempt
accepted_attempt result_id a clock = record a {
  status = AttemptStatus.accepted;
  accepted_result_id = some result_id;
  completed_at = some clock;
  terminal_at = some clock;
}

unfoldable pub released_lease : Lease → ℕ → Lease
released_lease l clock =
    if is_active l.state then record l { state = LeaseState.released; updated_at = clock } else l

unfoldable pub accepted_task : Task → Task
accepted_task t = if is_terminal_task t.status then t else record t { status = TaskStatus.accepted }

unfoldable pub write_acceptance : ℕ → WorkerResult → Lease → Attempt → Task → ℕ → Db → Db
unfolding accepted_result accepted_attempt released_lease accepted_task
write_acceptance result_id r l a t clock db = record db {
  results = put result_id (accepted_result r clock) db.results;
  attempts = put r.attempt_id (accepted_attempt result_id a clock) db.attempts;
  leases = put r.lease_id (released_lease l clock) db.leases;
  tasks = put r.task_id (accepted_task t) db.tasks;
  outbox = db.outbox ++ result_accepted result_id r.attempt_id r.lease_id r.task_id ∷ [];
}

-- The end of `accept_result`, by what the fence says.
unfoldable pub settle_acceptance :
    ℕ → WorkerResult → Lease → Attempt → Task → ℕ → Verdict → Exec Db LeaseError AcceptedResult
unfolding accepted_outcome mark_rejected write_acceptance
settle_acceptance result_id r l a t clock (ok _) db =
    (ok (accepted_outcome result_id r clock), write_acceptance result_id r l a t clock db)
settle_acceptance result_id r l a t clock (err e) db = (err e, mark_rejected result_id r e db)

unfoldable pub accept_rows :
    ℕ
    → WorkerResult
    → ℕ
    → Option Lease
    → Option Attempt
    → Option Task
    → Exec Db LeaseError AcceptedResult
unfolding settle_acceptance
accept_rows result_id r clock (some l) (some a) (some t) db =
    settle_acceptance result_id r l a t clock (assert_accept_fence result_id r l a t clock db) db
accept_rows result_id r clock _ _ _ db =
    (err missing_fence_rows, mark_rejected result_id r missing_fence_rows db)

-- A row that was accepted before: the code asserts that it has its time.
unfoldable pub accepted_before : ℕ → WorkerResult → Exec Db LeaseError AcceptedResult
unfolding accepted_outcome
accepted_before result_id r db = elim r.accepted_at [
  | none ↦ (err assertion_failed, db)
  | some accepted_at ↦ (ok (accepted_outcome result_id r accepted_at), db)
]

-- By the state of the result.
unfoldable pub accept_in_state :
    AcceptanceState → ℕ → WorkerResult → ℕ → Exec Db LeaseError AcceptedResult
unfolding accept_rows accepted_before
accept_in_state AcceptanceState.accepted result_id r clock db = accepted_before result_id r db
accept_in_state AcceptanceState.rejected result_id r clock db =
    (err (result_terminal AcceptanceState.rejected), db)
accept_in_state AcceptanceState.superseded result_id r clock db =
    (err (result_terminal AcceptanceState.superseded), db)
accept_in_state AcceptanceState.submitted result_id r clock db =
    accept_rows result_id r clock (lookup r.lease_id db.leases) (lookup r.attempt_id db.attempts)
      (lookup r.task_id db.tasks) db

unfoldable pub accept_result : ℕ → ℕ → Exec Db LeaseError AcceptedResult
unfolding accept_in_state
accept_result result_id clock = do
  r ← reads (λ db. or_raise (lookup result_id db.results) result_not_found)
  accept_in_state r.acceptance_state result_id r clock

-- Nothing is written then.
pub accepted_before-store :
    (result_id : ℕ) (r : WorkerResult) (db : Db) → (accepted_before result_id r db).1 ≡ db
unfolding accepted_before
accepted_before-store result_id r db = ground arith
