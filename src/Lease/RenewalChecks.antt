-- ===== src/Lease/RenewalChecks.antt =====
-- The tests of `renew_lease`: `_require_current_lease_authority` and `_renewal_expires_at`.
use swarmai.Prelude.{
  ℕ, ◌+◌, not, ◌&&◌, ◌||◌, none, some, leb, ltb, ◌!=◌, if◌then◌else◌, min, holds, truthy, is_some,
  lookup, Result, ok, raise_if, or_raise,
}
use swarmai.Prelude.Check.{◌>>=◌, ◌>>◌}
use swarmai.Lease.Rows.{
  Verdict, Db, Worker, Task, Mission, Attempt, Lease, LeaseError, lease_worker_mismatch,
  lease_project_mismatch, lease_generation_mismatch, worker_generation_mismatch,
  lease_not_renewable, lease_already_expired, task_missing, task_terminal, task_project_mismatch,
  task_revision_mismatch, attempt_missing, attempt_lease_mismatch, attempt_project_mismatch,
  attempt_terminal, attempt_terminal_at_set, attempt_completed, attempt_accepted_result,
  authority_stale, source_revision_stale, cancellation_generation_stale, attempt_source_stale,
  attempt_cancellation_stale, attempt_revision_stale, past_renewable_until,
  no_positive_renewal_window, is_active, is_terminal_task, is_terminal_attempt, revision_drifted,
}
use swarmai.Lease.Authority.{mission_source_revision, load_claimable_mission}

-- The tests of `renew_lease` itself, on the lease that was found.
unfoldable pub renewable_by : Worker → ℕ → ℕ → ℕ → Lease → Verdict
renewable_by w worker_id worker_generation clock l = do
  raise_if (l.worker_id != worker_id) lease_worker_mismatch
  raise_if (not (holds w.project_id l.project_id)) lease_project_mismatch
  raise_if (l.worker_generation != worker_generation) lease_generation_mismatch
  raise_if (w.lease_generation != worker_generation) worker_generation_mismatch
  raise_if (not (is_active l.state)) (lease_not_renewable l.state)
  raise_if (leb l.expires_at clock) lease_already_expired

-- `_require_current_lease_authority`: the task,
unfoldable pub task_authority : Lease → Task → Verdict
task_authority l t = do
  raise_if (is_terminal_task t.status) (task_terminal t.status)
  raise_if (t.project_id != l.project_id) task_project_mismatch
  raise_if (t.graph_revision != l.task_revision) task_revision_mismatch

-- the attempt,
unfoldable pub attempt_authority : Lease → Attempt → Verdict
attempt_authority l a = do
  raise_if (a.task_id != l.task_id || not (holds a.mission_id l.mission_id)) attempt_lease_mismatch
  raise_if (is_some a.project_id && not (holds a.project_id l.project_id)) attempt_project_mismatch
  raise_if (is_terminal_attempt a.status) (attempt_terminal a.status)
  raise_if (is_some a.terminal_at) attempt_terminal_at_set
  raise_if (is_some a.completed_at) attempt_completed
  raise_if (truthy a.accepted_result_id) attempt_accepted_result

-- and the stamps of the lease and of the attempt against the mission.
unfoldable pub stamp_authority : Lease → Attempt → Mission → Verdict
stamp_authority l a m = do
  let current_source = mission_source_revision m
  raise_if (revision_drifted l.source_revision current_source) source_revision_stale
  raise_if (l.cancellation_generation != m.cancellation_generation) cancellation_generation_stale
  raise_if (revision_drifted a.source_revision current_source) attempt_source_stale
  raise_if (a.cancellation_generation != m.cancellation_generation) attempt_cancellation_stale
  raise_if (a.task_revision != m.revision) attempt_revision_stale

unfoldable pub require_current_lease_authority : Lease → Db → Verdict
require_current_lease_authority l db = do
  t ← or_raise (lookup l.task_id db.tasks) task_missing
  task_authority l t
  a ← or_raise (lookup l.attempt_id db.attempts) attempt_missing
  attempt_authority l a
  m ← or_raise (load_claimable_mission t db) authority_stale
  stamp_authority l a m

-- `_renewal_expires_at`, below the horizon `upper`: past it there is nothing to grant, and an
-- expiry is never moved back.
unfoldable pub capped_renewal : Lease → ℕ → ℕ → ℕ → Result LeaseError ℕ
capped_renewal l clock desired upper = do
  raise_if (leb upper clock) past_renewable_until
  let capped = min desired upper
  raise_if (leb capped clock) no_positive_renewal_window
  raise_if (leb upper l.expires_at) no_positive_renewal_window
  ok (if ltb capped l.expires_at then l.expires_at else capped)

unfoldable pub renewal_expires_at : Lease → ℕ → ℕ → Result LeaseError ℕ
unfolding capped_renewal
renewal_expires_at l clock extend_seconds = elim l.renewable_until [
  | none ↦ ok (clock + extend_seconds)
  | some upper ↦ capped_renewal l clock (clock + extend_seconds) upper
]
