-- ===== src/Lease/AcceptFence.antt =====
-- `_assert_accept_fence`, the tests that a result must pass, in the order of the code.
pub mod Passed
use swarmai.Prelude.{
  ℕ, Bool, true, false, not, ◌&&◌, ◌||◌, Option, none, some, List, [], ◌∷◌, ◌++◌, leb, ◌==◌, ◌!=◌,
  if◌then◌else◌, holds, same, truthy, is_some, subset, lookup, any_row, Result, ok, err, raise_if,
  or_raise,
}
use swarmai.Prelude.Check.{◌>>=◌, ◌>>◌}
use swarmai.Lease.Rows.{
  Verdict, Db, Worker, Task, Mission, Attempt, Lease, WorkerResult, Checks, Flag, LeaseError,
  project_mismatch, attempt_lease_mismatch, result_task_mismatch, result_generation_mismatch,
  worker_not_found, worker_revoked, worker_generation_stale, worker_project_mismatch,
  attempt_already_accepted, lease_not_current, lease_expired, attempt_terminal, task_terminal,
  result_task_revision_mismatch, task_revision_mismatch, input_digest_mismatch,
  source_revision_mismatch, mission_missing, mission_project_mismatch, mission_cancelled,
  mission_not_runnable, source_revision_stale, cancellation_generation_stale,
  task_cancellation_stale, review_checks_failed, reservations_unreconciled,
  duplicate_accepted_result, is_active, is_terminal_attempt, is_attempt_accepted, is_terminal_task,
  is_task_accepted, is_mission_cancelled, is_runnable, is_accepted, same_revision, revision_drifted,
  stamp_drifted,
}
use swarmai.Lease.Authority.{is_revoked, mission_source_revision}

-- `_review_checks_pass`
abbrev pub is_true : Flag → Bool
is_true Flag.is_true = true
is_true _ = false

abbrev pub is_false : Flag → Bool
is_false Flag.is_false = true
is_false _ = false

unfoldable pub review_checks_pass : Option Checks → Bool
review_checks_pass none = false
review_checks_pass (some c) =
    is_true c.review_passed || (is_true c.verification_passed && not (is_false c.review_passed))

-- `_reservations_reconciled`: the references that the usage and the receipts of the result name.
unfoldable pub receipt_refs : List (Option ℕ) → List ℕ
receipt_refs [] = []
receipt_refs (none ∷ receipts) = receipt_refs receipts
receipt_refs (some r ∷ receipts) =
    let rest = receipt_refs receipts in if truthy (some r) then r ∷ rest else rest

unfoldable pub reservations_reconciled : Lease → WorkerResult → Bool
unfolding receipt_refs
reservations_reconciled l r =
    subset l.reservation_refs (r.usage_refs ++ receipt_refs r.effect_receipts)

-- The result belongs to the lease, and the lease to the attempt. The attempt row was loaded by
-- `attempt_id`.
unfoldable pub identity_fence : WorkerResult → Lease → ℕ → Task → Verdict
identity_fence r l attempt_id t = do
  raise_if (r.project_id != l.project_id || r.project_id != t.project_id) project_mismatch
  raise_if (r.attempt_id != l.attempt_id || attempt_id != l.attempt_id) attempt_lease_mismatch
  raise_if (r.task_id != l.task_id || r.mission_id != l.mission_id) result_task_mismatch
  raise_if (r.worker_generation != l.worker_generation) result_generation_mismatch

-- The worker is of the generation that submitted.
unfoldable pub worker_fence : WorkerResult → Worker → Verdict
worker_fence r w = do
  raise_if (is_revoked w) worker_revoked
  raise_if (w.lease_generation != r.worker_generation) worker_generation_stale
  raise_if (not (holds w.project_id r.project_id)) worker_project_mismatch

-- The lease runs, and neither attempt nor task is over.
unfoldable pub state_fence : ℕ → Lease → Attempt → Task → ℕ → Verdict
state_fence result_id l a t clock = do
  raise_if (truthy a.accepted_result_id && not (holds a.accepted_result_id result_id))
      attempt_already_accepted
  raise_if (not (is_active l.state)) (lease_not_current l.state)
  raise_if (leb l.expires_at clock) lease_expired
  raise_if (is_terminal_attempt a.status && not (is_attempt_accepted a.status))
      (attempt_terminal a.status)
  raise_if (is_terminal_task t.status && not (is_task_accepted t.status)) (task_terminal t.status)

-- Result, lease and task carry the same stamps.
unfoldable pub stamp_fence : WorkerResult → Lease → Task → Verdict
stamp_fence r l t = do
  raise_if (r.task_revision != l.task_revision) result_task_revision_mismatch
  raise_if (t.graph_revision != l.task_revision) task_revision_mismatch
  raise_if (not (same r.input_digest l.input_digest)) input_digest_mismatch
  raise_if (not (same_revision r.source_revision l.source_revision)) source_revision_mismatch

-- The mission is current.
unfoldable pub mission_fence : WorkerResult → Lease → Task → Mission → Verdict
mission_fence r l t m = do
  raise_if (m.project_id != r.project_id) mission_project_mismatch
  raise_if (is_mission_cancelled m.status) mission_cancelled
  raise_if (not (is_runnable m.status)) (mission_not_runnable m.status)
  raise_if (revision_drifted l.source_revision (mission_source_revision m)) source_revision_stale
  raise_if (l.cancellation_generation != m.cancellation_generation) cancellation_generation_stale
  raise_if (stamp_drifted t.payload.cancellation_generation m.cancellation_generation)
      task_cancellation_stale

-- `get_accepted_for_attempt` finds a result that is not this one. The code reads one accepted row
-- of the attempt and compares its identifier; this result is not accepted yet.
unfoldable pub accepted_for : ℕ → WorkerResult → Bool
accepted_for attempt_id r = r.attempt_id == attempt_id && is_accepted r.acceptance_state

unfoldable pub outcome_fence : WorkerResult → Lease → ℕ → Db → Verdict
unfolding accepted_for
outcome_fence r l attempt_id db = do
  raise_if (not (review_checks_pass r.checks)) review_checks_failed
  raise_if (not (reservations_reconciled l r)) reservations_unreconciled
  raise_if (any_row (accepted_for attempt_id) db.results) duplicate_accepted_result

unfoldable pub assert_accept_fence : ℕ → WorkerResult → Lease → Attempt → Task → ℕ → Db → Verdict
assert_accept_fence result_id r l a t clock db = do
  identity_fence r l r.attempt_id t
  w ← or_raise (lookup r.worker_id db.workers) worker_not_found
  worker_fence r w
  state_fence result_id l a t clock
  stamp_fence r l t
  m ← or_raise (lookup t.mission_id db.missions) mission_missing
  mission_fence r l t m
  outcome_fence r l r.attempt_id db
