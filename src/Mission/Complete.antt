-- ===== src/Mission/Complete.antt =====
-- `try_complete`: has every task of the mission been settled, and verified where it is accepted?
use swarmai.Prelude.{
  ℕ, Bool, true, false, not, ◌&&◌, some, [], ◌∷◌, ◌==◌, truthy, if◌then◌else◌, Table, lookup, put,
  rows, any_row, ok, or_raise, Exec,
}
use swarmai.Prelude.Act.{reads, ◌>>=◌}
use swarmai.Graph.Specs.{TaskStatus}
use swarmai.Mission.State.{
  MissionStatus, Mission, TaskAttempt, Tasks, Controller, MissionError, tasks_of,
}

abbrev pub has_failed : TaskStatus → Bool
has_failed TaskStatus.failed = true
has_failed TaskStatus.rejected = true
has_failed _ = false

abbrev pub is_accepted : TaskStatus → Bool
is_accepted TaskStatus.accepted = true
is_accepted _ = false

abbrev pub is_settled : TaskStatus → Bool
is_settled TaskStatus.accepted = true
is_settled TaskStatus.cancelled = true
is_settled TaskStatus.superseded = true
is_settled _ = false

-- Some attempt of the task has been verified.
unfoldable pub verified : ℕ → Table TaskAttempt → Bool
unfolding any_row
verified task_id attempts =
    any_row (λ a. a.task_id == task_id && truthy a.verification_receipt_id) attempts

-- What the loop over the tasks finds first: a failure, an open task, or nothing.
pub data Progress : Type 0 where
  has_failure : Progress
  is_open : Progress
  is_finished : Progress

unfoldable pub progress : Table TaskAttempt → Tasks → Progress
progress attempts [] = Progress.is_finished
progress attempts ((_, t) ∷ ts) =
    let rest = progress attempts ts in
    if has_failed t.status
    then Progress.has_failure
    else if not (is_settled t.status)
    then Progress.is_open
    else if is_accepted t.status && not (verified t.id attempts)
    then Progress.is_open
    else rest

abbrev pub complete_mission : ℕ → Mission → Mission
complete_mission receipt m = record m {
  status = MissionStatus.completed;
  acceptance_receipt_id = some receipt;
}

abbrev fail_mission : Mission → Mission
fail_mission m = record m { status = MissionStatus.failed }

abbrev pub conclude : ℕ → ℕ → Mission → Progress → Exec Controller MissionError Mission
conclude mission_id receipt m Progress.has_failure c = (ok (fail_mission m), c)
conclude mission_id receipt m Progress.is_open c = (ok m, c)
conclude mission_id receipt m Progress.is_finished c = (
  ok (complete_mission receipt m),
  record c { missions = put mission_id (complete_mission receipt m) c.missions },
)

abbrev pub unless_empty : Tasks → Progress → Progress
unless_empty [] p = Progress.is_open
unless_empty (_ ∷ _) p = p

-- `receipt` is the fresh identifier of the acceptance.
unfoldable pub try_complete : ℕ → ℕ → Exec Controller MissionError Mission
unfolding progress rows tasks_of
try_complete mission_id receipt = do
  m ← reads (λ c. or_raise (lookup mission_id c.missions) MissionError.key_error)
  λ c.
      let ts = rows (tasks_of mission_id c.tasks) in
      conclude mission_id receipt m (unless_empty ts (progress c.attempts ts)) c
