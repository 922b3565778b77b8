-- ===== src/Mission/Work.antt =====
-- `choose_ready_work`: the tasks whose dependencies are met, and the scheduler's choice of them.
use swarmai.Prelude.{
  ℕ, Bool, true, false, ◌&&◌, Option, none, some, List, [], ◌∷◌, ◌++◌, if◌then◌else◌, lookup, put,
  rows, Result, ok, err, or_raise, Exec,
}
use swarmai.Prelude.Act.{reads, gets, modify, ◌>>=◌, ◌>>◌}
use swarmai.Graph.Specs.{TaskStatus, TaskSpec}
use swarmai.Scheduler.Authority.{StaleEpochError}
use swarmai.Scheduler.Choose.{Scheduler, Explanation, choose_ready}
use swarmai.Mission.State.{
  Mission, GraphExplanation, Tasks, Controller, MissionError, tasks_of, write_tasks, explain,
}
use swarmai.Mission.Commit.{ready_task}

abbrev pub is_done : TaskStatus → Bool
is_done TaskStatus.accepted = true
is_done TaskStatus.verifying = true
is_done _ = false

abbrev pub is_waiting : TaskStatus → Bool
is_waiting TaskStatus.ready = true
is_waiting TaskStatus.proposed = true
is_waiting _ = false

abbrev pub is_proposed : TaskStatus → Bool
is_proposed TaskStatus.proposed = true
is_proposed _ = false

abbrev pub is_met : Option TaskSpec → Bool
is_met none = false
is_met (some parent) = is_done parent.status

-- The loop over the dependencies of a task.
abbrev pub deps_met : Tasks → List ℕ → Bool
deps_met ts [] = true
deps_met ts (d ∷ ds) = is_met (lookup d ts) && deps_met ts ds

-- A proposed task whose dependencies are met becomes ready.
abbrev pub promote : TaskSpec → TaskSpec
promote t = if is_proposed t.status then ready_task t else t

abbrev pub promote_in : TaskSpec → Tasks → Tasks
promote_in t ts = if is_proposed t.status then put t.id (ready_task t) ts else ts

-- The loop over the tasks: those that may run, and the table with the promoted ones.
unfoldable pub gather : Tasks → List TaskSpec → Tasks → List TaskSpec × Tasks
gather [] found ts = (found, ts)
gather ((_, t) ∷ rest) found ts =
    let may_run = is_waiting t.status && deps_met ts t.dependency_ids in
    gather rest (if may_run then found ++ promote t ∷ [] else found)
      (if may_run then promote_in t ts else ts)

abbrev pub scheduled :
    Result StaleEpochError (List TaskSpec × Explanation) × Scheduler
    → Exec Controller MissionError (List TaskSpec)
scheduled (ok (selected, why), s) c =
    (ok selected, explain (GraphExplanation.schedule why) (record c { scheduler = s }))
scheduled (err e, s) c = (err (MissionError.stale_epoch_error e), record c { scheduler = s })

-- A mission without a table of tasks is not given one.
abbrev pub write_gathered : ℕ → Tasks → Option Tasks → Controller → Controller
write_gathered mission_id ts none c = c
write_gathered mission_id ts (some _) c = write_tasks mission_id ts c

abbrev pub dispatch : ℕ → Mission → List TaskSpec → ℕ → Exec Controller MissionError (List TaskSpec)
dispatch mission_id m ready_tasks now c =
    scheduled
      (choose_ready m.id ready_tasks c.inference_slots c.worker_slots true none now c.scheduler) c

unfoldable pub choose_ready_work : ℕ → ℕ → Exec Controller MissionError (List TaskSpec)
unfolding gather rows
choose_ready_work mission_id now = do
  m ← reads (λ c. or_raise (lookup mission_id c.missions) MissionError.key_error)
  tasks ← gets (λ c. tasks_of mission_id c.tasks)
  modify (λ c.
      write_gathered mission_id (gather (rows tasks) [] tasks).1 (lookup mission_id c.tasks) c)
  dispatch mission_id m (gather (rows tasks) [] tasks).0 now
