-- ===== src/Mission/Commit.antt =====
-- `commit_validated_revision`: a proposal becomes a revision of the mission.
use swarmai.Prelude.{
  ℕ, suc, not, List, [], ◌∷◌, truthy, if◌then◌else◌, lookup, put, ok, err, or_raise, Exec,
}
use swarmai.Prelude.Act.{reads, gets, modify, ◌>>=◌, ◌>>◌}
use swarmai.Graph.Specs.{TaskStatus, TaskSpec, GraphProposal, ValidationResult}
use swarmai.Graph.Proposals.{validate_proposal, is_spawn, is_stop}
use swarmai.Mission.State.{
  MissionStatus, Mission, GraphExplanation, Tasks, Controller, MissionError, tasks_of, set_default,
  write_mission, write_tasks, explain,
}

abbrev pub ready_task : TaskSpec → TaskSpec
ready_task s = record s { status = TaskStatus.ready }

-- `task_map[ready.id] = ready` for every new task.
unfoldable pub add_ready : List TaskSpec → Tasks → Tasks
add_ready [] ts = ts
add_ready (s ∷ ss) ts = add_ready ss (put s.id (ready_task s) ts)

abbrev pub cancel_mission : Mission → Mission
cancel_mission m = record m { status = MissionStatus.cancelled }

abbrev pub revise_mission : Mission → Mission
revise_mission m = record m { revision = suc m.revision; status = MissionStatus.running }

abbrev pub written : GraphProposal → Mission → Controller → Controller
written p m c =
    if is_spawn p.operation
    then write_tasks m.id (add_ready p.task_specs (tasks_of m.id c.tasks)) c
    else c

-- What follows the validation.
unfoldable pub apply_result :
    GraphProposal → Mission → ValidationResult → Exec Controller MissionError ℕ
unfolding add_ready
apply_result p m result c =
    if not result.is_accepted
    then if truthy result.merged_into
      then (ok m.revision, c)
      else (err (MissionError.value_error result.reason), c)
    else if is_stop p.operation
    then (ok m.revision, write_mission (cancel_mission m) c)
    else (ok (suc m.revision), write_mission (revise_mission m) (written p m c))

abbrev pub validation : GraphProposal → Mission → Controller → ValidationResult
validation p m c =
    validate_proposal p (tasks_of m.id c.tasks) m.revision m.data_scope_ids m.max_graph_nodes

abbrev pub explanation_of : GraphProposal → ValidationResult → GraphExplanation
explanation_of p r =
    GraphExplanation.change p.proposal_id p.operation r.is_accepted r.reason r.merged_into

abbrev pub defaulted : Mission → Controller → Controller
defaulted m c = record c { tasks = set_default m.id c.tasks }

unfoldable pub commit_validated_revision : ℕ → Exec Controller MissionError ℕ
unfolding apply_result
commit_validated_revision proposal_id = do
  p ← reads (λ c. or_raise (lookup proposal_id c.proposals) MissionError.key_error)
  m ← reads (λ c. or_raise (lookup p.mission_id c.missions) MissionError.key_error)
  modify (defaulted m)
  result ← gets (validation p m)
  modify (explain (explanation_of p result))
  apply_result p m result
