-- ===== src/Mission/State.antt =====
-- What a `MissionController` keeps, and its operations that only write.
use swarmai.Prelude.{ℕ, Bool, Option, none, some, List, [], ◌∷◌, ◌++◌, Table, lookup, put, ok, Exec}
use swarmai.Graph.Specs.{TaskStatus, TaskSpec, GraphOperation, GraphProposal, Reason}
use swarmai.Scheduler.Authority.{StaleEpochError}
use swarmai.Scheduler.Choose.{Scheduler, Explanation, note_overload}

pub data MissionStatus : Type 0 where
  draft : MissionStatus
  planning : MissionStatus
  running : MissionStatus
  waiting_capacity : MissionStatus
  waiting_input : MissionStatus
  waiting_approval : MissionStatus
  verifying : MissionStatus
  completed : MissionStatus
  failed : MissionStatus
  cancelled : MissionStatus

pub record Mission : Type 0 where
  pub id : ℕ
  pub data_scope_ids : List ℕ
  pub max_graph_nodes : ℕ
  pub status : MissionStatus
  pub revision : ℕ
  pub acceptance_receipt_id : Option ℕ

pub record TaskAttempt : Type 0 where
  pub attempt_id : ℕ
  pub task_id : ℕ
  pub verification_receipt_id : Option ℕ

-- The entries of `graph_explanations`.
pub data GraphExplanation : Type 0 where
  change :
      (proposal_id : ℕ) (operation : GraphOperation) (is_accepted : Bool) (reason : Reason)
      (merged_into : Option ℕ)
      → GraphExplanation
  schedule : Explanation → GraphExplanation

abbrev pub Tasks : Type 0
Tasks = Table TaskSpec

pub record Controller : Type 0 where
  pub scheduler : Scheduler
  pub missions : Table Mission
  pub tasks : Table Tasks
  pub proposals : Table GraphProposal
  pub attempts : Table TaskAttempt
  pub verifications : Table ℕ
  pub graph_explanations : List GraphExplanation
  pub inference_slots : ℕ
  pub worker_slots : ℕ

pub data MissionError : Type 0 where
  key_error : MissionError
  value_error : Reason → MissionError
  stale_epoch_error : StaleEpochError → MissionError

abbrev tasks_or_none : Option Tasks → Tasks
tasks_or_none none = []
tasks_or_none (some ts) = ts

-- `self.tasks.get(mission_id, {})`
unfoldable pub tasks_of : ℕ → Table Tasks → Tasks
tasks_of mission_id all = tasks_or_none (lookup mission_id all)

-- `self.tasks.setdefault(mission_id, {})`
abbrev pub set_default : ℕ → Table Tasks → Table Tasks
set_default mission_id all = put mission_id (tasks_of mission_id all) all

abbrev pub write_mission : Mission → Controller → Controller
write_mission m c = record c { missions = put m.id m c.missions }

abbrev pub write_tasks : ℕ → Tasks → Controller → Controller
write_tasks mission_id ts c = record c { tasks = put mission_id ts c.tasks }

abbrev pub explain : GraphExplanation → Controller → Controller
explain e c = record c { graph_explanations = c.graph_explanations ++ e ∷ [] }

unfoldable pub submit_mission : Mission → Exec Controller MissionError Mission
submit_mission m c =
    let planned = record m { status = MissionStatus.planning } in
    (ok planned, record (write_mission planned c) { tasks = set_default m.id c.tasks })

unfoldable pub propose_graph_change : GraphProposal → Exec Controller MissionError GraphProposal
propose_graph_change p c = (ok p, record c { proposals = put p.proposal_id p c.proposals })

unfoldable pub register_attempt : TaskAttempt → Exec Controller MissionError (Unit {0})
register_attempt a c = (ok tt, record c { attempts = put a.attempt_id a c.attempts })

unfoldable pub expand_capacity : ℕ → ℕ → Exec Controller MissionError (Unit {0})
expand_capacity inference workers c =
    (ok tt, record c { inference_slots = inference; worker_slots = workers })

unfoldable pub note_inference_exhaustion : Exec Controller MissionError (Unit {0})
unfolding note_overload
note_inference_exhaustion c = (ok tt, record c { scheduler = note_overload c.scheduler })

abbrev pub accept_task : TaskSpec → TaskSpec
accept_task t = record t { status = TaskStatus.accepted }

abbrev pub accept_row : ℕ → Tasks → Option TaskSpec → Tasks
accept_row task_id ts none = ts
accept_row task_id ts (some t) = put task_id (accept_task t) ts

-- The loop over the tasks of all missions.
unfoldable pub accept_everywhere : ℕ → Table Tasks → Table Tasks
accept_everywhere task_id [] = []
accept_everywhere task_id ((m, ts) ∷ rest) =
    (m, accept_row task_id ts (lookup task_id ts)) ∷ accept_everywhere task_id rest

abbrev pub verify_attempt : ℕ → ℕ → Option TaskAttempt → Controller → Controller
verify_attempt attempt_id receipt_id none c = c
verify_attempt attempt_id receipt_id (some a) c = record c {
  attempts = put attempt_id (record a { verification_receipt_id = some receipt_id }) c.attempts;
  tasks = accept_everywhere a.task_id c.tasks;
}

unfoldable pub record_verification : ℕ → ℕ → Exec Controller MissionError (Unit {0})
unfolding accept_everywhere
record_verification attempt_id receipt_id c =
    let noted = record c { verifications = put attempt_id receipt_id c.verifications } in
    (ok tt, verify_attempt attempt_id receipt_id (lookup attempt_id c.attempts) noted)
