-- ===== src/Graph/Specs.antt =====
-- Tasks, proposals to change the graph of tasks, and what their validation answers.
use swarmai.Prelude.{ℕ, Bool, true, false, Option, none, List}

pub data TaskStatus : Type 0 where
  proposed : TaskStatus
  ready : TaskStatus
  leased : TaskStatus
  running : TaskStatus
  waiting_children : TaskStatus
  waiting_capacity : TaskStatus
  waiting_approval : TaskStatus
  verifying : TaskStatus
  accepted : TaskStatus
  rejected : TaskStatus
  failed : TaskStatus
  cancelled : TaskStatus
  superseded : TaskStatus

pub record TaskSpec : Type 0 where
  pub id : ℕ
  pub parent_task_id : Option ℕ
  pub objective : ℕ
  pub task_family : ℕ
  pub dependency_ids : List ℕ
  pub scopes : List ℕ
  pub priority : ℕ
  pub created_at : ℕ
  pub status : TaskStatus

pub data GraphOperation : Type 0 where
  spawn : GraphOperation
  split : GraphOperation
  reassign : GraphOperation
  merge : GraphOperation
  challenge : GraphOperation
  revise : GraphOperation
  stop : GraphOperation
  request_help : GraphOperation
  submit_result : GraphOperation
  revise_dependency : GraphOperation

pub record GraphProposal : Type 0 where
  pub proposal_id : ℕ
  pub mission_id : ℕ
  pub based_on_revision : ℕ
  pub operation : GraphOperation
  pub task_specs : List TaskSpec

pub data Reason : Type 0 where
  stale_revision : Reason
  stop_ok : Reason
  cross_scope_dependency : Reason
  scope_not_in_mission : Reason
  duplicate_merged : Reason
  max_graph_nodes : Reason
  cycle_rejected : Reason
  spawn_ok : Reason
  merge_ok : Reason
  challenge_ok : Reason
  reassign_ok : Reason
  revise_ok : Reason
  accepted_ok : Reason

pub record ValidationResult : Type 0 where
  pub is_accepted : Bool
  pub reason : Reason
  pub merged_into : Option ℕ

abbrev pub refuse : Reason → ValidationResult
refuse why = record { is_accepted = false; reason = why; merged_into = none }

abbrev pub allow : Reason → ValidationResult
allow why = record { is_accepted = true; reason = why; merged_into = none }

-- `status not in {CANCELLED, SUPERSEDED}`
abbrev pub is_live : TaskStatus → Bool
is_live TaskStatus.cancelled = false
is_live TaskStatus.superseded = false
is_live _ = true
