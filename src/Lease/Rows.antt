-- ===== src/Lease/Rows.antt =====
-- The rows of the lease store (src/swarm/db/models.py) and its error reasons.
-- Identifiers, digests and other texts that the code only compares are numbers; 0 is the empty
-- text. Times are seconds. A row does not repeat its primary key, which is its key in the table.
use swarmai.Prelude.{Result, ℕ, Bool, true, false, Option, none, some, List, Table, ◌==◌, ◌!=◌, not}

pub data MissionStatus : Type 0 where
  draft planning running waiting_capacity waiting_input waiting_approval verifying completed failed
        cancelled :
      MissionStatus

-- `completed` is no member of the enumeration, but the dependency test accepts it.
pub data TaskStatus : Type 0 where
  proposed ready leased running waiting_children waiting_capacity waiting_approval verifying
        accepted rejected failed cancelled superseded completed :
      TaskStatus

pub data AttemptStatus : Type 0 where
  pending leased running succeeded failed cancelled expired accepted unknown : AttemptStatus

pub data LeaseState : Type 0 where
  active renewed expired released cancelled : LeaseState

pub data WorkerStatus : Type 0 where
  online draining offline quarantined : WorkerStatus

pub data AcceptanceState : Type 0 where
  submitted accepted rejected superseded : AcceptanceState

-- A source revision is a text: `msnrev n` is the text "msnrev:n", and `text n` any other.
pub data Revision : Type 0 where
  text : ℕ → Revision
  msnrev : ℕ → Revision

-- The reason of a cancellation, a text of which the code knows one.
pub data Reason : Type 0 where
  cancelled revoked : Reason
  other_reason : ℕ → Reason

-- The value of a JSON flag that is tested with `is True` and `is not False`.
pub data Flag : Type 0 where
  absent is_true is_false other : Flag

-- The texts that the exceptions carry.
pub data LeaseError : Type 0 where
  worker_not_found worker_revoked invalid_membership_token worker_generation_mismatch
        provider_secret_forbidden capability_expansion_forbidden capacity_expansion_forbidden
        privacy_expansion_forbidden worker_missing_project_id :
      LeaseError
  worker_status : WorkerStatus → LeaseError
  claim_project_mismatch lease_not_found lease_worker_mismatch lease_project_mismatch
        lease_generation_mismatch lease_already_expired :
      LeaseError
  lease_not_renewable lease_not_active lease_not_current : LeaseState → LeaseError
  task_missing task_project_mismatch task_revision_mismatch attempt_missing attempt_lease_mismatch
        attempt_project_mismatch attempt_terminal_at_set attempt_completed attempt_accepted_result
        authority_stale source_revision_stale cancellation_generation_stale attempt_source_stale
        attempt_cancellation_stale attempt_revision_stale past_renewable_until
        no_positive_renewal_window :
      LeaseError
  task_terminal : TaskStatus → LeaseError
  attempt_terminal : AttemptStatus → LeaseError
  result_terminal : AcceptanceState → LeaseError
  result_not_found missing_fence_rows project_mismatch result_task_mismatch
        result_generation_mismatch worker_generation_stale worker_project_mismatch
        attempt_already_accepted lease_expired result_task_revision_mismatch input_digest_mismatch
        source_revision_mismatch mission_missing mission_project_mismatch mission_cancelled
        task_cancellation_stale review_checks_failed reservations_unreconciled
        duplicate_accepted_result assertion_failed :
      LeaseError
  mission_not_runnable : MissionStatus → LeaseError

-- `WorkerLeaseRow`. `capacity_units` is in units of the smallest step that the program uses.
pub record Worker : Type 0 where
  pub project_id : Option ℕ
  pub status : WorkerStatus
  pub lease_generation : ℕ
  pub token_hash : Option ℕ
  pub token_id : Option ℕ
  pub revoked_at : Option ℕ
  pub drain_requested_at : Option ℕ
  pub capabilities : List ℕ
  pub privacy_classes : List ℕ
  pub capacity_units : ℕ
  pub policy_version : Option ℕ
  pub heartbeat_at : ℕ
  pub updated_at : ℕ

-- The keys that the store reads of the JSON payload of a task; a payload that is no dict has none.
pub record TaskPayload : Type 0 where
  pub cancellation_generation : Option ℕ
  pub source_revision : Option Revision
  pub input_digest : Option ℕ
  pub required_capabilities : List ℕ

pub record Task : Type 0 where
  pub project_id : ℕ
  pub mission_id : ℕ
  pub status : TaskStatus
  pub graph_revision : ℕ
  pub priority : ℕ
  pub created_at : ℕ
  pub scopes : List ℕ
  pub dependency_ids : List ℕ
  pub payload : TaskPayload

-- `source_revision` is the text under that key of the payload.
pub record Mission : Type 0 where
  pub project_id : ℕ
  pub status : MissionStatus
  pub revision : ℕ
  pub cancellation_generation : ℕ
  pub source_revision : Option Revision
  pub updated_at : ℕ

pub record Attempt : Type 0 where
  pub task_id : ℕ
  pub project_id : Option ℕ
  pub mission_id : Option ℕ
  pub agent_profile_id : ℕ
  pub worker_id : Option ℕ
  pub lease_generation : ℕ
  pub task_revision : ℕ
  pub input_digest : Option ℕ
  pub source_revision : Option Revision
  pub cancellation_generation : ℕ
  pub status : AttemptStatus
  pub started_at : ℕ
  pub completed_at : Option ℕ
  pub terminal_at : Option ℕ
  pub accepted_result_id : Option ℕ

pub record Lease : Type 0 where
  pub attempt_id : ℕ
  pub task_id : ℕ
  pub mission_id : ℕ
  pub project_id : ℕ
  pub worker_id : ℕ
  pub worker_generation : ℕ
  pub task_revision : ℕ
  pub input_digest : Option ℕ
  pub source_revision : Option Revision
  pub cancellation_generation : ℕ
  pub state : LeaseState
  pub issued_at : ℕ
  pub expires_at : ℕ
  pub renewable_until : Option ℕ
  pub reservation_refs : List ℕ
  pub policy_version : Option ℕ
  pub updated_at : ℕ

pub record Checks : Type 0 where
  pub review_passed : Flag
  pub verification_passed : Flag

-- `checks` is `none` for a dict that is missing or empty; `effect_receipts` holds the reservation
-- of each receipt.
pub record WorkerResult : Type 0 where
  pub attempt_id : ℕ
  pub lease_id : ℕ
  pub task_id : ℕ
  pub mission_id : ℕ
  pub project_id : ℕ
  pub worker_id : ℕ
  pub worker_generation : ℕ
  pub task_revision : ℕ
  pub input_digest : Option ℕ
  pub source_revision : Option Revision
  pub result_status : ℕ
  pub checks : Option Checks
  pub usage_refs : List ℕ
  pub effect_receipts : List (Option ℕ)
  pub acceptance_state : AcceptanceState
  pub submitted_at : ℕ
  pub accepted_at : Option ℕ
  pub rejection_reason : Option LeaseError

-- The rows of the outbox, by their event types, with their payloads.
pub data Event : Type 0 where
  lease_claimed : ℕ → ℕ → ℕ → ℕ → Event
  result_submitted : ℕ → ℕ → ℕ → ℕ → ℕ → Event
  result_accepted : ℕ → ℕ → ℕ → ℕ → Event
  generation_bumped : ℕ → ℕ → ℕ → Reason → Event
  lease_cancelled : ℕ → Reason → Event

-- What the session sees of the database.
pub record Db : Type 0 where
  pub workers : Table Worker
  pub missions : Table Mission
  pub tasks : Table Task
  pub attempts : Table Attempt
  pub leases : Table Lease
  pub results : Table WorkerResult
  pub outbox : List Event

-- `_ACTIVE_LEASE_STATES`
abbrev pub is_active : LeaseState → Bool
is_active LeaseState.active = true
is_active LeaseState.renewed = true
is_active _ = false

-- `_RUNNABLE_MISSION_STATUSES`
abbrev pub is_runnable : MissionStatus → Bool
is_runnable MissionStatus.draft = false
is_runnable MissionStatus.completed = false
is_runnable MissionStatus.failed = false
is_runnable MissionStatus.cancelled = false
is_runnable _ = true

abbrev pub is_mission_cancelled : MissionStatus → Bool
is_mission_cancelled MissionStatus.cancelled = true
is_mission_cancelled _ = false

-- `_TERMINAL_TASK_STATUSES`
abbrev pub is_terminal_task : TaskStatus → Bool
is_terminal_task TaskStatus.accepted = true
is_terminal_task TaskStatus.rejected = true
is_terminal_task TaskStatus.failed = true
is_terminal_task TaskStatus.cancelled = true
is_terminal_task TaskStatus.superseded = true
is_terminal_task _ = false

abbrev pub is_task_accepted : TaskStatus → Bool
is_task_accepted TaskStatus.accepted = true
is_task_accepted _ = false

-- `_CLAIMABLE_TASK_STATUS`
abbrev pub is_ready : TaskStatus → Bool
is_ready TaskStatus.ready = true
is_ready _ = false

abbrev pub is_leased : TaskStatus → Bool
is_leased TaskStatus.leased = true
is_leased _ = false

-- `_DEPENDENCY_DONE_STATUSES`
abbrev pub is_done : TaskStatus → Bool
is_done TaskStatus.accepted = true
is_done TaskStatus.completed = true
is_done _ = false

-- `_TERMINAL_ATTEMPT_STATUSES`
abbrev pub is_terminal_attempt : AttemptStatus → Bool
is_terminal_attempt AttemptStatus.succeeded = true
is_terminal_attempt AttemptStatus.failed = true
is_terminal_attempt AttemptStatus.cancelled = true
is_terminal_attempt AttemptStatus.expired = true
is_terminal_attempt AttemptStatus.accepted = true
is_terminal_attempt _ = false

abbrev pub is_attempt_accepted : AttemptStatus → Bool
is_attempt_accepted AttemptStatus.accepted = true
is_attempt_accepted _ = false

-- The statuses in which an expiring lease ends its attempt.
abbrev pub is_in_flight : AttemptStatus → Bool
is_in_flight AttemptStatus.leased = true
is_in_flight AttemptStatus.running = true
is_in_flight AttemptStatus.pending = true
is_in_flight _ = false

abbrev pub is_accepted : AcceptanceState → Bool
is_accepted AcceptanceState.accepted = true
is_accepted _ = false

abbrev pub revision_eq : Revision → Revision → Bool
revision_eq (text a) (text b) = a == b
revision_eq (msnrev a) (msnrev b) = a == b
revision_eq _ _ = false

abbrev pub same_revision : Option Revision → Option Revision → Bool
same_revision none none = true
same_revision (some a) (some b) = revision_eq a b
same_revision _ _ = false

-- `stamp is not None and str(stamp) != current`
abbrev pub revision_drifted : Option Revision → Revision → Bool
revision_drifted none current = false
revision_drifted (some r) current = not (revision_eq r current)

-- `stamp is not None and int(stamp) != int(current)`
abbrev pub stamp_drifted : Option ℕ → ℕ → Bool
stamp_drifted none current = false
stamp_drifted (some n) current = n != current

-- What a chain of tests returns.
abbrev pub Verdict : Type 0
Verdict = Result LeaseError (Unit {0})
