-- ===== src/Lease/Claim.antt =====
-- `LeaseLifecycleService.claim_eligible_attempt`: the ordered, paginated scan for a task that the
-- worker may take, and the writing of the claim.
pub mod Queue
use swarmai.Prelude.{
  ℕ, suc, ◌+◌, Bool, true, false, not, ◌&&◌, ◌||◌, Option, none, some, List, [], ◌∷◌, ◌++◌, ltb,
  ◌==◌, ◌!=◌, if◌then◌else◌, or_default, is_some, length, keep, lookup, put, rows, min, max, Exec,
  ok, err, raise_if,
}
use swarmai.Prelude.Act.{pure, lift, reads, gets, ◌>>=◌, ◌>>◌}
use swarmai.Prelude.Paging.{order_by, scan}
use swarmai.Lease.Rows.{
  Db, Worker, Task, TaskStatus, Mission, Lease, LeaseState, Attempt, AttemptStatus, LeaseError,
  worker_missing_project_id, claim_project_mismatch, is_ready, lease_claimed,
}
use swarmai.Lease.Authority.{
  Service, require_claimable_worker, mission_source_revision, load_claimable_mission,
  dependencies_satisfied, worker_eligible_for_task, has_active_lease,
}

-- A task row of the scan with its key.
abbrev pub Candidate : Type 0
Candidate = ℕ × Task

-- `ORDER BY priority, created_at, id`, and the comparison of the keyset.
unfoldable pub before : Candidate → Candidate → Bool
before (i, t) (j, u) =
    ltb t.priority u.priority
    || (t.priority == u.priority
        && (ltb t.created_at u.created_at || (t.created_at == u.created_at && ltb i j)))

-- The `WHERE` clause of `_lock_ready_candidates`. `SKIP LOCKED` passes over the rows that other
-- transactions hold.
unfoldable pub is_candidate : ℕ → (ℕ → Bool) → Candidate → Bool
is_candidate project_id locked (i, t) =
    t.project_id == project_id && is_ready t.status && not (locked i)

-- The candidates of the whole queue, in the order in which they are served.
unfoldable pub ready_candidates : ℕ → (ℕ → Bool) → Db → List Candidate
ready_candidates project_id locked db =
    order_by before (keep (is_candidate project_id locked) (rows db.tasks))

-- The tests of the loop on one candidate.
unfoldable pub can_claim : Worker → Db → Candidate → Bool
can_claim w db (i, t) =
    worker_eligible_for_task w t
    && not (has_active_lease i db)
    && dependencies_satisfied t db
    && is_some (load_claimable_mission t db)

-- The scan: no page is read twice, so one more round than there are tasks is enough.
unfoldable pub next_claim : Service → Worker → ℕ → (ℕ → Bool) → Db → Option Candidate
next_claim s w project_id locked db =
    scan before (suc (length (ready_candidates project_id locked db))) (max 1 s.candidate_page_size)
      (can_claim w db) none (ready_candidates project_id locked db)

pub record ClaimedLease : Type 0 where
  pub task_id : ℕ
  pub attempt_id : ℕ
  pub lease_id : ℕ
  pub mission_id : ℕ
  pub project_id : ℕ
  pub worker_id : ℕ
  pub worker_generation : ℕ
  pub task_revision : ℕ
  pub expires_at : ℕ
  pub state : LeaseState

-- The call: who claims, the identifiers that `new_id` draws, and the time.
pub record ClaimCall : Type 0 where
  pub worker_id : ℕ
  pub membership_token : ℕ
  pub agent_profile_id : ℕ
  pub attempt_id : ℕ
  pub lease_id : ℕ
  pub clock : ℕ
  pub lease_seconds : Option ℕ

-- The expiry is capped by the horizon of renewals.
abbrev pub claim_expires_at : Service → ClaimCall → ℕ
claim_expires_at s c =
    let expires_at = c.clock + or_default c.lease_seconds s.default_lease_seconds in
    let renewable_until = c.clock + s.renewable_horizon_seconds in
    if ltb renewable_until expires_at then renewable_until else expires_at

unfoldable pub claimed_attempt : ClaimCall → Worker → ℕ → ℕ → Task → Mission → Attempt
unfolding mission_source_revision
claimed_attempt c w project_id task_id t m = record {
  task_id = task_id;
  project_id = some project_id;
  mission_id = some t.mission_id;
  agent_profile_id = c.agent_profile_id;
  worker_id = some c.worker_id;
  lease_generation = w.lease_generation;
  task_revision = t.graph_revision;
  input_digest = t.payload.input_digest;
  source_revision = some (mission_source_revision m);
  cancellation_generation = m.cancellation_generation;
  status = AttemptStatus.leased;
  started_at = c.clock;
  completed_at = none;
  terminal_at = none;
  accepted_result_id = none;
}

unfoldable pub claimed_lease : Service → ClaimCall → Worker → ℕ → ℕ → Task → Mission → Lease
unfolding mission_source_revision
claimed_lease s c w project_id task_id t m = record {
  attempt_id = c.attempt_id;
  task_id = task_id;
  mission_id = t.mission_id;
  project_id = project_id;
  worker_id = c.worker_id;
  worker_generation = w.lease_generation;
  task_revision = t.graph_revision;
  input_digest = t.payload.input_digest;
  source_revision = some (mission_source_revision m);
  cancellation_generation = m.cancellation_generation;
  state = LeaseState.active;
  issued_at = c.clock;
  expires_at = claim_expires_at s c;
  renewable_until = some (c.clock + s.renewable_horizon_seconds);
  reservation_refs = [];
  policy_version = w.policy_version;
  updated_at = c.clock;
}

unfoldable pub claimed_outcome : Service → ClaimCall → Worker → ℕ → ℕ → Task → ClaimedLease
claimed_outcome s c w project_id task_id t = record {
  task_id = task_id;
  attempt_id = c.attempt_id;
  lease_id = c.lease_id;
  mission_id = t.mission_id;
  project_id = project_id;
  worker_id = c.worker_id;
  worker_generation = w.lease_generation;
  task_revision = t.graph_revision;
  expires_at = claim_expires_at s c;
  state = LeaseState.active;
}

-- `_bind_claim`
unfoldable pub bind_claim :
    Service
    → ClaimCall
    → Worker
    → ℕ
    → Candidate
    → Mission
    → Exec Db LeaseError (Option ClaimedLease)
unfolding claimed_attempt claimed_lease claimed_outcome
bind_claim s c w project_id (task_id, t) m db =
    if project_id != m.project_id || project_id != t.project_id
    then (err claim_project_mismatch, db)
    else (
      ok (some (claimed_outcome s c w project_id task_id t)),
      record db {
        attempts = put c.attempt_id (claimed_attempt c w project_id task_id t m) db.attempts;
        leases = put c.lease_id (claimed_lease s c w project_id task_id t m) db.leases;
        tasks = put task_id (record t { status = TaskStatus.leased }) db.tasks;
        outbox = db.outbox ++ lease_claimed task_id c.lease_id c.worker_id w.lease_generation ∷ [];
      },
    )

-- The end of the scan: the mission of the candidate was loaded by the last of its tests.
unfoldable pub claim_candidate :
    Service → ClaimCall → Worker → ℕ → Option Candidate → Exec Db LeaseError (Option ClaimedLease)
claim_candidate s c w project_id none db = (ok none, db)
claim_candidate s c w project_id (some (task_id, t)) db = elim (load_claimable_mission t db) [
  | none ↦ (ok none, db)
  | some m ↦ bind_claim s c w project_id (task_id, t) m db
]

-- `project_id` of the worker; a worker with none, or an empty one, is refused.
abbrev pub project_of : Worker → Option ℕ
project_of w = elim w.project_id [ none ↦ none | some p ↦ if p == 0 then none else some p ]

unfoldable pub claim_in_project :
    Service → ClaimCall → (ℕ → Bool) → Worker → Option ℕ → Exec Db LeaseError (Option ClaimedLease)
claim_in_project s c locked w none db = (err worker_missing_project_id, db)
claim_in_project s c locked w (some project_id) db =
    claim_candidate s c w project_id (next_claim s w project_id locked db) db

unfoldable pub claim_eligible_attempt :
    Service → ClaimCall → (ℕ → Bool) → Exec Db LeaseError (Option ClaimedLease)
claim_eligible_attempt s c locked = do
  w ← reads (require_claimable_worker s c.worker_id c.membership_token)
  claim_in_project s c locked w (project_of w)
