-- ===== src/Lease/Authority.antt =====
-- The tests of lease_fencing.py that read rows and change none: who may act, which mission and
-- lease are current, what a worker may take.
use swarmai.Prelude.{
  ℕ, Bool, true, false, not, ◌&&◌, ◌||◌, Option, none, some, List, [], ◌∷◌, ltb, ◌==◌, ◌!=◌,
  if◌then◌else◌, holds, truthy, contains, subset, lookup, any_row, Result, ok, raise_if, or_raise,
}
use swarmai.Prelude.Check.{◌>>=◌, ◌>>◌}
use swarmai.Lease.Rows.{
  Db, Worker, WorkerStatus, Task, Mission, Lease, Attempt, Revision, text, msnrev, LeaseError,
  worker_not_found, worker_revoked, worker_status, invalid_membership_token, is_active, is_runnable,
  is_mission_cancelled, is_done, revision_drifted, stamp_drifted,
}

-- The attributes of `LeaseLifecycleService`, and the keyed digest of membership tokens (HMAC-SHA256).
pub record Service : Type 0 where
  pub digest : ℕ → ℕ
  pub default_lease_seconds : ℕ
  pub renewable_horizon_seconds : ℕ
  pub candidate_page_size : ℕ

-- The texts that the eligibility test knows: the scope "local_only" and the privacy class "local".
abbrev pub local_only : ℕ
local_only = 1

abbrev pub local : ℕ
local = 2

-- `not row.token_hash or not verify_membership_token(...)`
unfoldable pub token_fails : Service → Worker → ℕ → Bool
token_fails s w token = not (truthy w.token_hash) || not (holds w.token_hash (s.digest token))

-- `WorkerRegistrationRepository.verify_membership`
unfoldable pub verify_membership : Service → ℕ → ℕ → Db → Bool
verify_membership s worker_id token db = elim (lookup worker_id db.workers) [
  | none ↦ false
  | some w ↦ elim w.revoked_at [ none ↦ not (token_fails s w token) | some _ ↦ false ]
]

abbrev pub is_revoked : Worker → Bool
is_revoked w = elim w.revoked_at [ none ↦ false | some _ ↦ true ]

abbrev pub is_quarantined : WorkerStatus → Bool
is_quarantined WorkerStatus.quarantined = true
is_quarantined _ = false

-- The statuses of a worker that takes no work.
abbrev pub is_withdrawn : WorkerStatus → Bool
is_withdrawn WorkerStatus.online = false
is_withdrawn _ = true

-- `_require_claimable_worker`
unfoldable pub require_claimable_worker : Service → ℕ → ℕ → Db → Result LeaseError Worker
require_claimable_worker s worker_id token db = do
  w ← or_raise (lookup worker_id db.workers) worker_not_found
  raise_if (is_revoked w) worker_revoked
  raise_if (is_withdrawn w.status) (worker_status w.status)
  raise_if (token_fails s w token) invalid_membership_token
  ok w

-- `_require_authenticated_worker`: draining and offline workers may still submit.
unfoldable pub require_authenticated_worker : Service → ℕ → ℕ → Db → Result LeaseError Worker
require_authenticated_worker s worker_id token db = do
  w ← or_raise (lookup worker_id db.workers) worker_not_found
  raise_if (is_revoked w) worker_revoked
  raise_if (is_quarantined w.status) (worker_status w.status)
  raise_if (token_fails s w token) invalid_membership_token
  ok w

-- `_mission_source_revision`: the explicit text if it is not empty.
abbrev pub explicit_or : Option Revision → ℕ → Revision
explicit_or none n = msnrev n
explicit_or (some (msnrev k)) n = msnrev k
explicit_or (some (text k)) n = if k == 0 then msnrev n else text k

unfoldable pub mission_source_revision : Mission → Revision
mission_source_revision m = explicit_or m.source_revision m.revision

-- The tests of `_load_claimable_mission` on a mission that was found. The code rejects a negative
-- generation too; here generations are natural numbers.
unfoldable pub is_claimable : Task → Mission → Bool
unfolding mission_source_revision
is_claimable t m =
    is_runnable m.status
    && not (is_mission_cancelled m.status || ltb m.cancellation_generation 0)
    && t.project_id == m.project_id
    && t.graph_revision == m.revision
    && not (stamp_drifted t.payload.cancellation_generation m.cancellation_generation)
    && not (revision_drifted t.payload.source_revision (mission_source_revision m))

-- `_load_claimable_mission`
unfoldable pub load_claimable_mission : Task → Db → Option Mission
load_claimable_mission t db = elim (lookup t.mission_id db.missions) [
  | none ↦ none
  | some m ↦ if is_claimable t m then some m else none
]

-- `_lease_stamp_authority_stale`
abbrev pub attempt_stamp_stale : Option Attempt → Mission → Revision → Bool
attempt_stamp_stale none m current = false
attempt_stamp_stale (some a) m current =
    a.task_revision != m.revision
    || revision_drifted a.source_revision current
    || a.cancellation_generation != m.cancellation_generation

unfoldable pub lease_stamp_authority_stale :
    Lease → Option Attempt → Task → Mission → Revision → Bool
lease_stamp_authority_stale l a t m current =
    t.graph_revision != m.revision
    || l.task_revision != m.revision
    || revision_drifted l.source_revision current
    || l.cancellation_generation != m.cancellation_generation
    || attempt_stamp_stale a m current

-- `_dependencies_satisfied`: the loop over the dependencies, and one step of it.
unfoldable pub dependency_done : Task → Option Task → Bool
dependency_done t none = false
dependency_done t (some dep) =
    not (dep.mission_id != t.mission_id || dep.project_id != t.project_id)
    && dep.graph_revision == t.graph_revision
    && is_done dep.status

unfoldable pub all_done : Task → List ℕ → Db → Bool
all_done t [] db = true
all_done t (d ∷ ds) db = dependency_done t (lookup d db.tasks) && all_done t ds db

unfoldable pub dependencies_satisfied : Task → Db → Bool
dependencies_satisfied t db = all_done t t.dependency_ids db

-- `_worker_eligible_for_task`
unfoldable pub worker_eligible_for_task : Worker → Task → Bool
worker_eligible_for_task w t =
    subset t.payload.required_capabilities w.capabilities
    && not (contains local_only t.scopes && not (contains local w.privacy_classes))

-- `_has_active_lease`
unfoldable pub holds_task : ℕ → Lease → Bool
holds_task task_id l = l.task_id == task_id && is_active l.state

unfoldable pub has_active_lease : ℕ → Db → Bool
has_active_lease task_id db = any_row (holds_task task_id) db.leases
