-- ===== src/Lease/Workers.antt =====
-- `WorkerRegistrationRepository`: enrolment, credentials, drain and heartbeats of workers.
use swarmai.Prelude.{
  ℕ, ◌+◌, Bool, false, not, ◌||◌, Option, none, some, List, [], ◌∷◌, ltb, ◌==◌, ◌!=◌, if◌then◌else◌,
  subset, lookup, put, ok, raise_if, or_raise, Exec,
}
use swarmai.Prelude.Act.{pure, lift, reads, ◌>>=◌, ◌>>◌}
use swarmai.Lease.Rows.{
  Db, Worker, WorkerStatus, LeaseError, worker_not_found, worker_revoked, worker_status,
  invalid_membership_token, worker_generation_mismatch, provider_secret_forbidden,
  capability_expansion_forbidden, capacity_expansion_forbidden, privacy_expansion_forbidden,
}
use swarmai.Lease.Authority.{Service, token_fails, is_revoked, is_quarantined, local}

-- The columns of a registration that the store reads again.
pub record Registration : Type 0 where
  pub worker_id : ℕ
  pub project_id : ℕ
  pub membership_token : ℕ
  pub token_id : ℕ
  pub status : WorkerStatus
  pub generation : ℕ
  pub capabilities : List ℕ
  pub privacy_classes : List ℕ
  pub capacity_units : ℕ
  pub policy_version : Option ℕ
  pub clock : ℕ

-- A new row; a row that is there keeps its revocation and its drain request.
abbrev earlier_revocation : Option Worker → Option ℕ
earlier_revocation none = none
earlier_revocation (some w) = w.revoked_at

abbrev earlier_drain : Option Worker → Option ℕ
earlier_drain none = none
earlier_drain (some w) = w.drain_requested_at

-- `privacy_classes or ["local"]`
abbrev pub default_privacy : List ℕ → List ℕ
default_privacy [] = local ∷ []
default_privacy (p ∷ ps) = p ∷ ps

unfoldable pub registered : Service → Registration → Option Worker → Worker
registered s r earlier = record {
  project_id = some r.project_id;
  status = r.status;
  lease_generation = r.generation;
  token_hash = some (s.digest r.membership_token);
  token_id = some r.token_id;
  revoked_at = earlier_revocation earlier;
  drain_requested_at = earlier_drain earlier;
  capabilities = r.capabilities;
  privacy_classes = default_privacy r.privacy_classes;
  capacity_units = r.capacity_units;
  policy_version = r.policy_version;
  heartbeat_at = r.clock;
  updated_at = r.clock;
}

unfoldable pub write_worker : ℕ → Worker → Exec Db LeaseError Worker
write_worker worker_id w db = (ok w, record db { workers = put worker_id w db.workers })

unfoldable pub upsert_registration : Service → Registration → Exec Db LeaseError Worker
unfolding registered write_worker
upsert_registration s r db =
    write_worker r.worker_id (registered s r (lookup r.worker_id db.workers)) db

-- `rotate_membership_token`. `mentions_secret` is the test of the new token for the markers of a
-- provider's secret.
unfoldable pub rotate_membership_token :
    Service → (ℕ → Bool) → ℕ → ℕ → ℕ → ℕ → ℕ → Exec Db LeaseError Worker
unfolding write_worker
rotate_membership_token s mentions_secret worker_id current_token new_token token_id clock = do
  w ← reads (λ db. or_raise (lookup worker_id db.workers) worker_not_found)
  lift (raise_if (is_revoked w) worker_revoked)
  lift (raise_if (token_fails s w current_token) invalid_membership_token)
  lift (raise_if (mentions_secret new_token) provider_secret_forbidden)
  write_worker worker_id (record w {
    token_hash = some (s.digest new_token);
    token_id = some token_id;
    lease_generation = w.lease_generation + 1;
    updated_at = clock;
  })

unfoldable pub revoke_worker : ℕ → ℕ → Exec Db LeaseError Worker
unfolding write_worker
revoke_worker worker_id clock = do
  w ← reads (λ db. or_raise (lookup worker_id db.workers) worker_not_found)
  write_worker worker_id (record w {
    revoked_at = some clock;
    status = WorkerStatus.quarantined;
    lease_generation = w.lease_generation + 1;
    token_hash = none;
    token_id = none;
    updated_at = clock;
  })

unfoldable pub request_drain : ℕ → ℕ → Exec Db LeaseError Worker
unfolding write_worker
request_drain worker_id clock = do
  w ← reads (λ db. or_raise (lookup worker_id db.workers) worker_not_found)
  if is_revoked w || is_quarantined w.status
      then pure w
      else write_worker worker_id (record w {
        status = WorkerStatus.draining;
        drain_requested_at = some clock;
        updated_at = clock;
      })

-- The state that a worker reports of itself.
pub data Report : Type 0 where
  active draining offline unreported : Report

-- A worker may ask for a drain, and may go offline after it; it cannot leave quarantine.
unfoldable pub reported_status : Report → WorkerStatus → WorkerStatus
reported_status Report.draining WorkerStatus.online = WorkerStatus.draining
reported_status Report.offline WorkerStatus.draining = WorkerStatus.offline
reported_status Report.active WorkerStatus.offline = WorkerStatus.online
reported_status _ status = status

unfoldable pub reported_drain : Report → WorkerStatus → Option ℕ → ℕ → Option ℕ
reported_drain Report.draining WorkerStatus.online earlier clock = some clock
reported_drain _ _ earlier clock = earlier

-- `record_heartbeat`; the progress that it keeps in the JSON payload is left out.
unfoldable pub record_heartbeat : Service → ℕ → ℕ → ℕ → Report → ℕ → Exec Db LeaseError Worker
unfolding write_worker reported_status reported_drain
record_heartbeat s worker_id token generation report clock = do
  w ← reads (λ db. or_raise (lookup worker_id db.workers) worker_not_found)
  lift (raise_if (is_revoked w) worker_revoked)
  lift (raise_if (token_fails s w token) invalid_membership_token)
  lift (raise_if (w.lease_generation != generation) worker_generation_mismatch)
  lift (raise_if (is_quarantined w.status) (worker_status WorkerStatus.quarantined))
  write_worker worker_id (record w {
    status = reported_status report w.status;
    drain_requested_at = reported_drain report w.status w.drain_requested_at clock;
    heartbeat_at = clock;
    updated_at = clock;
  })

-- `sorted(set(xs))`
unfoldable pub insert_unique : ℕ → List ℕ → List ℕ
insert_unique x [] = x ∷ []
insert_unique x (y ∷ ys) =
    if x == y then y ∷ ys else if ltb x y then x ∷ y ∷ ys else y ∷ insert_unique x ys

unfoldable pub sorted_set : List ℕ → List ℕ
unfolding insert_unique
sorted_set [] = []
sorted_set (x ∷ xs) = insert_unique x (sorted_set xs)

-- What a worker asks to keep; `none` leaves a column alone.
unfoldable pub kept_set : Option (List ℕ) → List ℕ → List ℕ
unfolding sorted_set
kept_set none current = current
kept_set (some requested) current = sorted_set requested

abbrev pub expands : Option (List ℕ) → List ℕ → Bool
expands none current = false
expands (some requested) current = not (subset requested current)

abbrev pub exceeds : Option ℕ → ℕ → Bool
exceeds none current = false
exceeds (some requested) current = ltb current requested

abbrev pub kept_units : Option ℕ → ℕ → ℕ
kept_units none current = current
kept_units (some requested) current = requested

-- `advertise_capabilities`. The row is written as each part is checked, so a later refusal leaves
-- the earlier parts in the session.
unfoldable pub advertise_capabilities :
    Service
    → ℕ
    → ℕ
    → ℕ
    → Option (List ℕ)
    → Option ℕ
    → Option (List ℕ)
    → ℕ
    → Exec Db LeaseError Worker
unfolding write_worker kept_set
advertise_capabilities s worker_id token generation capabilities units privacy clock = do
  w ← reads (λ db. or_raise (lookup worker_id db.workers) worker_not_found)
  lift (raise_if (is_revoked w) worker_revoked)
  lift (raise_if (token_fails s w token) invalid_membership_token)
  lift (raise_if (w.lease_generation != generation) worker_generation_mismatch)
  lift (raise_if (expands capabilities w.capabilities) capability_expansion_forbidden)
  w ← write_worker worker_id (record w { capabilities = kept_set capabilities w.capabilities })
  lift (raise_if (exceeds units w.capacity_units) capacity_expansion_forbidden)
  w ← write_worker worker_id (record w { capacity_units = kept_units units w.capacity_units })
  lift (raise_if (expands privacy w.privacy_classes) privacy_expansion_forbidden)
  write_worker worker_id
      (record w { privacy_classes = kept_set privacy w.privacy_classes; updated_at = clock })
