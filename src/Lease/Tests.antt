-- ===== src/Lease/Tests.antt =====
-- Runs of the lease store at concrete rows.
use swarmai.Prelude.{
  ℕ, ◌+◌, ◌≤◌, ◌<◌, ◌&&◌, ◌==◌, ◌!=◌, ◌≡◌, refl, ◌⊎◌, Bool, true, false, none, some, [], ◌∷◌, arith,
  lookup, put, ok, any_row, any_among, keys, without_key, keep, select, select_among,
}
use swarmai.Prelude.Paging.{find, order_by, insert_sorted}
use swarmai.Lease.Rows.{
  Db, Worker, WorkerStatus, Task, TaskStatus, Mission, MissionStatus, Attempt, AttemptStatus, Lease,
  LeaseState, WorkerResult, AcceptanceState, Flag, Reason, msnrev,
}
use swarmai.Lease.Authority.{Service, mission_source_revision, token_fails, verify_membership}
use swarmai.Lease.Claim.{ClaimCall, claim_eligible_attempt, next_claim, can_claim, ready_candidates}
use swarmai.Lease.Claim.Queue.{next_claim-eq-find}
use swarmai.Lease.Expire.{
  expire_leases, due_leases, expire_all, expire_row, expire_lease, expire_attempt, expire_task,
  is_due,
}
use swarmai.Lease.Refinement.Due.{expire_clears}
use swarmai.Lease.Cancel.{revoke_mission_work, notify_all}
use swarmai.Lease.Results.{
  accept_result, AcceptedResult, accept_in_state, accept_rows, settle_acceptance, accepted_outcome,
}
use swarmai.Lease.AcceptFence.{
  assert_accept_fence, identity_fence, worker_fence, state_fence, stamp_fence, mission_fence,
  outcome_fence, review_checks_pass, reservations_reconciled, accepted_for,
}
use swarmai.Lease.RenewalChecks.{renewal_expires_at}
use swarmai.Lease.Refinement.Claims.{renewal_granted}
use swarmai.Lease.Workers.{rotate_membership_token, write_worker}
use swarmai.Lease.Credentials.{rotate_invalidates}
use swarmai.Lease.Moves.{Moves}
use swarmai.Lease.Moves.Exclusive.{Exclusive, WithinHorizon}
use swarmai.Lease.Moves.Continuity.{Continues}
use swarmai.Lease.Acceptance.{AcceptedOnce}
use swarmai.Lease.Acceptance.Outcome.{IsAccepted, IsRejected, accept_decides}
use swarmai.Lease.Acceptance.Fencing.{revoke_fences, accept_idempotent}
use swarmai.Lease.System.{claim, expire, revoke, Reach, here, next}
use swarmai.Lease.System.Safety.{Reach-Exclusive, Reach-Moves, Reach-AcceptedOnce, Reach-Continues}

abbrev service : Service
service = record {
  digest = λ token. token + 1000;
  default_lease_seconds = 60;
  renewable_horizon_seconds = 600;
  candidate_page_size = 2;
}

abbrev worker_row : Worker
worker_row = record {
  project_id = some 1;
  status = WorkerStatus.online;
  lease_generation = 1;
  token_hash = some 1007;
  token_id = some 9;
  revoked_at = none;
  drain_requested_at = none;
  capabilities = 31 ∷ [];
  privacy_classes = 2 ∷ [];
  capacity_units = 4;
  policy_version = none;
  heartbeat_at = 0;
  updated_at = 0;
}

abbrev mission_row : Mission
mission_row = record {
  project_id = 1;
  status = MissionStatus.running;
  revision = 1;
  cancellation_generation = 0;
  source_revision = none;
  updated_at = 0;
}

abbrev task_row : TaskStatus → ℕ → Task
task_row status priority = record {
  project_id = 1;
  mission_id = 5;
  status = status;
  graph_revision = 1;
  priority = priority;
  created_at = 0;
  scopes = [];
  dependency_ids = [];
  payload = record {
    cancellation_generation = none;
    source_revision = none;
    input_digest = none;
    required_capabilities = 31 ∷ [];
  };
}

abbrev attempt_row : Attempt
attempt_row = record {
  task_id = 10;
  project_id = some 1;
  mission_id = some 5;
  agent_profile_id = 3;
  worker_id = some 4;
  lease_generation = 1;
  task_revision = 1;
  input_digest = none;
  source_revision = some (msnrev 1);
  cancellation_generation = 0;
  status = AttemptStatus.leased;
  started_at = 100;
  completed_at = none;
  terminal_at = none;
  accepted_result_id = none;
}

abbrev lease_row : Lease
lease_row = record {
  attempt_id = 20;
  task_id = 10;
  mission_id = 5;
  project_id = 1;
  worker_id = 4;
  worker_generation = 1;
  task_revision = 1;
  input_digest = none;
  source_revision = some (msnrev 1);
  cancellation_generation = 0;
  state = LeaseState.active;
  issued_at = 100;
  expires_at = 160;
  renewable_until = some 700;
  reservation_refs = [];
  policy_version = none;
  updated_at = 100;
}

abbrev result_row : WorkerResult
result_row = record {
  attempt_id = 20;
  lease_id = 30;
  task_id = 10;
  mission_id = 5;
  project_id = 1;
  worker_id = 4;
  worker_generation = 1;
  task_revision = 1;
  input_digest = none;
  source_revision = some (msnrev 1);
  result_status = 6;
  checks = some (record { review_passed = Flag.is_true; verification_passed = Flag.absent });
  usage_refs = [];
  effect_receipts = [];
  acceptance_state = AcceptanceState.submitted;
  submitted_at = 120;
  accepted_at = none;
  rejection_reason = none;
}

-- A worker, a mission and two ready tasks, of which the second is served first.
abbrev queued : Db
queued = record {
  workers = (4, worker_row) ∷ [];
  missions = (5, mission_row) ∷ [];
  tasks = (10, task_row TaskStatus.ready 50) ∷ (11, task_row TaskStatus.ready 20) ∷ [];
  attempts = [];
  leases = [];
  results = [];
  outbox = [];
}

-- A task that is leased, with a result of its attempt.
abbrev submitted : Db
submitted = record queued {
  tasks = (10, task_row TaskStatus.leased 50) ∷ (11, task_row TaskStatus.ready 20) ∷ [];
  attempts = (20, attempt_row) ∷ [];
  leases = (30, lease_row) ∷ [];
  results = (40, result_row) ∷ [];
}

abbrev claim_call : ClaimCall
claim_call = record {
  worker_id = 4;
  membership_token = 7;
  agent_profile_id = 3;
  attempt_id = 21;
  lease_id = 31;
  clock = 100;
  lease_seconds = none;
}

abbrev unlocked : ℕ → Bool
unlocked _ = false

next_claim-eq-find_example :
    next_claim service worker_row 1 unlocked queued
    ≡ find (can_claim worker_row queued) (ready_candidates 1 unlocked queued)
next_claim-eq-find_example = next_claim-eq-find service worker_row 1 unlocked queued

-- A claim, an expiry behind it and a revocation.
abbrev after_claim : Db
after_claim = (claim_eligible_attempt service claim_call unlocked submitted).1

abbrev after_expiry : Db
after_expiry = (expire_leases 170 none 10 unlocked after_claim).1

abbrev after_revocation : Db
after_revocation = (revoke_mission_work 5 Reason.revoked true 180 after_expiry).1

history : Reach service submitted after_revocation
unfolding lookup
history =
    next (next (next here (claim claim_call unlocked refl refl)) (expire 170 none 10 unlocked refl))
      (revoke 5 Reason.revoked true 180 refl)

only_lease : (i : ℕ) (l : Lease) → lookup i submitted.leases ≡ some l → (i ≡ 30) × (l ≡ lease_row)
unfolding lookup
only_lease i l e = ground arith

submitted-Exclusive : Exclusive submitted.leases
submitted-Exclusive = record {
  one_holder = λ i j l m ei ej ai aj same. grind (arith, only_lease i l ei, only_lease j m ej);
}

submitted-WithinHorizon : WithinHorizon submitted.leases
unfolding lookup
submitted-WithinHorizon = record { capped = λ i upper l e h. ground arith }

submitted-AcceptedOnce : AcceptedOnce submitted.results
unfolding lookup
submitted-AcceptedOnce = record { one_accepted = λ i j r q ei ej ar aq same. ground arith }

Reach-Exclusive_example : Exclusive after_revocation.leases × WithinHorizon after_revocation.leases
Reach-Exclusive_example = Reach-Exclusive history submitted-Exclusive submitted-WithinHorizon

Reach-Moves_example : Moves submitted.leases after_revocation.leases
Reach-Moves_example = Reach-Moves history

Reach-AcceptedOnce_example : AcceptedOnce after_revocation.results
Reach-AcceptedOnce_example = Reach-AcceptedOnce history submitted-AcceptedOnce

Reach-Continues_example :
    (m : Lease) × (lookup 30 after_revocation.leases ≡ some m) × Continues lease_row m
unfolding lookup
Reach-Continues_example = Reach-Continues 30 lease_row history refl

accept_decides_example :
    IsAccepted 40 result_row 130 submitted ⊎ IsRejected 40 result_row 130 submitted
unfolding lookup
accept_decides_example = accept_decides 40 result_row 130 submitted refl refl

abbrev after_fence : Db
after_fence = (revoke_mission_work 5 Reason.revoked false 125 submitted).1

revoke_fences_example : IsRejected 40 result_row 130 after_fence
unfolding lookup revoke_mission_work put notify_all
revoke_fences_example =
    revoke_fences 5 mission_row Reason.revoked false 125 submitted 40 result_row lease_row
      (task_row TaskStatus.leased 50) 130 refl refl refl refl (omega arith) refl refl

-- The acceptance of the result.
abbrev accepted_db : Db
accepted_db = (accept_result 40 130 submitted).1

abbrev accepted_row : AcceptedResult
accepted_row = record {
  result_id = 40;
  attempt_id = 20;
  lease_id = 30;
  task_id = 10;
  mission_id = 5;
  project_id = 1;
  accepted_at = 130;
}

-- The work of the mission is revoked behind the acceptance.
abbrev revoked_later : Db
revoked_later = (revoke_mission_work 5 Reason.revoked true 400 accepted_db).1

accept_idempotent_example : accept_result 40 500 revoked_later ≡ (ok accepted_row, revoked_later)
unfolding accept_result accept_in_state accept_rows settle_acceptance assert_accept_fence
    identity_fence worker_fence state_fence stamp_fence mission_fence outcome_fence accepted_outcome
    lookup any_row any_among keys without_key review_checks_pass reservations_reconciled
    mission_source_revision accepted_for put revoke_mission_work notify_all
    swarmai.Lease.Cancel.list_active_for_mission order_by select
accept_idempotent_example =
    accept_idempotent 40 130 500 submitted revoked_later {outcome = accepted_row}
      {after = accepted_db} refl refl

renewal_granted_example : (160 ≤ 200) × (200 ≤ 700) × (140 < 200)
unfolding renewal_expires_at
renewal_granted_example = renewal_granted lease_row 140 60 700 {granted = 200} refl refl

abbrev unmarked : ℕ → Bool
unmarked _ = false

abbrev rotated_worker : Worker
rotated_worker = record worker_row {
  token_hash = some 1008;
  token_id = some 77;
  lease_generation = 2;
  updated_at = 150;
}

abbrev after_rotation : Db
after_rotation = (rotate_membership_token service unmarked 4 7 8 77 150 queued).1

rotate_invalidates_example :
    (lookup 4 after_rotation.workers ≡ some rotated_worker)
    × (rotated_worker.lease_generation ≡ 2)
    × (verify_membership service 4 7 after_rotation
        ≡ (service.digest 8 != 0 && service.digest 8 == service.digest 7))
unfolding lookup rotate_membership_token token_fails write_worker
rotate_invalidates_example =
    rotate_invalidates service unmarked 4 7 8 77 150 7 worker_row queued {after = rotated_worker}
      {db' = after_rotation} refl refl

expire_clears_example :
    is_due 170 none (record lease_row { state = LeaseState.expired; updated_at = 170 }) ≡ false
unfolding lookup expire_leases due_leases expire_all expire_row expire_lease expire_attempt
    expire_task order_by insert_sorted keep select select_among keys without_key is_due put
expire_clears_example =
    expire_clears 170 none 10 unlocked submitted 30
      (record lease_row { state = LeaseState.expired; updated_at = 170 }) (omega arith) refl refl
