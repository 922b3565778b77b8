-- ===== src/Lease/AcceptFence/Passed.antt =====
-- What is known of a result that has passed the fence.
use swarmai.Prelude.{
  ℕ, ◌<◌, ◌≡◌, refl, true, false, not, ◌&&◌, some, arith, lookup, any_row, ok, or_raise, truthy,
  holds, same,
}
use swarmai.Prelude.Check.{then_result-eq-ok}
use swarmai.Lease.Rows.{
  Db, Worker, Task, Mission, Attempt, Lease, WorkerResult, is_active, is_runnable, revision_drifted,
  is_terminal_attempt, is_attempt_accepted, is_terminal_task, is_task_accepted,
  is_mission_cancelled, same_revision, stamp_drifted,
}
use swarmai.Lease.Authority.{is_revoked, mission_source_revision}
use swarmai.Lease.AcceptFence.{
  identity_fence, worker_fence, state_fence, stamp_fence, mission_fence, outcome_fence,
  accepted_for, assert_accept_fence, review_checks_pass, reservations_reconciled,
}

-- The conditions of the fence, with the worker and the mission that it loads.
pub record Passed (result_id : ℕ) (r : WorkerResult) (l : Lease) (a : Attempt) (t : Task)
    (clock : ℕ) (db : Db) : Type 0 where
  pub worker : Worker
  pub mission : Mission
  pub worker_found : lookup r.worker_id db.workers ≡ some worker
  pub mission_found : lookup t.mission_id db.missions ≡ some mission
  pub same_project : (r.project_id ≡ l.project_id) × (r.project_id ≡ t.project_id)
  pub same_attempt : r.attempt_id ≡ l.attempt_id
  pub same_task : (r.task_id ≡ l.task_id) × (r.mission_id ≡ l.mission_id)
  pub mission_project : mission.project_id ≡ r.project_id
  pub worker_project : holds worker.project_id r.project_id ≡ true
  pub not_revoked : is_revoked worker ≡ false
  pub worker_current : worker.lease_generation ≡ r.worker_generation
  pub lease_issued_to : r.worker_generation ≡ l.worker_generation
  pub not_superseded :
      (truthy a.accepted_result_id && not (holds a.accepted_result_id result_id)) ≡ false
  pub attempt_open : (is_terminal_attempt a.status && not (is_attempt_accepted a.status)) ≡ false
  pub task_open : (is_terminal_task t.status && not (is_task_accepted t.status)) ≡ false
  pub lease_active : is_active l.state ≡ true
  pub in_time : clock < l.expires_at
  pub result_revision : r.task_revision ≡ l.task_revision
  pub task_revision : t.graph_revision ≡ l.task_revision
  pub input_digest : same r.input_digest l.input_digest ≡ true
  pub source_revision : same_revision r.source_revision l.source_revision ≡ true
  pub mission_open : is_mission_cancelled mission.status ≡ false
  pub runnable : is_runnable mission.status ≡ true
  pub not_cancelled : l.cancellation_generation ≡ mission.cancellation_generation
  pub task_not_cancelled :
      stamp_drifted t.payload.cancellation_generation mission.cancellation_generation ≡ false
  pub source_current : revision_drifted l.source_revision (mission_source_revision mission) ≡ false
  pub reviewed : review_checks_pass r.checks ≡ true
  pub reconciled : reservations_reconciled l r ≡ true
  pub first_accepted : any_row (accepted_for r.attempt_id) db.results ≡ false

-- The parts of the fence, each on its own.
module _ (r : WorkerResult) (l : Lease) (t : Task) {u : Unit {0}} where
  identity_passed :
      identity_fence r l r.attempt_id t ≡ ok u
      → (r.project_id ≡ l.project_id)
        × (r.project_id ≡ t.project_id)
        × (r.attempt_id ≡ l.attempt_id)
        × (r.task_id ≡ l.task_id)
        × (r.mission_id ≡ l.mission_id)
        × (r.worker_generation ≡ l.worker_generation)
  unfolding identity_fence
  identity_passed h = ground arith

  worker_passed :
      (w : Worker)
      → worker_fence r w ≡ ok u
      → (is_revoked w ≡ false)
        × (w.lease_generation ≡ r.worker_generation)
        × (holds w.project_id r.project_id ≡ true)
  unfolding worker_fence
  worker_passed w h = ground arith

  state_passed :
      (result_id : ℕ) (a : Attempt) (clock : ℕ)
      → state_fence result_id l a t clock ≡ ok u
      → (is_active l.state ≡ true)
        × (clock < l.expires_at)
        × ((truthy a.accepted_result_id && not (holds a.accepted_result_id result_id)) ≡ false)
        × ((is_terminal_attempt a.status && not (is_attempt_accepted a.status)) ≡ false)
        × ((is_terminal_task t.status && not (is_task_accepted t.status)) ≡ false)
  unfolding state_fence
  state_passed result_id a clock h = ground arith

  stamp_passed :
      stamp_fence r l t ≡ ok u
      → (r.task_revision ≡ l.task_revision)
        × (t.graph_revision ≡ l.task_revision)
        × (same r.input_digest l.input_digest ≡ true)
        × (same_revision r.source_revision l.source_revision ≡ true)
  unfolding stamp_fence
  stamp_passed h = ground arith

  mission_passed :
      (m : Mission)
      → mission_fence r l t m ≡ ok u
      → (is_runnable m.status ≡ true)
        × (l.cancellation_generation ≡ m.cancellation_generation)
        × (revision_drifted l.source_revision (mission_source_revision m) ≡ false)
        × (m.project_id ≡ r.project_id)
        × (is_mission_cancelled m.status ≡ false)
        × (stamp_drifted t.payload.cancellation_generation m.cancellation_generation ≡ false)
  unfolding mission_fence
  mission_passed m h = ground arith

  outcome_passed :
      (db : Db)
      → outcome_fence r l r.attempt_id db ≡ ok u
      → (review_checks_pass r.checks ≡ true)
        × (reservations_reconciled l r ≡ true)
        × (any_row (accepted_for r.attempt_id) db.results ≡ false)
  unfolding outcome_fence
  outcome_passed db h = ground arith

-- A result that passes satisfies every condition.
pub fence-Passed :
    (result_id : ℕ) (r : WorkerResult) (l : Lease) (a : Attempt) (t : Task) (clock : ℕ) (db : Db)
    {u : Unit {0}}
    → assert_accept_fence result_id r l a t clock db ≡ ok u
    → Passed result_id r l a t clock db
unfolding assert_accept_fence
fence-Passed result_id r l a t clock db h =
    let (_, p1, h1) = then_result-eq-ok (identity_fence r l r.attempt_id t) _ h in
    let (w, p2, h2) = then_result-eq-ok (or_raise (lookup r.worker_id db.workers) _) _ h1 in
    let (_, p3, h3) = then_result-eq-ok (worker_fence r w) _ h2 in
    let (_, p4, h4) = then_result-eq-ok (state_fence result_id l a t clock) _ h3 in
    let (_, p5, h5) = then_result-eq-ok (stamp_fence r l t) _ h4 in
    let (m, p6, h6) = then_result-eq-ok (or_raise (lookup t.mission_id db.missions) _) _ h5 in
    let (_, p7, h7) = then_result-eq-ok (mission_fence r l t m) _ h6 in
    let i = identity_passed r l t p1 in
    let k = worker_passed r l t w p3 in
    let s = state_passed r l t result_id a clock p4 in
    let g = stamp_passed r l t p5 in
    let n = mission_passed r l t m p7 in
    let o = outcome_passed r l t db h7 in
    record {
      worker = w;
      mission = m;
      worker_found = ground arith;
      mission_found = ground arith;
      same_project = (i.0, i.1);
      same_attempt = i.2;
      same_task = (i.3, i.4);
      mission_project = n.3;
      worker_project = k.2;
      not_revoked = k.0;
      worker_current = k.1;
      lease_issued_to = i.5;
      not_superseded = s.2;
      attempt_open = s.3;
      task_open = s.4;
      lease_active = s.0;
      in_time = s.1;
      result_revision = g.0;
      task_revision = g.1;
      input_digest = g.2;
      source_revision = g.3;
      mission_open = n.4;
      runnable = n.0;
      not_cancelled = n.1;
      task_not_cancelled = n.5;
      source_current = n.2;
      reviewed = o.0;
      reconciled = o.1;
      first_accepted = o.2;
    }

-- And a result that satisfies every condition passes.
pub Passed-fence :
    (result_id : ℕ) (r : WorkerResult) (l : Lease) (a : Attempt) (t : Task) (clock : ℕ) (db : Db)
    → Passed result_id r l a t clock db
    → assert_accept_fence result_id r l a t clock db ≡ ok tt
unfolding assert_accept_fence identity_fence worker_fence state_fence stamp_fence mission_fence
    outcome_fence
Passed-fence result_id r l a t clock db p =
    let w = p.worker in
    let m = p.mission in
    let identity : identity_fence r l r.attempt_id t ≡ ok tt =
      ground (arith, p.same_project, p.same_attempt, p.same_task, p.lease_issued_to) in
    let worker : worker_fence r w ≡ ok tt =
      ground (arith, p.not_revoked, p.worker_current, p.worker_project) in
    let state : state_fence result_id l a t clock ≡ ok tt =
      ground (arith, p.not_superseded, p.lease_active, p.in_time, p.attempt_open, p.task_open) in
    let stamp : stamp_fence r l t ≡ ok tt =
      ground (arith, p.result_revision, p.task_revision, p.input_digest, p.source_revision) in
    let mission : mission_fence r l t m ≡ ok tt = ground (
      arith, p.mission_project, p.mission_open, p.runnable, p.source_current, p.not_cancelled,
      p.task_not_cancelled,
    ) in
    let outcome : outcome_fence r l r.attempt_id db ≡ ok tt =
      ground (arith, p.reviewed, p.reconciled, p.first_accepted) in
    rw (identity, p.worker_found, worker, state, stamp, p.mission_found, mission, outcome) refl
