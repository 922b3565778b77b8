-- ===== src/Mission/Tests.antt =====
-- A run of the controller, and the theorems on it.
use swarmai.Prelude.{
  ℕ, suc, ◌≡◌, ◌≢◌, refl, inl, inr, Bool, true, false, Option, none, some, List, [], ◌∷◌, Table,
  lookup, rows, if◌then◌else◌, ◌&&◌, All, arith, Result, ok, err,
}
use swarmai.Graph.Walks.{Walk, edge, then_on}
use swarmai.Graph.Specs.{TaskStatus, TaskSpec, GraphOperation, GraphProposal, Reason}
use swarmai.Scheduler.Choose.{SchedulerConfig, SchedulerState, Scheduler}
use swarmai.Mission.State.{
  MissionStatus, Mission, Controller, MissionError, tasks_of, submit_mission, propose_graph_change,
}
use swarmai.Mission.Commit.{commit_validated_revision}
use swarmai.Mission.Work.{choose_ready_work}
use swarmai.Mission.Complete.{try_complete, complete_mission}
use swarmai.Mission.Sound.{Sound, AllSound}
use swarmai.Mission.System.{Step, Reach, Reach-AllSound}
use swarmai.Mission.Dispatch.{OnlyHandedOut, work-HandedOut}
use swarmai.Mission.Revisions.{AllKeyed, Later}
use swarmai.Mission.Races.{commit_once}
use swarmai.Mission.Finished.{has_tasks, all_finished, try_complete_lem}

abbrev idle : Controller
idle = record {
  scheduler = record {
    profiles = [];
    config = record {
      control_reserve_slots = 1;
      overload_cooldown_ticks = 3;
      priority_aging_per_tick = 1;
      max_concurrency = 8;
      backpressure_min_slots = 1;
    };
    state = record {
      tick = 0;
      cooldown_remaining = 0;
      last_overload = false;
      mission_fairness = [];
      draining = false;
    };
    site_authority = none;
    site_id = none;
    site_epoch = none;
  };
  missions = [];
  tasks = [];
  proposals = [];
  attempts = [];
  verifications = [];
  graph_explanations = [];
  inference_slots = 4;
  worker_slots = 4;
}

abbrev mission : Mission
mission = record {
  id = 6;
  data_scope_ids = [];
  max_graph_nodes = 10;
  status = MissionStatus.draft;
  revision = 1;
  acceptance_receipt_id = none;
}

-- A root, and a task that depends on it; both of a family that needs no profile.
abbrev task : ℕ → List ℕ → TaskSpec
task id dependency_ids = record {
  id = id;
  parent_task_id = none;
  objective = id;
  task_family = 1;
  dependency_ids = dependency_ids;
  scopes = [];
  priority = 100;
  created_at = id;
  status = TaskStatus.proposed;
}

abbrev proposal : ℕ → GraphProposal
proposal id = record {
  proposal_id = id;
  mission_id = 6;
  based_on_revision = 1;
  operation = GraphOperation.spawn;
  task_specs = task 1 [] ∷ task 2 (1 ∷ []) ∷ [];
}

abbrev submitted : Controller
submitted = (submit_mission mission idle).1

abbrev proposed_once : Controller
proposed_once = (propose_graph_change (proposal 31) submitted).1

abbrev proposed_twice : Controller
proposed_twice = (propose_graph_change (proposal 32) proposed_once).1

abbrev committed : Controller
committed = (commit_validated_revision 31 proposed_twice).1

idle-AllSound : AllSound idle.tasks
unfolding tasks_of lookup swarmai.Graph.Walks.deps swarmai.Graph.Proposals.graph_of
idle-AllSound m = record { keyed = λ k t e. cc; acyclic = λ c p. nowhere p }
  where
    nowhere : {u v : ℕ} → Walk [] u v → ⊥
    nowhere (edge e) = cc
    nowhere (then_on w e p) = cc

to_committed : Reach idle committed
to_committed =
    Reach.next
      (Reach.next
        (Reach.next (Reach.next Reach.here (Step.submits mission refl))
          (Step.proposes (proposal 31) refl))
        (Step.proposes (proposal 32) refl))
      (Step.commits 31 refl)

Reach-AllSound_example : AllSound committed.tasks
Reach-AllSound_example = Reach-AllSound to_committed idle-AllSound

committed-Sound : Sound (tasks_of 6 committed.tasks)
committed-Sound = Reach-AllSound to_committed idle-AllSound 6

abbrev root : TaskSpec
root = record (task 1 []) { status = TaskStatus.ready }

abbrev handed_out : Controller
handed_out = (choose_ready_work 6 50 committed).1

-- Only the root may run.
choose_ready_work-test : choose_ready_work 6 50 committed ≡ (ok (root ∷ []), handed_out)
unfolding choose_ready_work lookup commit_validated_revision propose_graph_change
    swarmai.Prelude.put submit_mission swarmai.Graph.Proposals.validate_proposal tasks_of
    swarmai.Graph.Search.search_graph swarmai.Graph.Proposals.with_specs
    swarmai.Graph.Proposals.graph_of swarmai.Graph.Walks.deps swarmai.Scheduler.Choose.choose_ready
choose_ready_work-test = refl

work-HandedOut_example : OnlyHandedOut committed 6 (choose_ready_work 6 50 committed)
work-HandedOut_example = work-HandedOut 6 50 committed committed-Sound

abbrev planned : Mission
planned = record mission { status = MissionStatus.planning }

commit-test : commit_validated_revision 31 proposed_twice ≡ (ok 2, committed)
unfolding commit_validated_revision lookup propose_graph_change swarmai.Prelude.put submit_mission
    swarmai.Graph.Proposals.validate_proposal tasks_of rows swarmai.Graph.Search.search_graph
    swarmai.Graph.Proposals.with_specs swarmai.Graph.Proposals.graph_of swarmai.Graph.Walks.deps
commit-test = refl

found_first : lookup 31 proposed_twice.proposals ≡ some (proposal 31)
unfolding propose_graph_change lookup swarmai.Prelude.put submit_mission
found_first = refl

found_mission : lookup 6 proposed_twice.missions ≡ some planned
unfolding propose_graph_change lookup submit_mission swarmai.Prelude.put
found_mission = refl

proposed_twice-AllKeyed : AllKeyed proposed_twice.missions
unfolding lookup propose_graph_change submit_mission swarmai.Prelude.put
proposed_twice-AllKeyed = record { keyed = λ k m e. ground arith }

-- Work is handed out between the two commits.
found_later : lookup 32 handed_out.proposals ≡ some (proposal 32)
unfolding propose_graph_change lookup swarmai.Prelude.put submit_mission choose_ready_work
    commit_validated_revision swarmai.Graph.Proposals.validate_proposal tasks_of
    swarmai.Graph.Search.search_graph swarmai.Graph.Proposals.with_specs
    swarmai.Graph.Proposals.graph_of swarmai.Graph.Walks.deps swarmai.Scheduler.Choose.choose_ready
found_later = refl

commit_once_example :
    ((commit_validated_revision 32 handed_out).0
      ≡ err (MissionError.value_error Reason.stale_revision))
    × ((commit_validated_revision 32 handed_out).1.missions ≡ handed_out.missions)
commit_once_example =
    commit_once 31 32 (proposal 31) (proposal 32) planned proposed_twice committed handed_out 2
      proposed_twice-AllKeyed found_first found_mission commit-test (λ e. absurd (omega (arith, e)))
      (Later.next Later.here (Step.chooses 6 50 refl) refl) found_later refl refl

-- A mission with one accepted task that has been verified.
abbrev verified_state : Controller
verified_state = record idle {
  missions = (6, planned) ∷ [];
  tasks = (6, (1, record (task 1 []) { status = TaskStatus.accepted }) ∷ []) ∷ [];
  attempts = (70, record { attempt_id = 70; task_id = 1; verification_receipt_id = some 71 }) ∷ [];
}

try_complete-test : (try_complete 6 90 verified_state).0 ≡ ok (complete_mission 90 planned)
unfolding try_complete lookup swarmai.Mission.Complete.verified
try_complete-test = refl

try_complete_lem_example :
    lookup 6 (try_complete 6 90 verified_state).1.missions
    ≡ some (
        if has_tasks (rows (tasks_of 6 verified_state.tasks))
          && all_finished verified_state.attempts (rows (tasks_of 6 verified_state.tasks))
        then complete_mission 90 planned
        else planned)
try_complete_lem_example = try_complete_lem 6 90 planned verified_state (unfold lookup in refl)
