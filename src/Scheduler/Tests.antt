-- ===== src/Scheduler/Tests.antt =====
-- Runs of the scheduler, and the theorems on them.
use swarmai.Prelude.{
  ℕ, ◌≡◌, refl, true, false, none, some, List, [], ◌∷◌, ◌==◌, ltb, lookup, arith, ok,
}
use swarmai.Graph.Specs.{TaskStatus, TaskSpec}
use swarmai.Scheduler.Authority.{
  AuthorityState, SiteAuthority, Sites, require_epoch, advance_epoch, fence, next_authority,
}
use swarmai.Scheduler.Epochs.{Step, Later, Raises, advance_epoch-retires}
use swarmai.Scheduler.Profiles.{RoutingState, CapabilityProfile, Profiles}
use swarmai.Scheduler.Choose.{
  SchedulerConfig, SchedulerState, Scheduler, note_overload, choose_ready, by_age, holding,
}
use swarmai.Scheduler.Hold.{Rounds, hold_ends}
use swarmai.Scheduler.Outcome.{choose_ready-Chosen, Chosen}

abbrev site_row : SiteAuthority
site_row = record {
  site_id = 7;
  epoch = 4;
  state = AuthorityState.active;
  source_site_id = none;
  recovery_id = none;
  activated_at = 0;
  fenced_at = none;
}

abbrev sites : Sites
sites = record { by_site = (7, site_row) ∷ []; transitions = [] }

-- The site is advanced, and later fenced.
abbrev advanced : Sites
advanced = (advance_epoch 7 1 none none 10 sites).1

abbrev fenced_later : Sites
fenced_later = (fence 7 2 20 advanced).1

advance_epoch-retires_example :
    ((require_epoch 7 5 30 advanced).0 ≡ ok (next_authority 7 site_row none none 10))
    × Raises (require_epoch 7 4 30 fenced_later).0
advance_epoch-retires_example =
    advance_epoch-retires 7 1 none none 10 30 4 sites fenced_later site_row (unfold lookup in refl)
      (Later.next Later.here (Step.fences 7 2 20 refl)) (omega arith)

abbrev profile : ℕ → RoutingState → CapabilityProfile
profile fingerprint s = record {
  route_fingerprint = fingerprint;
  task_family = 3;
  routing_state = s;
}

abbrev profiles : Profiles
profiles = (1, profile 40 RoutingState.qualified) ∷ (2, profile 41 RoutingState.provisional) ∷ []

abbrev scheduler : Scheduler
scheduler = record {
  profiles = profiles;
  config = record {
    control_reserve_slots = 1;
    overload_cooldown_ticks = 3;
    priority_aging_per_tick = 1;
    max_concurrency = 8;
    backpressure_min_slots = 1;
  };
  state = record {
    tick = 0;
    cooldown_remaining = 0;
    last_overload = false;
    mission_fairness = [];
    draining = false;
  };
  site_authority = some sites;
  site_id = some 7;
  site_epoch = some 4;
}

abbrev task : ℕ → ℕ → ℕ → TaskSpec
task id family priority = record {
  id = id;
  parent_task_id = none;
  objective = 1;
  task_family = family;
  dependency_ids = [];
  scopes = [];
  priority = priority;
  created_at = id;
  status = TaskStatus.ready;
}

abbrev tasks : List TaskSpec
tasks = task 1 3 50 ∷ task 2 9 10 ∷ task 3 1 20 ∷ []

-- The second task has no profile; the third comes before the first.
choose_ready-test :
    (choose_ready 6 tasks 4 4 true none 10 scheduler).0
    ≡ ok (
      task 3 1 20 ∷ task 1 3 50 ∷ [],
      swarmai.Scheduler.Choose.Explanation.chosen 1 3 2 3 false 2,
    )
unfolding choose_ready require_epoch lookup swarmai.Scheduler.Integers.minus
choose_ready-test = refl

choose_ready-Chosen_example :
    Chosen tasks 4 4 scheduler
      (λ t. (t.priority == 0) ≡ false)
      true
      (choose_ready 6 tasks 4 4 true none 10 scheduler)
choose_ready-Chosen_example =
    choose_ready-Chosen tasks 4 4 scheduler (λ t. (t.priority == 0) ≡ false) true 6 none 10
      (refl, (refl, (refl, tt)))

hold_ends_example :
    holding
      (choose_ready 6 tasks 4 4 true none 11
        (choose_ready 6 [] 4 4 true (some 2) 10 (note_overload scheduler)).1).1
    ≡ ltb 2 3
hold_ends_example = hold_ends scheduler (
    Rounds.one_more 6 tasks 4 4 true none 11
      (Rounds.one_more 6 [] 4 4 true (some 2) 10 Rounds.none_yet))
