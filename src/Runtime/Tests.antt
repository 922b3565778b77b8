-- ===== src/Runtime/Tests.antt =====
-- A run of the queue, and the theorems on it.
use swarmai.Prelude.{
  ℕ, suc, ◌+◌, ◌≤◌, ◌≡◌, refl, Bool, true, false, Option, none, some, List, [], ◌∷◌, length, Table,
  lookup, put, All, arith, Result, ok,
}
use swarmai.Graph.Specs.{TaskStatus, TaskSpec}
use swarmai.Scheduler.Choose.{SchedulerConfig, SchedulerState, Scheduler}
use swarmai.Runtime.Backpressure.{ProviderQuota, QueuedWork, Queue, enqueue, dispatch}
use swarmai.Runtime.Limits.{Within, AllWithin, AllWithin-put, Step, Reach, Reach-Within}
use swarmai.Runtime.Dispatched.{Conserved, dispatch_conserves}

-- One call in flight at a time; a slot for two tasks.
abbrev idle : Queue
idle = record {
  inner = record {
    profiles = [];
    config = record {
      control_reserve_slots = 1;
      overload_cooldown_ticks = 3;
      priority_aging_per_tick = 1;
      max_concurrency = 8;
      backpressure_min_slots = 1;
    };
    state = record {
      tick = 0;
      cooldown_remaining = 0;
      last_overload = false;
      mission_fairness = [];
      draining = false;
    };
    site_authority = none;
    site_id = none;
    site_epoch = none;
  };
  queue = [];
  quotas =
      (
        5,
        record {
          max_in_flight = 1;
          max_per_minute = 9;
          in_flight = 0;
          window_started = 0;
          window_count = 0;
        },
      )
      ∷ [];
  default_timeout_s = 120;
  max_queue = 3;
  rejected_backpressure = 0;
  timed_out = 0;
  cancelled = 0;
  completed = 0;
}

abbrev task : ℕ → TaskSpec
task id = record {
  id = id;
  parent_task_id = none;
  objective = id;
  task_family = 1;
  dependency_ids = [];
  scopes = [];
  priority = 100;
  created_at = id;
  status = TaskStatus.ready;
}

abbrev one : Queue
one = (enqueue (task 1) 5 none 10 idle).1

abbrev two : Queue
two = (enqueue (task 2) 5 none 11 one).1

abbrev after : Queue
after = (dispatch 6 3 3 20 two).1

abbrev own_quota : ProviderQuota
own_quota = record {
  max_in_flight = 1;
  max_per_minute = 9;
  in_flight = 0;
  window_started = 0;
  window_count = 0;
}

none-AllWithin : AllWithin []
unfolding lookup
none-AllWithin p q e = cc

idle-AllWithin : AllWithin idle.quotas
unfolding put
idle-AllWithin =
    AllWithin-put 5 own_quota [] (record { slots = omega arith; rate = omega arith }) none-AllWithin

idle-Within : Within idle
idle-Within = record { room = omega arith; quotas = idle-AllWithin }

Reach-Within_example : Within after
Reach-Within_example =
    Reach-Within
      (Reach.next
        (Reach.next (Reach.next Reach.here (Step.enqueues (task 1) 5 none 10 refl))
          (Step.enqueues (task 2) 5 none 11 refl))
        (Step.dispatches 6 3 3 20 refl))
      idle-Within

abbrev first_work : QueuedWork
first_work = record {
  task = task 1;
  enqueued_at = 10;
  deadline_at = some 130;
  is_cancelled = false;
  provider_id = 5;
}

-- Both are selected, and the quota lets one go.
dispatch-test : dispatch 6 3 3 20 two ≡ (ok (first_work ∷ []), after)
unfolding dispatch swarmai.Scheduler.Choose.choose_ready enqueue swarmai.Scheduler.Integers.minus
    lookup swarmai.Prelude.put
dispatch-test = refl

dispatch_conserves_example : Conserved 20 two (dispatch 6 3 3 20 two)
dispatch_conserves_example = dispatch_conserves 6 3 3 20 two
