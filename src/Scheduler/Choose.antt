-- ===== src/Scheduler/Choose.antt =====
-- `AdaptiveScheduler`: which of the ready tasks of a mission are dispatched now.
use swarmai.Prelude.{
  ℕ, suc, ◌+◌, ◌-◌, ◌*◌, ◌/◌, min, max, Bool, true, false, not, ◌&&◌, ◌||◌, Option, none, some,
  List, [], ◌∷◌, ◌++◌, ◌==◌, ltb, leb, if◌then◌else◌, length, keep, Table, lookup, put, or_default,
  Result, ok, err, Exec,
}
use swarmai.Prelude.Act.{modify, ◌>>◌}
use swarmai.Prelude.Paging.{order_by}
use swarmai.Graph.Specs.{TaskStatus, TaskSpec}
use swarmai.Scheduler.Authority.{SiteAuthority, Sites, StaleEpochError, require_epoch}
use swarmai.Scheduler.Integers.{minus, below, equal}
use swarmai.Scheduler.Profiles.{RoutingState, Profiles, query}

pub record SchedulerConfig : Type 0 where
  pub control_reserve_slots : ℕ
  pub overload_cooldown_ticks : ℕ
  pub priority_aging_per_tick : ℕ
  pub max_concurrency : ℕ
  pub backpressure_min_slots : ℕ

pub record SchedulerState : Type 0 where
  pub tick : ℕ
  pub cooldown_remaining : ℕ
  pub last_overload : Bool
  pub mission_fairness : Table ℕ
  pub draining : Bool

-- The authority is the service that other parts use too.
pub record Scheduler : Type 0 where
  pub profiles : Profiles
  pub config : SchedulerConfig
  pub state : SchedulerState
  pub site_authority : Option Sites
  pub site_id : Option ℕ
  pub site_epoch : Option ℕ

pub data WaitReason : Type 0 where
  waiting_drain : WaitReason
  waiting_privacy_constraint : WaitReason

-- What explains a selection: the reason why there is none, or the numbers of the one there is.
pub data Explanation : Type 0 where
  waits : (why : WaitReason) (hysteresis_hold : Bool) → Explanation
  chosen :
      (tick ready selected usable_slots : ℕ) (hysteresis_hold : Bool) (fairness_debt : ℕ)
      → Explanation

unfoldable pub note_overload : Scheduler → Scheduler
note_overload s = record s {
  state = record s.state {
    last_overload = true;
    cooldown_remaining = s.config.overload_cooldown_ticks;
  };
}

unfoldable pub begin_drain : Scheduler → Scheduler
begin_drain s = record s { state = record s.state { draining = true } }

unfoldable pub end_drain : Scheduler → Scheduler
end_drain s = record s { state = record s.state { draining = false } }

-- The clock, and the hold after an overload that runs out with it.
abbrev pub cooled : SchedulerState → SchedulerState
cooled st =
    if ltb 0 st.cooldown_remaining
    then record st {
      cooldown_remaining = st.cooldown_remaining - 1;
      last_overload = if (st.cooldown_remaining - 1) == 0 then false else st.last_overload;
    }
    else st

unfoldable pub tick : Scheduler → Scheduler
tick s = record s { state = cooled (record s.state { tick = suc s.state.tick }) }

abbrev pub epoch_or : Option ℕ → Option ℕ → Option ℕ
epoch_or none own = own
epoch_or (some e) own = some e

abbrev pub back :
    Scheduler
    → Result StaleEpochError SiteAuthority × Sites
    → Result StaleEpochError (Unit {0}) × Scheduler
back s (ok _, sites) = (ok tt, record s { site_authority = some sites })
back s (err e, sites) = (err e, record s { site_authority = some sites })

abbrev pub fence_with :
    Option Sites → Option ℕ → Option ℕ → ℕ → Exec Scheduler StaleEpochError (Unit {0})
fence_with (some sites) (some site) (some epoch) now s = back s (require_epoch site epoch now sites)
fence_with (some sites) (some site) none now s = (err StaleEpochError.site_epoch_required, s)
fence_with _ _ _ now s = (ok tt, s)

-- No dispatch in the name of a stale epoch.
unfoldable pub check_authority : Option ℕ → ℕ → Exec Scheduler StaleEpochError (Unit {0})
check_authority epoch now s =
    fence_with s.site_authority s.site_id (epoch_or epoch s.site_epoch) now s

abbrev pub is_ready : TaskStatus → Bool
is_ready TaskStatus.ready = true
is_ready _ = false

-- The key of the sort: the priority less the age, then the time of creation.
abbrev pub aged_before : ℕ → TaskSpec → TaskSpec → Bool
aged_before age t u =
    below (minus t.priority age) (minus u.priority age)
    || (equal (minus t.priority age) (minus u.priority age) && ltb t.created_at u.created_at)

unfoldable pub by_age : ℕ → List TaskSpec → List TaskSpec
unfolding order_by
by_age age tasks = order_by (aged_before age) tasks

-- After an overload half of the slots, but no fewer than the minimum.
abbrev held_slots : SchedulerConfig → Bool → ℕ → ℕ
held_slots c hold slots = if hold then max c.backpressure_min_slots (slots / 2) else slots

abbrev scarce_slots : SchedulerConfig → ℕ → ℕ → ℕ
scarce_slots c inference_slots slots =
    if leb inference_slots c.backpressure_min_slots
    then min slots c.backpressure_min_slots
    else slots

unfoldable pub usable_slots : SchedulerConfig → Bool → ℕ → ℕ → ℕ
usable_slots c hold inference_slots worker_slots =
    scarce_slots c inference_slots
      (held_slots c hold (min (min inference_slots worker_slots) c.max_concurrency))
    - c.control_reserve_slots

abbrev is_nil {ℓ} : {A : Type ℓ} → List A → Bool
is_nil [] = true
is_nil (_ ∷ _) = false

-- The families that need no profile, `extraction` and `classification`.
abbrev pub extraction : ℕ
extraction = 1

abbrev pub classification : ℕ
classification = 2

unfoldable pub routable : Profiles → ℕ → Bool
unfolding query
routable profiles family =
    not (is_nil (query (some family) (some RoutingState.provisional) profiles))
    || family == extraction
    || family == classification

-- The loop over the tasks in order.
unfoldable pub take_routable : ℕ → Profiles → List TaskSpec → List TaskSpec → List TaskSpec
unfolding routable
take_routable usable profiles selected [] = selected
take_routable usable profiles selected (t ∷ ts) =
    let rest =
      take_routable usable profiles
        (if routable profiles t.task_family then selected ++ t ∷ [] else selected) ts in
    if leb usable (length selected) then selected else rest

abbrev pub holding : Scheduler → Bool
holding s = ltb 0 s.state.cooldown_remaining

abbrev pub add_debt : ℕ → ℕ → Scheduler → Scheduler
add_debt mission n s = record s {
  state = record s.state {
    mission_fairness =
        put mission (or_default (lookup mission s.state.mission_fairness) 0 + n)
          s.state.mission_fairness;
  };
}

-- The selection itself, once nothing stands against a dispatch.
unfoldable pub select_tasks :
    ℕ → List TaskSpec → ℕ → ℕ → Scheduler → (List TaskSpec × Explanation) × Scheduler
unfolding keep by_age usable_slots take_routable
select_tasks mission tasks inference_slots worker_slots s =
    let ready = keep (λ t. is_ready t.status) tasks in
    let usable = usable_slots s.config (holding s) inference_slots worker_slots in
    let selected =
      take_routable usable s.profiles []
        (by_age (s.state.tick * s.config.priority_aging_per_tick) ready) in
    let debt = or_default (lookup mission s.state.mission_fairness) 0 + length selected in
    (
      (
        selected,
        Explanation.chosen s.state.tick (length ready) (length selected) usable (holding s) debt,
      ),
      add_debt mission (length selected) s,
    )

abbrev pub selection :
    Bool → ℕ → List TaskSpec → ℕ → ℕ → Scheduler → (List TaskSpec × Explanation) × Scheduler
selection privacy_ok mission tasks inference_slots worker_slots s =
    let chosen = select_tasks mission tasks inference_slots worker_slots s in
    if s.state.draining
    then (([], Explanation.waits WaitReason.waiting_drain true), s)
    else if not privacy_ok
    then (([], Explanation.waits WaitReason.waiting_privacy_constraint (holding s)), s)
    else chosen

abbrev pub returned {ℓ} : {A B : Type ℓ} → A × B → Result StaleEpochError A × B
returned (a, s) = (ok a, s)

unfoldable pub choose_ready :
    ℕ
    → List TaskSpec
    → ℕ
    → ℕ
    → Bool
    → Option ℕ
    → ℕ
    → Exec Scheduler StaleEpochError (List TaskSpec × Explanation)
unfolding tick check_authority select_tasks
choose_ready mission tasks inference_slots worker_slots privacy_ok epoch now = do
  modify tick
  check_authority epoch now
  λ s. returned (selection privacy_ok mission tasks inference_slots worker_slots s)
