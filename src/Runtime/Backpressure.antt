-- ===== src/Runtime/Backpressure.antt =====
-- `ProviderQuota` and `BackpressureScheduler`. A call reads the clock once.
use swarmai.Prelude.{
  ℕ, suc, ◌+◌, ◌-◌, ◌/◌, min, max, Bool, true, false, not, ◌&&◌, Option, none, some, List, [], ◌∷◌,
  ◌++◌, map, ◌==◌, ltb, leb, if◌then◌else◌, length, take, keep, contains, Table, lookup, put,
  Result, ok, err, Exec,
}
use swarmai.Graph.Specs.{TaskStatus, TaskSpec}
use swarmai.Scheduler.Authority.{StaleEpochError}
use swarmai.Scheduler.Choose.{Scheduler, Explanation, choose_ready}

pub record ProviderQuota : Type 0 where
  pub max_in_flight : ℕ
  pub max_per_minute : ℕ
  pub in_flight : ℕ
  pub window_started : ℕ
  pub window_count : ℕ

abbrev pub roll_window : ℕ → ProviderQuota → ProviderQuota
roll_window now q =
    if leb (q.window_started + 60) now
    then record q { window_started = now; window_count = 0 }
    else q

abbrev pub take_slot : ProviderQuota → Bool × ProviderQuota
take_slot q =
    if leb q.max_in_flight q.in_flight
    then (false, q)
    else if leb q.max_per_minute q.window_count
    then (false, q)
    else (true, record q { in_flight = suc q.in_flight; window_count = suc q.window_count })

unfoldable pub try_acquire : ℕ → ProviderQuota → Bool × ProviderQuota
try_acquire now q = take_slot (roll_window now q)

unfoldable pub release : ProviderQuota → ProviderQuota
release q = record q { in_flight = q.in_flight - 1 }

pub record QueuedWork : Type 0 where
  pub task : TaskSpec
  pub enqueued_at : ℕ
  pub deadline_at : Option ℕ
  pub is_cancelled : Bool
  pub provider_id : ℕ

pub record Queue : Type 0 where
  pub inner : Scheduler
  pub queue : List QueuedWork
  pub quotas : Table ProviderQuota
  pub default_timeout_s : ℕ
  pub max_queue : ℕ
  pub rejected_backpressure : ℕ
  pub timed_out : ℕ
  pub cancelled : ℕ
  pub completed : ℕ

abbrev timeout_or : Option ℕ → ℕ → ℕ
timeout_or none d = d
timeout_or (some t) d = t

abbrev queued_work : TaskSpec → ℕ → ℕ → ℕ → QueuedWork
queued_work t provider_id timeout now = record {
  task = t;
  enqueued_at = now;
  deadline_at = if ltb 0 timeout then some (now + timeout) else none;
  is_cancelled = false;
  provider_id = provider_id;
}

unfoldable pub enqueue : TaskSpec → ℕ → Option ℕ → ℕ → Queue → Bool × Queue
enqueue t provider_id timeout_s now s =
    if leb s.max_queue (length s.queue)
    then (false, record s { rejected_backpressure = suc s.rejected_backpressure })
    else (
      true,
      record s {
        queue =
            s.queue
            ++ queued_work t provider_id (timeout_or timeout_s s.default_timeout_s) now ∷ [];
      },
    )

abbrev is_hit : ℕ → QueuedWork → Bool
is_hit task_id w = w.task.id == task_id && not w.is_cancelled

abbrev pub cancel_work : ℕ → QueuedWork → QueuedWork
cancel_work task_id w = if is_hit task_id w then record w { is_cancelled = true } else w

-- Every item of the task that is not cancelled yet.
unfoldable pub cancel : ℕ → Queue → Bool × Queue
unfolding keep
cancel task_id s =
    let hits = length (keep (is_hit task_id) s.queue) in
    (
      ltb 0 hits,
      record s { queue = map (cancel_work task_id) s.queue; cancelled = s.cancelled + hits },
    )

abbrev past : Option ℕ → ℕ → Bool
past none now = false
past (some deadline) now = ltb deadline now

-- Neither cancelled nor past its deadline.
abbrev pub is_live : ℕ → QueuedWork → Bool
is_live now w = not w.is_cancelled && not (past w.deadline_at now)

abbrev is_late : ℕ → QueuedWork → Bool
is_late now w = not w.is_cancelled && past w.deadline_at now

unfoldable pub purge_expired : ℕ → Queue → Queue
unfolding keep
purge_expired now s = record s {
  queue = keep (is_live now) s.queue;
  timed_out = s.timed_out + length (keep (is_late now) s.queue);
}

abbrev ready_copy : QueuedWork → TaskSpec
ready_copy w = record w.task { status = TaskStatus.ready }

abbrev pub ready_copies : List QueuedWork → List TaskSpec
ready_copies ws = map ready_copy (keep (λ w. not w.is_cancelled) ws)

abbrev fallback_slots : Scheduler → ℕ → ℕ → ℕ
fallback_slots s inference_slots worker_slots =
    let usable =
      min (min inference_slots worker_slots) s.config.max_concurrency
      - s.config.control_reserve_slots in
    if ltb 0 s.state.cooldown_remaining
    then if ltb 0 usable then max 1 (usable / 2) else 0
    else usable

abbrev pub or_first : List TaskSpec → List TaskSpec → ℕ → List TaskSpec
or_first [] ready n = take n ready
or_first (t ∷ ts) ready n = t ∷ ts

abbrev pub ids : List TaskSpec → List ℕ
ids ts = map (λ t. t.id) ts

abbrev new_quota : ℕ → ProviderQuota
new_quota now = record {
  max_in_flight = 4;
  max_per_minute = 60;
  in_flight = 0;
  window_started = now;
  window_count = 0;
}

abbrev pub quota_or_new : ℕ → Option ProviderQuota → ProviderQuota
quota_or_new now none = new_quota now
quota_or_new now (some q) = q

-- What becomes of an item of the queue.
pub data Fate : Type 0 where
  dropped : Fate
  waits : Fate
  refused : Fate
  goes : Fate

abbrev pub quota_of : ℕ → QueuedWork → Table ProviderQuota → ProviderQuota
quota_of now w quotas = quota_or_new now (lookup w.provider_id quotas)

unfoldable pub fate : ℕ → List ℕ → QueuedWork → Table ProviderQuota → Fate
unfolding try_acquire
fate now selected w quotas =
    if w.is_cancelled
    then Fate.dropped
    else if not (contains w.task.id selected)
    then Fate.waits
    else if (try_acquire now (quota_of now w quotas)).0
    then Fate.goes
    else Fate.refused

-- The quotas once the item has been looked at: its provider's has been asked, if it was selected.
abbrev pub quotas_after : ℕ → List ℕ → QueuedWork → Table ProviderQuota → Table ProviderQuota
quotas_after now selected w quotas =
    if not w.is_cancelled && contains w.task.id selected
    then put w.provider_id (try_acquire now (quota_of now w quotas)).1 quotas
    else quotas

pub record Round : Type 0 where
  pub dispatched : List QueuedWork
  pub remaining : List QueuedWork
  pub quotas : Table ProviderQuota
  pub rejected : ℕ

abbrev pub place : Fate → QueuedWork → Round → Round
place Fate.dropped w r = r
place Fate.waits w r = record r { remaining = w ∷ r.remaining }
place Fate.refused w r = record r { remaining = w ∷ r.remaining; rejected = suc r.rejected }
place Fate.goes w r = record r { dispatched = w ∷ r.dispatched }

-- The loop over the queue.
unfoldable pub admit : ℕ → List ℕ → List QueuedWork → Table ProviderQuota → Round
unfolding fate
admit now selected [] quotas = record {
  dispatched = [];
  remaining = [];
  quotas = quotas;
  rejected = 0;
}
admit now selected (w ∷ ws) quotas =
    place (fate now selected w quotas) w
      (admit now selected ws (quotas_after now selected w quotas))

abbrev pub write_round : Round → Queue → Queue
write_round r s = record s {
  queue = r.remaining;
  quotas = r.quotas;
  rejected_backpressure = s.rejected_backpressure + r.rejected;
}

-- What follows the choice of the scheduler; where it chooses nothing, the first items go.
abbrev pub dispatch_chosen :
    ℕ
    → ℕ
    → ℕ
    → Queue
    → Result StaleEpochError (List TaskSpec × Explanation) × Scheduler
    → Result StaleEpochError (List QueuedWork) × Queue
dispatch_chosen inference_slots worker_slots now s (err e, inner) =
    (err e, record s { inner = inner })
dispatch_chosen inference_slots worker_slots now s (ok (selected, why), inner) =
    let chosen =
      or_first selected (ready_copies s.queue)
        (fallback_slots inner inference_slots worker_slots) in
    let r = admit now (ids chosen) s.queue s.quotas in
    (ok r.dispatched, write_round r (record s { inner = inner }))

unfoldable pub dispatch : ℕ → ℕ → ℕ → ℕ → Exec Queue StaleEpochError (List QueuedWork)
unfolding purge_expired admit keep
dispatch mission inference_slots worker_slots now s =
    let purged = purge_expired now s in
    dispatch_chosen inference_slots worker_slots now purged (
      choose_ready mission (ready_copies purged.queue) inference_slots worker_slots true none now
        purged.inner)

abbrev pub release_row : ℕ → Option ProviderQuota → Table ProviderQuota → Table ProviderQuota
release_row provider_id none quotas = quotas
release_row provider_id (some q) quotas = put provider_id (release q) quotas

unfoldable pub complete : ℕ → Queue → Queue
unfolding release
complete provider_id s = record s {
  quotas = release_row provider_id (lookup provider_id s.quotas) s.quotas;
  completed = suc s.completed;
}
