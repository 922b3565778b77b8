-- ===== src/Runtime/Limits.antt =====
-- About the bounds of the queue and of the quotas.
use swarmai.Prelude.{
  ℕ, suc, ◌+◌, ◌≤◌, ◌≡◌, refl, inl, inr, Bool, true, false, not, ◌&&◌, Option, none, some, List, [],
  ◌∷◌, ◌++◌, map, ◌==◌, leb, length, length-append, keep, contains, Table, lookup, put, lookup-put,
  arith, Bool-cases, Option-cases, Result, ok, err,
}
use swarmai.Graph.Specs.{TaskSpec}
use swarmai.Scheduler.Authority.{StaleEpochError}
use swarmai.Scheduler.Choose.{Scheduler, Explanation, choose_ready}
use swarmai.Runtime.Backpressure.{
  ProviderQuota, roll_window, take_slot, try_acquire, release, QueuedWork, Queue, enqueue, cancel,
  cancel_work, is_live, purge_expired, ready_copies, quota_or_new, quotas_after, Fate, fate, Round,
  place, admit, dispatch_chosen, dispatch, release_row, complete,
}

pub record QuotaWithin (q : ProviderQuota) : Type 0 where
  pub slots : q.in_flight ≤ q.max_in_flight
  pub rate : q.window_count ≤ q.max_per_minute

abbrev pub AllWithin : Table ProviderQuota → Type 0
AllWithin quotas = (p : ℕ) (q : ProviderQuota) → lookup p quotas ≡ some q → QuotaWithin q

pub record Within (s : Queue) : Type 0 where
  pub room : length s.queue ≤ s.max_queue
  pub quotas : AllWithin s.quotas

take_slot-QuotaWithin : (q : ProviderQuota) → QuotaWithin q → QuotaWithin (take_slot q).1
take_slot-QuotaWithin q h = elim (Bool-cases (leb q.max_in_flight q.in_flight)) [
  | inl e ↦ rw e h
  | inr e ↦ rw e (elim (Bool-cases (leb q.max_per_minute q.window_count)) [
    | inl f ↦ rw f h
    | inr f ↦ rw f (record { slots = ground (arith, e); rate = ground (arith, f) })
  ])
]

roll_window-QuotaWithin :
    (now : ℕ) (q : ProviderQuota) → QuotaWithin q → QuotaWithin (roll_window now q)
roll_window-QuotaWithin now q h = elim (Bool-cases (leb (q.window_started + 60) now)) [
  | inl e ↦ rw e (record { slots = h.slots; rate = omega arith })
  | inr e ↦ rw e h
]

try_acquire-QuotaWithin :
    (now : ℕ) (q : ProviderQuota) → QuotaWithin q → QuotaWithin (try_acquire now q).1
unfolding try_acquire
try_acquire-QuotaWithin now q h =
    take_slot-QuotaWithin (roll_window now q) (roll_window-QuotaWithin now q h)

pub AllWithin-put :
    (p : ℕ) (q : ProviderQuota) (quotas : Table ProviderQuota)
    → QuotaWithin q
    → AllWithin quotas
    → AllWithin (put p q quotas)
AllWithin-put p q quotas h a k r e = elim (Bool-cases (p == k)) [
  | inl same ↦ let here : q ≡ r = ground (arith, same, e, lookup-put k p q quotas) in rw (← here) h
  | inr other ↦ a k r (ground (arith, other, e, lookup-put k p q quotas))
]

quota_or_new-QuotaWithin :
    (now p : ℕ) (quotas : Table ProviderQuota)
    → AllWithin quotas
    → QuotaWithin (quota_or_new now (lookup p quotas))
quota_or_new-QuotaWithin now p quotas a = elim (Option-cases (lookup p quotas)) [
  | inl e ↦ rw e (record { slots = omega arith; rate = omega arith })
  | inr (q, e) ↦ rw e (a p q e)
]

quotas_after-AllWithin :
    (now : ℕ) (selected : List ℕ) (w : QueuedWork) (quotas : Table ProviderQuota)
    → AllWithin quotas
    → AllWithin (quotas_after now selected w quotas)
quotas_after-AllWithin now selected w quotas a =
    elim (Bool-cases (not w.is_cancelled && contains w.task.id selected)) [
      | inr e ↦ rw e a
      | inl e ↦ rw e (
          AllWithin-put w.provider_id _ quotas
            (try_acquire-QuotaWithin now _ (quota_or_new-QuotaWithin now w.provider_id quotas a)) a)
    ]

-- A round keeps the quotas within their bounds and does not make the queue longer.
record RoundWithin (n : ℕ) (r : Round) : Type 0 where
  shorter : length r.remaining ≤ n
  quotas : AllWithin r.quotas

place-RoundWithin :
    (f : Fate) (w : QueuedWork) (n : ℕ) (r : Round)
    → RoundWithin n r
    → RoundWithin (suc n) (place f w r)
place-RoundWithin Fate.dropped w n r h = record {
  shorter = omega (arith, h.shorter);
  quotas = h.quotas;
}
place-RoundWithin Fate.waits w n r h = record {
  shorter = omega (arith, h.shorter);
  quotas = h.quotas;
}
place-RoundWithin Fate.refused w n r h = record {
  shorter = omega (arith, h.shorter);
  quotas = h.quotas;
}
place-RoundWithin Fate.goes w n r h = record {
  shorter = omega (arith, h.shorter);
  quotas = h.quotas;
}

admit-RoundWithin :
    (now : ℕ) (selected : List ℕ) (ws : List QueuedWork) (quotas : Table ProviderQuota)
    → AllWithin quotas
    → RoundWithin (length ws) (admit now selected ws quotas)
unfolding admit
admit-RoundWithin now selected [] quotas a = record { shorter = omega arith; quotas = a }
admit-RoundWithin now selected (w ∷ ws) quotas a =
    place-RoundWithin (fate now selected w quotas) w (length ws) _
      (admit-RoundWithin now selected ws _ (quotas_after-AllWithin now selected w quotas a))

length-keep {ℓ} : {A : Type ℓ} (p : A → Bool) (xs : List A) → length (keep p xs) ≤ length xs
unfolding keep
length-keep p [] = omega arith
length-keep p (x ∷ xs) = ground (arith, length-keep p xs)

length-map {ℓ κ} :
    {A : Type ℓ} {B : Type κ} (f : A → B) (xs : List A) → length (map f xs) ≡ length xs
length-map f [] = refl
length-map f (x ∷ xs) = omega (arith, length-map f xs)

dispatch_chosen-Within :
    (inference_slots worker_slots now : ℕ) (s : Queue)
    (r : Result StaleEpochError (List TaskSpec × Explanation) × Scheduler)
    → Within s
    → Within (dispatch_chosen inference_slots worker_slots now s r).1
dispatch_chosen-Within inference_slots worker_slots now s (err e, inner) h = record {
  room = h.room;
  quotas = h.quotas;
}
dispatch_chosen-Within inference_slots worker_slots now s (ok (selected, why), inner) h =
    let r = admit-RoundWithin now _ s.queue s.quotas h.quotas in
    record { room = omega (arith, r.shorter, h.room); quotas = r.quotas }

pub data Step (s t : Queue) : Type 0 where
  enqueues :
      (w : TaskSpec) (provider_id : ℕ) (timeout_s : Option ℕ) (now : ℕ)
      → t ≡ (enqueue w provider_id timeout_s now s).1
      → Step s t
  cancels : (task_id : ℕ) → t ≡ (cancel task_id s).1 → Step s t
  dispatches :
      (mission inference_slots worker_slots now : ℕ)
      → t ≡ (dispatch mission inference_slots worker_slots now s).1
      → Step s t
  completes : (provider_id : ℕ) → t ≡ complete provider_id s → Step s t

pub data Reach (s : Queue) : Queue → Type 0 where
  here : Reach s s
  next : {t u : Queue} → Reach s t → Step t u → Reach s u

room_for_one {ℓ} :
    {A : Type ℓ} (xs : List A) (x : A) (most : ℕ)
    → leb most (length xs) ≡ false
    → length (xs ++ x ∷ []) ≤ most
room_for_one xs x most e = ground (arith, e, length-append xs (x ∷ []))

enqueue-Within :
    (w : TaskSpec) (provider_id : ℕ) (timeout_s : Option ℕ) (now : ℕ) (s : Queue)
    → Within s
    → Within (enqueue w provider_id timeout_s now s).1
unfolding enqueue
enqueue-Within w provider_id timeout_s now s h =
    elim (Bool-cases (leb s.max_queue (length s.queue))) [
      | inl e ↦ rw e (record { room = h.room; quotas = h.quotas })
      | inr e ↦ rw e (record { room = room_for_one s.queue _ s.max_queue e; quotas = h.quotas })
    ]

complete-Within : (provider_id : ℕ) (s : Queue) → Within s → Within (complete provider_id s)
unfolding complete
complete-Within provider_id s h = record {
  room = h.room;
  quotas = rows (lookup provider_id s.quotas) refl;
}
  where
    rows :
        (o : Option ProviderQuota)
        → lookup provider_id s.quotas ≡ o
        → AllWithin (release_row provider_id o s.quotas)
    rows none e = h.quotas
    rows (some q) e =
        let old = h.quotas provider_id q e in
        AllWithin-put provider_id (release q) s.quotas
          (unfold release in record { slots = omega (arith, old.slots); rate = old.rate }) h.quotas

purge_expired-Within : (now : ℕ) (s : Queue) → Within s → Within (purge_expired now s)
unfolding purge_expired
purge_expired-Within now s h = record {
  room = omega (arith, length-keep (is_live now) s.queue, h.room);
  quotas = h.quotas;
}

dispatch-Within :
    (mission inference_slots worker_slots now : ℕ) (s : Queue)
    → Within s
    → Within (dispatch mission inference_slots worker_slots now s).1
unfolding dispatch
dispatch-Within mission inference_slots worker_slots now s h =
    dispatch_chosen-Within inference_slots worker_slots now (purge_expired now s)
      (choose_ready mission (ready_copies (purge_expired now s).queue) inference_slots worker_slots
        true none now (purge_expired now s).inner)
      (purge_expired-Within now s h)

Step-Within : {s t : Queue} → Step s t → Within s → Within t
Step-Within {s = s} (enqueues w provider_id timeout_s now e) h =
    rw e (enqueue-Within w provider_id timeout_s now s h)
Step-Within {s = s} (cancels task_id e) h = rw e (
    unfold cancel in
    record {
      room = omega (arith, length-map (cancel_work task_id) s.queue, h.room);
      quotas = h.quotas;
    })
Step-Within {s = s} (dispatches mission inference_slots worker_slots now e) h =
    rw e (dispatch-Within mission inference_slots worker_slots now s h)
Step-Within {s = s} (completes provider_id e) h = rw e (complete-Within provider_id s h)

-- If the queue is no longer than its bound, and no provider has more calls in flight or more calls in
-- its window than it allows, then so it is after calls to enqueue, cancel, dispatch and complete in
-- any order.
pub Reach-Within : {s t : Queue} → Reach s t → Within s → Within t
Reach-Within here h = h
Reach-Within (next r st) h = Step-Within st (Reach-Within r h)
