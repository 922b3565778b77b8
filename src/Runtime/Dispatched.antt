-- ===== src/Runtime/Dispatched.antt =====
-- About the work that a dispatch takes from the queue.
use swarmai.Prelude.{
  is_some, ◌&&◌, ℕ, ◌≡◌, ◌≢◌, refl, inl, inr, Bool, true, false, none, List, [], ◌∷◌, keep,
  contains, Table, All, arith, Bool-cases, Result, ok, err,
}
use mathlib.Core.Path.{subst}
use swarmai.Graph.Specs.{TaskSpec}
use swarmai.Scheduler.Authority.{StaleEpochError}
use swarmai.Scheduler.Choose.{Scheduler, Explanation, choose_ready}
use swarmai.Scheduler.Outcome.{Chosen, choose_ready-Chosen}
use swarmai.Runtime.Backpressure.{
  ProviderQuota, QueuedWork, Queue, is_live, purge_expired, try_acquire, quota_of, ready_copies,
  quotas_after, Fate, fate, Round, place, admit, dispatch_chosen, dispatch,
}

-- A list that is dealt out to two, each of which keeps the order: every item of it goes, as it is,
-- to exactly one of them, and nothing else does.
pub data Dealt : List QueuedWork → List QueuedWork → List QueuedWork → Type 0 where
  nothing : Dealt [] [] []
  to_first :
      (w : QueuedWork) {first second all : List QueuedWork}
      → Dealt first second all
      → Dealt (w ∷ first) second (w ∷ all)
  to_second :
      (w : QueuedWork) {first second all : List QueuedWork}
      → Dealt first second all
      → Dealt first (w ∷ second) (w ∷ all)

-- Every item that is not cancelled is dispatched or stays.
place-Dealt :
    (f : Fate) (w : QueuedWork) (ws : List QueuedWork) (r : Round)
    → f ≢ Fate.dropped
    → Dealt r.dispatched r.remaining ws
    → Dealt (place f w r).dispatched (place f w r).remaining (w ∷ ws)
place-Dealt Fate.dropped w ws r d h = absurd (d refl)
place-Dealt Fate.waits w ws r d h = to_second w h
place-Dealt Fate.refused w ws r d h = to_second w h
place-Dealt Fate.goes w ws r d h = to_first w h

fate-kept :
    (now : ℕ) (selected : List ℕ) (w : QueuedWork) (quotas : Table ProviderQuota)
    → w.is_cancelled ≡ false
    → fate now selected w quotas ≢ Fate.dropped
unfolding fate
fate-kept now selected w quotas e d = elim (Bool-cases (contains w.task.id selected)) [
  | inr waiting ↦ let d' = rw (e, waiting) at d in cc
  | inl picked ↦ elim (Bool-cases ((try_acquire now (quota_of now w quotas)).0)) [
    | inl granted ↦ let d' = rw (e, picked, granted) at d in cc
    | inr denied ↦ let d' = rw (e, picked, denied) at d in cc
  ]
]

admit-Dealt :
    (now : ℕ) (selected : List ℕ) (ws : List QueuedWork) (quotas : Table ProviderQuota)
    → All (λ w. is_live now w ≡ true) ws
    → Dealt (admit now selected ws quotas).dispatched (admit now selected ws quotas).remaining ws
unfolding admit
admit-Dealt now selected [] quotas a = nothing
admit-Dealt now selected (w ∷ ws) quotas a =
    place-Dealt (fate now selected w quotas) w ws _
      (fate-kept now selected w quotas (ground (arith, a.0)))
      (admit-Dealt now selected ws (quotas_after now selected w quotas) a.1)

-- What a dispatch leads to, over the live items of the queue; it raises only where the scheduler has
-- an authority over its site.
abbrev pub Conserved : ℕ → Queue → Result StaleEpochError (List QueuedWork) × Queue → Type 0
Conserved now s (err e, t) =
    ((is_some s.inner.site_authority && is_some s.inner.site_id) ≡ true)
    × (t.queue ≡ keep (is_live now) s.queue)
Conserved now s (ok sent, t) = Dealt sent t.queue (keep (is_live now) s.queue)

dispatch_chosen-Conserved :
    (inference_slots worker_slots now : ℕ) (s u : Queue)
    (r : Result StaleEpochError (List TaskSpec × Explanation) × Scheduler)
    → u.queue ≡ keep (is_live now) s.queue
    → All (λ w. is_live now w ≡ true) u.queue
    → Chosen (ready_copies u.queue) inference_slots worker_slots s.inner (λ _. Unit {0}) true r
    → Conserved now s (dispatch_chosen inference_slots worker_slots now u r)
dispatch_chosen-Conserved inference_slots worker_slots now s u (err e, inner) q a h = (h, q)
dispatch_chosen-Conserved inference_slots worker_slots now s u (ok (selected, why), inner) q a h =
    let r = admit now _ u.queue u.quotas in
    subst (Dealt r.dispatched r.remaining) q (admit-Dealt now _ u.queue u.quotas a)

All-true {ℓ} : {A : Type ℓ} (p : A → Bool) (xs : List A) → All (λ x. p x ≡ true) (keep p xs)
unfolding keep
All-true p [] = tt
All-true p (x ∷ xs) = elim (Bool-cases (p x)) [
  | inl e ↦ rw e (e, All-true p xs)
  | inr e ↦ rw e (All-true p xs)
]

All-unit {ℓ} : {A : Type ℓ} (xs : List A) → All (λ _. Unit {0}) xs
All-unit [] = tt
All-unit (x ∷ xs) = (tt, All-unit xs)

-- A dispatch loses no work and repeats none: of the items of the queue that are neither cancelled
-- nor past their deadline each is sent or stays, as it is and never both, what is sent and what stays
-- come in the order of the queue, and nothing else is sent or stays. It raises only where the
-- scheduler has an authority over its site, and then all those items stay.
pub dispatch_conserves :
    (mission inference_slots worker_slots now : ℕ) (s : Queue)
    → Conserved now s (dispatch mission inference_slots worker_slots now s)
unfolding dispatch purge_expired
dispatch_conserves mission inference_slots worker_slots now s =
    dispatch_chosen-Conserved inference_slots worker_slots now s (purge_expired now s)
      (choose_ready mission (ready_copies (purge_expired now s).queue) inference_slots worker_slots
        true none now s.inner)
      refl (All-true (is_live now) s.queue)
      (choose_ready-Chosen (ready_copies (purge_expired now s).queue) inference_slots worker_slots
        s.inner (λ _. Unit {0}) true mission none now
        (All-unit (ready_copies (purge_expired now s).queue)))
