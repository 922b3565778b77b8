-- ===== src/Scheduler/Outcome.antt =====
-- About the outcome of `choose_ready`.
use swarmai.Prelude.{
  ℕ, ◌≡◌, is_some, refl, Bool, true, false, not, ◌&&◌, ◌||◌, Option, none, some, List, [],
  if◌then◌else◌, All, Result, ok, err, arith,
}
use mathlib.Core.Path.{subst}
use swarmai.Prelude.Act.{continue}
use swarmai.Scheduler.Hold.{SameWork, check_authority-SameWork}
use swarmai.Graph.Specs.{TaskSpec}
use swarmai.Scheduler.Authority.{SiteAuthority, Sites, StaleEpochError, require_epoch}
use swarmai.Scheduler.Choose.{
  Scheduler, Explanation, tick, epoch_or, fence_with, back, check_authority, choose_ready,
  selection, returned, usable_slots, holding, select_tasks,
}
use swarmai.Scheduler.Selected.{Takes, eligible, EligibleAnd, select_tasks-Takes}

-- Nothing is taken while the scheduler drains, or where privacy forbids it.
abbrev pub blocked : Bool → Scheduler → Bool
blocked privacy_ok t = t.state.draining || not privacy_ok

-- A test of the epoch raises only where there is an authority over the site.
abbrev RaisesOnly : Scheduler → Result StaleEpochError (Unit {0}) × Scheduler → Type 0
RaisesOnly s (ok _, t) = Unit
RaisesOnly s (err _, t) = (is_some s.site_authority && is_some s.site_id) ≡ true

fence_with-RaisesOnly :
    (sites : Option Sites) (site epoch : Option ℕ) (now : ℕ) (s : Scheduler)
    → s.site_authority ≡ sites
    → s.site_id ≡ site
    → RaisesOnly s (fence_with sites site epoch now s)
fence_with-RaisesOnly (some sites) (some site) (some epoch) now s a b =
    returns (require_epoch site epoch now sites)
  where
    returns : (r : Result StaleEpochError SiteAuthority × Sites) → RaisesOnly s (back s r)
    returns (ok _, _) = tt
    returns (err _, _) = rw (a, b) refl
fence_with-RaisesOnly (some sites) (some site) none now s a b = rw (a, b) refl
fence_with-RaisesOnly (some sites) none epoch now s a b = tt
fence_with-RaisesOnly none site epoch now s a b = tt

check_authority-RaisesOnly :
    (epoch : Option ℕ) (now : ℕ) (s : Scheduler) → RaisesOnly s (check_authority epoch now s)
unfolding check_authority
check_authority-RaisesOnly epoch now s =
    fence_with-RaisesOnly s.site_authority s.site_id (epoch_or epoch s.site_epoch) now s refl refl

module _ (tasks : List TaskSpec) (inference_slots worker_slots : ℕ) (s : Scheduler)
    (P : TaskSpec → Type 0) where
  abbrev TakesNow : Scheduler → List TaskSpec → Type 0
  TakesNow t selected =
      Takes (eligible s.profiles) (usable_slots s.config (holding t) inference_slots worker_slots)
        (EligibleAnd s.profiles P) tasks selected

  -- The outcome of a call: an error, or a selection.
  abbrev pub Chosen :
      Bool → Result StaleEpochError (List TaskSpec × Explanation) × Scheduler → Type 0
  Chosen privacy_ok (err _, t) = (is_some s.site_authority && is_some s.site_id) ≡ true
  Chosen privacy_ok (ok (selected, _), t) =
      (blocked privacy_ok t ≡ true → selected ≡ [])
      × (blocked privacy_ok t ≡ false → TakesNow t selected)

  unless_blocked-Chosen :
      (drain privacy_ok : Bool) (c : (List TaskSpec × Explanation) × Scheduler) (t : Scheduler)
      (a b : Explanation)
      → t.state.draining ≡ drain
      → c.1.state.draining ≡ drain
      → TakesNow c.1 c.0.0
      → Chosen privacy_ok
          (returned (if drain then (([], a), t) else if not privacy_ok then (([], b), t) else c))
  unless_blocked-Chosen true privacy_ok c t a b d e h = ((λ _. refl), (λ f. ground (arith, d, f)))
  unless_blocked-Chosen false false c t a b d e h = ((λ _. refl), (λ f. ground (arith, d, f)))
  unless_blocked-Chosen false true ((selected, why), u) t a b d e h =
      ((λ f. absurd (open_now u e f)), (λ _. h))
    where
      open_now : (u : Scheduler) → u.state.draining ≡ false → blocked true u ≡ true → ⊥
      open_now u e f = ground (arith, e, f)

  selection-Chosen :
      (privacy_ok : Bool) (mission : ℕ) (t : Scheduler)
      → t.profiles ≡ s.profiles
      → t.config ≡ s.config
      → All P tasks
      → Chosen privacy_ok
          (returned (selection privacy_ok mission tasks inference_slots worker_slots t))
  unfolding select_tasks
  selection-Chosen privacy_ok mission t same_profiles same_config a =
      let c = select_tasks mission tasks inference_slots worker_slots t in
      unless_blocked-Chosen t.state.draining privacy_ok c t _ _ refl refl (
        subst
          (λ q.
            Takes (eligible q) (usable_slots s.config (holding t) inference_slots worker_slots)
              (EligibleAnd q P) tasks c.0.0)
          same_profiles
          (subst
            (λ g.
              Takes (eligible t.profiles) (usable_slots g (holding t) inference_slots worker_slots)
                (EligibleAnd t.profiles P) tasks c.0.0)
            same_config (select_tasks-Takes mission tasks inference_slots worker_slots t P a)))

  -- A selection that returns takes only tasks that it was given, that are ready and whose family may
  -- be routed, and as many of them as there are, up to the usable slots; while the scheduler drains,
  -- or where privacy forbids it, it takes none. It raises only where an authority over its site is set.
  pub choose_ready-Chosen :
      (privacy_ok : Bool) (mission : ℕ) (epoch : Option ℕ) (now : ℕ)
      → All P tasks
      → Chosen privacy_ok
          (choose_ready mission tasks inference_slots worker_slots privacy_ok epoch now s)
  unfolding choose_ready tick
  choose_ready-Chosen privacy_ok mission epoch now a =
      after (check_authority epoch now (tick s)) (check_authority-SameWork epoch now (tick s))
        (check_authority-RaisesOnly epoch now (tick s))
    where
      after :
          (r : Result StaleEpochError (Unit {0}) × Scheduler)
          → SameWork (tick s) r.1
          → RaisesOnly s r
          → Chosen privacy_ok (
              continue r.0
                (λ _ t.
                  returned (selection privacy_ok mission tasks inference_slots worker_slots t))
                r.1)
      after (err e, t) w h = h
      after (ok _, t) w h = selection-Chosen privacy_ok mission t w.profiles w.config a
