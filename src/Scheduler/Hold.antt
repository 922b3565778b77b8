-- ===== src/Scheduler/Hold.antt =====
-- About the hold that an overload puts on the scheduler.
use swarmai.Prelude.{
  ℕ, suc, ◌-◌, ◌≡◌, refl, ◌∙◌, ap, inl, inr, Bool, Option, none, some, List, ltb, arith, Bool-cases,
  Result, ok, err,
}
use swarmai.Graph.Specs.{TaskSpec}
use swarmai.Prelude.Act.{continue}
use swarmai.Scheduler.Authority.{SiteAuthority, Sites, StaleEpochError, require_epoch}
use swarmai.Scheduler.Choose.{
  Scheduler, note_overload, tick, check_authority, epoch_or, fence_with, back, select_tasks,
  selection, choose_ready, holding, returned,
}

-- A number of selections, one after the other, that return or raise.
pub data Rounds (s : Scheduler) : ℕ → Scheduler → Type 0 where
  none_yet : Rounds s 0 s
  one_more :
      {n : ℕ} {t : Scheduler} (mission : ℕ) (tasks : List TaskSpec)
      (inference_slots worker_slots : ℕ) (privacy_ok : Bool) (epoch : Option ℕ) (now : ℕ)
      → Rounds s n t
      → Rounds s
          (suc n)
          (choose_ready mission tasks inference_slots worker_slots privacy_ok epoch now t).1

-- The test of the epoch changes nothing but the authority's rows.
pub record SameWork (s t : Scheduler) : Type 0 where
  pub profiles : t.profiles ≡ s.profiles
  pub config : t.config ≡ s.config
  pub work : t.state ≡ s.state

back-SameWork :
    (s : Scheduler) (r : Result StaleEpochError SiteAuthority × Sites) → SameWork s (back s r).1
back-SameWork s (ok _, sites) = record { profiles = refl; config = refl; work = refl }
back-SameWork s (err _, sites) = record { profiles = refl; config = refl; work = refl }

fence_with-SameWork :
    (sites : Option Sites) (site epoch : Option ℕ) (now : ℕ) (s : Scheduler)
    → SameWork s (fence_with sites site epoch now s).1
fence_with-SameWork (some sites) (some site) (some epoch) now s =
    back-SameWork s (require_epoch site epoch now sites)
fence_with-SameWork (some sites) (some site) none now s = record {
  profiles = refl;
  config = refl;
  work = refl;
}
fence_with-SameWork (some sites) none epoch now s = record {
  profiles = refl;
  config = refl;
  work = refl;
}
fence_with-SameWork none site epoch now s = record { profiles = refl; config = refl; work = refl }

pub check_authority-SameWork :
    (epoch : Option ℕ) (now : ℕ) (s : Scheduler) → SameWork s (check_authority epoch now s).1
unfolding check_authority
check_authority-SameWork epoch now s =
    fence_with-SameWork s.site_authority s.site_id (epoch_or epoch s.site_epoch) now s

-- A call does nothing else to the hold than the clock does.
record SameHold (s t : Scheduler) : Type 0 where
  config : t.config ≡ s.config
  cooldown : t.state.cooldown_remaining ≡ s.state.cooldown_remaining

selection-SameHold :
    (mission : ℕ) (tasks : List TaskSpec) (inference_slots worker_slots : ℕ) (privacy_ok : Bool)
    (s : Scheduler)
    → SameHold s (selection privacy_ok mission tasks inference_slots worker_slots s).1
unfolding select_tasks
selection-SameHold mission tasks inference_slots worker_slots privacy_ok s =
    elim (Bool-cases s.state.draining) [
      | inl e ↦ rw e (record { config = refl; cooldown = refl })
      | inr e ↦ rw e (elim (Bool-cases privacy_ok) [
        | inl f ↦ rw f (record { config = refl; cooldown = refl })
        | inr f ↦ rw f (record { config = refl; cooldown = refl })
      ])
    ]

choose_ready-SameHold :
    (mission : ℕ) (tasks : List TaskSpec) (inference_slots worker_slots : ℕ) (privacy_ok : Bool)
    (epoch : Option ℕ) (now : ℕ) (s : Scheduler)
    → SameHold
        (tick s)
        (choose_ready mission tasks inference_slots worker_slots privacy_ok epoch now s).1
unfolding choose_ready
choose_ready-SameHold mission tasks inference_slots worker_slots privacy_ok epoch now s =
    after (check_authority epoch now (tick s)) (check_authority-SameWork epoch now (tick s))
  where
    after :
        (r : Result StaleEpochError (Unit {0}) × Scheduler)
        → SameWork (tick s) r.1
        → SameHold
            (tick s)
            (continue r.0
              (λ _ t. returned (selection privacy_ok mission tasks inference_slots worker_slots t))
              r.1).1
    after (err e, t) w = record {
      config = w.config;
      cooldown = ap (λ st. st.cooldown_remaining) w.work;
    }
    after (ok _, t) w =
        let h = selection-SameHold mission tasks inference_slots worker_slots privacy_ok t in
        record {
          config = h.config ∙ w.config;
          cooldown = h.cooldown ∙ ap (λ st. st.cooldown_remaining) w.work;
        }

cooldown-tick : (s : Scheduler) → (tick s).state.cooldown_remaining ≡ s.state.cooldown_remaining - 1
unfolding tick
cooldown-tick s = ground arith

Rounds-SameHold :
    {s : Scheduler} {n : ℕ} {t : Scheduler}
    → Rounds s n t
    → (t.config ≡ s.config) × (t.state.cooldown_remaining ≡ s.state.cooldown_remaining - n)
Rounds-SameHold none_yet = (refl, omega arith)
Rounds-SameHold
      (one_more {t = t} mission tasks inference_slots worker_slots privacy_ok epoch now r) =
    let before = Rounds-SameHold r in
    let h =
      choose_ready-SameHold mission tasks inference_slots worker_slots privacy_ok epoch now t in
    let same_config : (tick t).config ≡ t.config = unfold tick in refl in
    (h.config ∙ same_config ∙ before.0, omega (arith, h.cooldown, cooldown-tick t, before.1))

-- After an overload the scheduler holds back for as many selections, less one, as the
-- configuration says, whatever they are asked for and whether they return or raise, and from then
-- on it holds back no longer.
pub hold_ends :
    (s : Scheduler) {n : ℕ} {t : Scheduler}
    → Rounds (note_overload s) n t
    → holding t ≡ ltb n s.config.overload_cooldown_ticks
unfolding note_overload
hold_ends s r = ground (arith, Rounds-SameHold r)
