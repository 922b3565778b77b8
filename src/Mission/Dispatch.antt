-- ===== src/Mission/Dispatch.antt =====
-- About the tasks that `choose_ready_work` hands out.
use mathlib.Core.Path.{subst}
use swarmai.Prelude.{
  is_some, ◌⊎◌, Bool, ◌&&◌, ℕ, ◌≡◌, refl, sym, inl, inr, true, Option, none, some, List, lookup,
  All, Bool-cases, Option-cases, Result, ok, err,
}
use swarmai.Graph.Specs.{TaskSpec}
use swarmai.Scheduler.Authority.{StaleEpochError}
use swarmai.Scheduler.Choose.{Scheduler, Explanation, choose_ready}
use swarmai.Scheduler.Selected.{eligible}
use swarmai.Scheduler.Outcome.{blocked, Chosen, choose_ready-Chosen}
use swarmai.Mission.State.{Mission, Tasks, Controller, MissionError, tasks_of}
use swarmai.Mission.Work.{scheduled, write_gathered, dispatch, choose_ready_work}
use swarmai.Mission.Sound.{Sound}
use swarmai.Mission.Gathered.{MayRun, gather-All}

-- A task that is handed out: its family may be routed, and its dependencies are met.
abbrev pub HandedOut : Controller → ℕ → TaskSpec → Type 0
HandedOut c mission_id t =
    (eligible c.scheduler.profiles t ≡ true) × MayRun (tasks_of mission_id c.tasks) t

-- Has the scheduler an authority over its site, which may refuse its epoch?
abbrev pub is_fenced : Controller → Bool
is_fenced c = is_some c.scheduler.site_authority && is_some c.scheduler.site_id

-- The outcome of a call: tasks that may be handed out, or an error for a mission that is not known or
-- from the authority.
abbrev pub OnlyHandedOut :
    Controller → ℕ → Result MissionError (List TaskSpec) × Controller → Type 0
OnlyHandedOut c mission_id (ok selected, d) = All (HandedOut c mission_id) selected
OnlyHandedOut c mission_id (err e, d) = (lookup mission_id c.missions ≡ none) ⊎ (is_fenced c ≡ true)

scheduled-OnlyHandedOut :
    (c d : Controller) (mission_id : ℕ) (tasks : List TaskSpec) (slots workers : ℕ)
    (r : Result StaleEpochError (List TaskSpec × Explanation) × Scheduler)
    → Chosen tasks slots workers c.scheduler (MayRun (tasks_of mission_id c.tasks)) true r
    → OnlyHandedOut c mission_id (scheduled r d)
scheduled-OnlyHandedOut c d mission_id tasks slots workers (err e, s) h = inr h
scheduled-OnlyHandedOut c d mission_id tasks slots workers (ok (selected, why), s) h =
    elim (Bool-cases (blocked true s)) [
      | inl e ↦ subst (All (HandedOut c mission_id)) (sym (h.0 e)) tt
      | inr e ↦ let taken = h.1 e in taken.each
    ]

dispatch-OnlyHandedOut :
    (c d : Controller) (mission_id : ℕ) (m : Mission) (tasks : List TaskSpec) (now : ℕ)
    → d.scheduler ≡ c.scheduler
    → All (MayRun (tasks_of mission_id c.tasks)) tasks
    → OnlyHandedOut c mission_id (dispatch mission_id m tasks now d)
dispatch-OnlyHandedOut c d mission_id m tasks now same a =
    scheduled-OnlyHandedOut c d mission_id tasks d.inference_slots d.worker_slots _ (
      subst
        (λ s.
          Chosen tasks d.inference_slots d.worker_slots c.scheduler
            (MayRun (tasks_of mission_id c.tasks)) true
            (choose_ready m.id tasks d.inference_slots d.worker_slots true none now s))
        (sym same)
        (choose_ready-Chosen tasks d.inference_slots d.worker_slots c.scheduler
          (MayRun (tasks_of mission_id c.tasks)) true m.id none now a))

scheduler-write_gathered :
    (mission_id : ℕ) (ts : Tasks) (o : Option Tasks) (c : Controller)
    → (write_gathered mission_id ts o c).scheduler ≡ c.scheduler
scheduler-write_gathered mission_id ts none c = refl
scheduler-write_gathered mission_id ts (some old) c = refl

-- If in the mission each task stands under its own name and none depends on itself, through others or
-- at once, then every task that the controller hands out stands in the mission's table, ready or only
-- proposed until then, its family may be routed, and each of its dependencies is accepted or is being
-- verified. The call raises only for a mission that is not known, or where the scheduler has an
-- authority over its site.
pub work-HandedOut :
    (mission_id now : ℕ) (c : Controller)
    → Sound (tasks_of mission_id c.tasks)
    → OnlyHandedOut c mission_id (choose_ready_work mission_id now c)
unfolding choose_ready_work
work-HandedOut mission_id now c s = elim (Option-cases (lookup mission_id c.missions)) [
  | inl e ↦ rw e (inl e)
  | inr (m, e) ↦ rw e (
      dispatch-OnlyHandedOut c _ mission_id m _ now
        (scheduler-write_gathered mission_id _ (lookup mission_id c.tasks) c) (gather-All _ s))
]
