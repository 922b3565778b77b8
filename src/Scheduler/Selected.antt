-- ===== src/Scheduler/Selected.antt =====
-- About the tasks that a selection takes.
use swarmai.Prelude.{
  ℕ, ◌+◌, ◌*◌, min, ◌≤◌, ◌≡◌, refl, inl, inr, Bool, true, ◌&&◌, List, [], ◌∷◌, ◌++◌, leb, length,
  length-append, keep, All, arith, Bool-cases,
}
use swarmai.Prelude.Paging.{order_by}
use swarmai.Graph.Specs.{TaskSpec}
use swarmai.Scheduler.Profiles.{Profiles}
use swarmai.Scheduler.Choose.{
  Scheduler, is_ready, aged_before, by_age, usable_slots, routable, take_routable, holding,
  select_tasks,
}
use swarmai.Prelude.Sorting.{All-order_by, count, count-order_by, All-append, All-keep, count-keep}

module _ (usable : ℕ) (profiles : Profiles) where
  abbrev fits : TaskSpec → Bool
  fits t = routable profiles t.task_family

  All-take_routable {κ} :
      (P : TaskSpec → Type κ) (selected ts : List TaskSpec)
      → All P ts
      → All (λ t. (fits t ≡ true) × P t) selected
      → All (λ t. (fits t ≡ true) × P t) (take_routable usable profiles selected ts)
  unfolding take_routable
  All-take_routable P selected [] a h = h
  All-take_routable P selected (t ∷ ts) a h = elim (Bool-cases (leb usable (length selected))) [
    | inl full ↦ rw full h
    | inr room ↦ rw room (elim (Bool-cases (fits t)) [
      | inl e ↦ rw e (
          All-take_routable P (selected ++ t ∷ []) ts a.1
            (All-append (λ t. (fits t ≡ true) × P t) selected t h (e, a.0)))
      | inr e ↦ rw e (All-take_routable P selected ts a.1 h)
    ])
  ]

  length-take_routable :
      (selected ts : List TaskSpec)
      → length selected ≤ usable
      → length (take_routable usable profiles selected ts)
        ≡ min usable (length selected + count fits ts)
  unfolding take_routable keep
  length-take_routable selected [] h = ground (arith, h)
  length-take_routable selected (t ∷ ts) h = elim (Bool-cases (leb usable (length selected))) [
    | inl full ↦ rw full (ground (arith, h, full))
    | inr room ↦ rw room (elim (Bool-cases (fits t)) [
      | inl e ↦
          rw
            (
              e,
              length-take_routable (selected ++ t ∷ []) ts
                  (ground (arith, length-append selected (t ∷ []), h, room)),
            )
            (ground (arith, length-append selected (t ∷ [])))
      | inr e ↦ rw (e, length-take_routable selected ts h) refl
    ])
  ]

-- What a selection returns: tasks that satisfy a test and what holds of all tasks, as many as there
-- are, up to a bound.
pub record Takes {κ} (p : TaskSpec → Bool) (usable : ℕ) (P : TaskSpec → Type κ)
    (tasks selected : List TaskSpec) : Type κ where
  pub each : All P selected
  pub number : length selected ≡ min usable (count p tasks)

-- Is the task ready, and may its family be routed?
abbrev pub eligible : Profiles → TaskSpec → Bool
eligible profiles t = is_ready t.status && routable profiles t.task_family

abbrev pub EligibleAnd {κ} : Profiles → (TaskSpec → Type κ) → TaskSpec → Type κ
EligibleAnd profiles P t = (eligible profiles t ≡ true) × P t

All-EligibleAnd {κ} :
    (profiles : Profiles) (P : TaskSpec → Type κ) (ts : List TaskSpec)
    → All (λ t. (routable profiles t.task_family ≡ true) × ((is_ready t.status ≡ true) × P t)) ts
    → All (EligibleAnd profiles P) ts
All-EligibleAnd profiles P [] a = tt
All-EligibleAnd profiles P (t ∷ ts) a =
    ((ground (arith, a.0.0, a.0.1.0), a.0.1.1), All-EligibleAnd profiles P ts a.1)

pub select_tasks-Takes {κ} :
    (mission : ℕ) (tasks : List TaskSpec) (inference_slots worker_slots : ℕ) (s : Scheduler)
    (P : TaskSpec → Type κ)
    → All P tasks
    → Takes
        (eligible s.profiles)
        (usable_slots s.config (holding s) inference_slots worker_slots)
        (EligibleAnd s.profiles P)
        tasks
        (select_tasks mission tasks inference_slots worker_slots s).0.0
unfolding select_tasks by_age
select_tasks-Takes mission tasks inference_slots worker_slots s P a =
    let age = s.state.tick * s.config.priority_aging_per_tick in
    let ready_tasks = keep (λ t. is_ready t.status) tasks in
    let usable = usable_slots s.config (holding s) inference_slots worker_slots in
    record {
      each = All-EligibleAnd s.profiles P _ (
          All-take_routable usable s.profiles (λ t. (is_ready t.status ≡ true) × P t) []
            (order_by (aged_before age) ready_tasks)
            (All-order_by (aged_before age) (λ t. (is_ready t.status ≡ true) × P t) ready_tasks
              (All-keep P (λ t. is_ready t.status) tasks a))
            tt);
      number =
          let taken =
            length-take_routable usable s.profiles [] (order_by (aged_before age) ready_tasks)
              (omega arith) in
          let ordered =
            count-order_by (aged_before age) (λ t. routable s.profiles t.task_family) ready_tasks in
          let kept =
            count-keep (λ t. routable s.profiles t.task_family) (λ t. is_ready t.status) tasks in
          omega (arith, taken, ordered, kept);
    }
