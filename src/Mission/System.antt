-- ===== src/Mission/System.antt =====
-- The controller as a transition system: its calls in any order.
use swarmai.Prelude.{
  ℕ, ◌≡◌, refl, sym, inl, inr, true, Option, none, some, List, truthy, Table, lookup, put,
  Bool-cases, Option-cases, Result, ok, err,
}
use mathlib.Core.Path.{subst}
use swarmai.Scheduler.Authority.{StaleEpochError}
use swarmai.Scheduler.Choose.{Scheduler, Explanation}
use swarmai.Graph.Walks.{Acyclic}
use swarmai.Graph.Specs.{TaskSpec, GraphProposal, ValidationResult}
use swarmai.Graph.Proposals.{graph_of, project, is_spawn, is_stop, validate_proposal}
use swarmai.Graph.Proposals.Safe.{validate_spawn_iff}
use swarmai.Mission.State.{
  Mission, TaskAttempt, Tasks, Controller, tasks_of, set_default, submit_mission,
  propose_graph_change, register_attempt, expand_capacity, note_inference_exhaustion,
  verify_attempt, record_verification,
}
use swarmai.Mission.Commit.{written, apply_result, validation, defaulted, commit_validated_revision}
use swarmai.Mission.Work.{scheduled, write_gathered, choose_ready_work}
use swarmai.Mission.Complete.{Progress, conclude, try_complete}
use swarmai.Mission.Sound.{
  Sound, AllSound, AllSound-put, add_ready-Sound, accept_everywhere-AllSound,
}
use swarmai.Mission.Gathered.{gather-Sound}

pub data Step (c d : Controller) : Type 0 where
  submits : (m : Mission) → d ≡ (submit_mission m c).1 → Step c d
  proposes : (p : GraphProposal) → d ≡ (propose_graph_change p c).1 → Step c d
  commits : (proposal_id : ℕ) → d ≡ (commit_validated_revision proposal_id c).1 → Step c d
  chooses : (mission_id now : ℕ) → d ≡ (choose_ready_work mission_id now c).1 → Step c d
  registers : (a : TaskAttempt) → d ≡ (register_attempt a c).1 → Step c d
  verifies :
      (attempt_id receipt_id : ℕ) → d ≡ (record_verification attempt_id receipt_id c).1 → Step c d
  completes : (mission_id receipt : ℕ) → d ≡ (try_complete mission_id receipt c).1 → Step c d
  expands : (inference workers : ℕ) → d ≡ (expand_capacity inference workers c).1 → Step c d
  exhausts : d ≡ (note_inference_exhaustion c).1 → Step c d

pub data Reach (c : Controller) : Controller → Type 0 where
  here : Reach c c
  next : {d e : Controller} → Reach c d → Step d e → Reach c e

pub set_default-AllSound : (m : ℕ) (all : Table Tasks) → AllSound all → AllSound (set_default m all)
set_default-AllSound m all a = AllSound-put m (tasks_of m all) all (a m) a

submit-AllSound :
    (m : Mission) (c : Controller) → AllSound c.tasks → AllSound (submit_mission m c).1.tasks
unfolding submit_mission
submit-AllSound m c a = set_default-AllSound m.id c.tasks a

verify-AllSound :
    (attempt_id receipt_id : ℕ) (o : Option TaskAttempt) (c : Controller)
    → AllSound c.tasks
    → AllSound (verify_attempt attempt_id receipt_id o c).tasks
verify-AllSound attempt_id receipt_id none c a = a
verify-AllSound attempt_id receipt_id (some attempt) c a =
    accept_everywhere-AllSound attempt.task_id c.tasks a

record_verification-AllSound :
    (attempt_id receipt_id : ℕ) (c : Controller)
    → AllSound c.tasks
    → AllSound (record_verification attempt_id receipt_id c).1.tasks
unfolding record_verification
record_verification-AllSound attempt_id receipt_id c a =
    verify-AllSound attempt_id receipt_id (lookup attempt_id c.attempts)
      (record c { verifications = put attempt_id receipt_id c.verifications }) a

written-AllSound :
    (p : GraphProposal) (m : Mission) (c : Controller)
    → (is_spawn p.operation ≡ true
        → Acyclic (graph_of (project p.task_specs (tasks_of m.id c.tasks))))
    → AllSound c.tasks
    → AllSound (written p m c).tasks
written-AllSound p m c h a = elim (Bool-cases (is_spawn p.operation)) [
  | inr e ↦ rw e a
  | inl e ↦ rw e (
      AllSound-put m.id _ c.tasks
        (add_ready-Sound p.task_specs (tasks_of m.id c.tasks) (h e) (a m.id)) a)
]

apply_result-AllSound :
    (p : GraphProposal) (m : Mission) (r : ValidationResult) (c : Controller)
    → (r.is_accepted ≡ true
        → is_spawn p.operation ≡ true
        → Acyclic (graph_of (project p.task_specs (tasks_of m.id c.tasks))))
    → AllSound c.tasks
    → AllSound (apply_result p m r c).1.tasks
unfolding apply_result
apply_result-AllSound p m r c h a = elim (Bool-cases r.is_accepted) [
  | inr e ↦ rw e (elim (Bool-cases (truthy r.merged_into)) [ inl f ↦ rw f a | inr f ↦ rw f a ])
  | inl e ↦ rw e (elim (Bool-cases (is_stop p.operation)) [
    | inl f ↦ rw f a
    | inr f ↦ rw f (written-AllSound p m c (h e) a)
  ])
]

accepted-Acyclic :
    (p : GraphProposal) (m : Mission) (all : Table Tasks)
    → (validate_proposal p
        (tasks_of m.id all)
        m.revision
        m.data_scope_ids
        m.max_graph_nodes).is_accepted
      ≡ true
    → is_spawn p.operation ≡ true
    → Acyclic (graph_of (project p.task_specs (tasks_of m.id all)))
accepted-Acyclic p m all accepted spawns =
    let safe =
      (validate_spawn_iff p (tasks_of m.id all) m.revision m.data_scope_ids m.max_graph_nodes
          spawns).0
        accepted in
    safe.2.2

commit-AllSound :
    (proposal_id : ℕ) (c : Controller)
    → AllSound c.tasks
    → AllSound (commit_validated_revision proposal_id c).1.tasks
unfolding commit_validated_revision
commit-AllSound proposal_id c a = elim (Option-cases (lookup proposal_id c.proposals)) [
  | inl e ↦ rw e a
  | inr (p, e) ↦ rw e (elim (Option-cases (lookup p.mission_id c.missions)) [
    | inl f ↦ rw f a
    | inr (m, f) ↦ rw f (
        apply_result-AllSound p m (validation p m (defaulted m c)) _
          (accepted-Acyclic p m (set_default m.id c.tasks)) (set_default-AllSound m.id c.tasks a))
  ])
]

tasks-scheduled :
    (r : Result StaleEpochError (List TaskSpec × Explanation) × Scheduler) (c : Controller)
    → (scheduled r c).1.tasks ≡ c.tasks
tasks-scheduled (ok _, s) c = refl
tasks-scheduled (err e, s) c = refl

write_gathered-AllSound :
    (mission_id : ℕ) (ts : Tasks) (o : Option Tasks) (c : Controller)
    → Sound ts
    → AllSound c.tasks
    → AllSound (write_gathered mission_id ts o c).tasks
write_gathered-AllSound mission_id ts none c s a = a
write_gathered-AllSound mission_id ts (some old) c s a = AllSound-put mission_id ts c.tasks s a

choose_ready_work-AllSound :
    (mission_id now : ℕ) (c : Controller)
    → AllSound c.tasks
    → AllSound (choose_ready_work mission_id now c).1.tasks
unfolding choose_ready_work
choose_ready_work-AllSound mission_id now c a = elim (Option-cases (lookup mission_id c.missions)) [
  | inl e ↦ rw e a
  | inr (m, e) ↦ rw e (
      subst AllSound (sym (tasks-scheduled _ _)) (
        write_gathered-AllSound mission_id _ (lookup mission_id c.tasks) c
          (gather-Sound _ (a mission_id)) a))
]

tasks-conclude :
    (mission_id receipt : ℕ) (m : Mission) (p : Progress) (c : Controller)
    → (conclude mission_id receipt m p c).1.tasks ≡ c.tasks
tasks-conclude mission_id receipt m Progress.has_failure c = refl
tasks-conclude mission_id receipt m Progress.is_open c = refl
tasks-conclude mission_id receipt m Progress.is_finished c = refl

tasks-try_complete :
    (mission_id receipt : ℕ) (c : Controller)
    → (try_complete mission_id receipt c).1.tasks ≡ c.tasks
unfolding try_complete
tasks-try_complete mission_id receipt c = elim (Option-cases (lookup mission_id c.missions)) [
  | inl e ↦ rw e refl
  | inr (m, e) ↦ rw e (tasks-conclude mission_id receipt m _ c)
]

Step-AllSound : {c d : Controller} → Step c d → AllSound c.tasks → AllSound d.tasks
Step-AllSound {c = c} (submits m w) a = rw w (submit-AllSound m c a)
Step-AllSound (proposes p w) a = rw w (unfold propose_graph_change in a)
Step-AllSound {c = c} (commits proposal_id w) a = rw w (commit-AllSound proposal_id c a)
Step-AllSound {c = c} (chooses mission_id now w) a =
    rw w (choose_ready_work-AllSound mission_id now c a)
Step-AllSound (registers attempt w) a = rw w (unfold register_attempt in a)
Step-AllSound {c = c} (verifies attempt_id receipt_id w) a =
    rw w (record_verification-AllSound attempt_id receipt_id c a)
Step-AllSound {c = c} (completes mission_id receipt w) a =
    rw (w, tasks-try_complete mission_id receipt c) a
Step-AllSound (expands inference workers w) a = rw w (unfold expand_capacity in a)
Step-AllSound (exhausts w) a = rw w (unfold note_inference_exhaustion in a)

-- If in every mission each task stands under its own name and none depends on itself, through others
-- or at once, then so it is after submissions, proposals, commits, selections, registrations,
-- verifications, completions and notes on capacity in any order.
pub Reach-AllSound : {c d : Controller} → Reach c d → AllSound c.tasks → AllSound d.tasks
Reach-AllSound here a = a
Reach-AllSound (next r st) a = Step-AllSound st (Reach-AllSound r a)
