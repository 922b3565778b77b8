-- ===== src/Graph/Proposals/Safe.antt =====
-- About the proposals that validation accepts.
use swarmai.Prelude.{
  ℕ, ◌≡◌, ◌≤◌, ◌↔◌, refl, sym, inl, inr, true, false, Option, none, some, List, ◌!=◌, ltb, length,
  Table, keys, arith, Bool-cases,
}
use swarmai.Graph.Walks.{Acyclic}
use swarmai.Graph.Search.Complete.{search_graph-Acyclic, search_graph_iff}
use swarmai.Graph.Specs.{TaskSpec, GraphOperation, GraphProposal, Reason, ValidationResult}
use swarmai.Graph.Proposals.{
  graph_of, with_specs, would_cycle, project, duplicate_among, check_spawn, check_cycle,
  scope_problem, validate_operation, is_spawn, is_stop, validate_proposal, unless_problem,
}
use swarmai.Graph.Proposals.Edges.{Acyclic-same, deps-projected}

-- What an accepted spawn gives: a graph within its bound, without cycles, that repeats no task.
abbrev pub SpawnSafe : List TaskSpec → Table TaskSpec → ℕ → Type 0
SpawnSafe specs tasks most =
    (duplicate_among specs tasks ≡ none)
    × (length (keys (project specs tasks)) ≤ most)
    × Acyclic (graph_of (project specs tasks))

would_cycle-projected_iff :
    (specs : List TaskSpec) (tasks : Table TaskSpec)
    → (would_cycle (project specs tasks) specs ≡ false) ↔ Acyclic (graph_of (project specs tasks))
would_cycle-projected_iff specs tasks = (
  λ missed.
      Acyclic-same _ _ (λ n. deps-projected n specs tasks)
        (search_graph-Acyclic (with_specs specs (graph_of (project specs tasks))) missed),
  λ a. elim (Bool-cases (would_cycle (project specs tasks) specs)) [
    | inl found ↦
        let cycle =
          (search_graph_iff (with_specs specs (graph_of (project specs tasks)))).0 found in
        absurd (Acyclic-same _ _ (λ n. sym (deps-projected n specs tasks)) a cycle.0 cycle.1)
    | inr missed ↦ missed
  ],
)

check_cycle_iff :
    (tasks : Table TaskSpec) (specs : List TaskSpec) (fine : Reason)
    → ((check_cycle tasks specs fine).is_accepted ≡ true) ↔ (would_cycle tasks specs ≡ false)
check_cycle_iff tasks specs fine = elim (Bool-cases (would_cycle tasks specs)) [
  | inl e ↦ rw e ((λ h. cc), (λ h. cc))
  | inr e ↦ rw e ((λ h. refl), (λ h. refl))
]

over_bound : (n most : ℕ) → ltb most n ≡ true → ¬ (n ≤ most)
over_bound n most e h = ground (arith, e, h)

-- The three tests of a spawn, in turn.
check_spawn_iff :
    (o : Option ℕ) (tasks : Table TaskSpec) (specs : List TaskSpec) (most : ℕ)
    → ((check_spawn o tasks specs most).is_accepted ≡ true)
      ↔ ((o ≡ none) × (length (keys tasks) ≤ most) × (would_cycle tasks specs ≡ false))
check_spawn_iff (some old) tasks specs most = ((λ h. cc), (λ h. cc))
check_spawn_iff none tasks specs most = elim (Bool-cases (ltb most (length (keys tasks)))) [
  | inl e ↦ rw e ((λ h. cc), (λ h. absurd (over_bound (length (keys tasks)) most e h.1)))
  | inr e ↦ rw e (
    (λ h. (refl, ground (arith, e), (check_cycle_iff tasks specs Reason.spawn_ok).0 h)),
    (λ h. (check_cycle_iff tasks specs Reason.spawn_ok).1 h.2),
  )
]

validate_operation-is_spawn :
    (op : GraphOperation) (specs : List TaskSpec) (tasks : Table TaskSpec) (most : ℕ)
    → is_spawn op ≡ true
    → validate_operation op specs tasks most
      ≡ check_spawn (duplicate_among specs tasks) (project specs tasks) specs most
unfolding validate_operation
validate_operation-is_spawn GraphOperation.spawn specs tasks most h = refl
validate_operation-is_spawn GraphOperation.split specs tasks most h = refl
validate_operation-is_spawn GraphOperation.reassign specs tasks most h = cc
validate_operation-is_spawn GraphOperation.merge specs tasks most h = cc
validate_operation-is_spawn GraphOperation.challenge specs tasks most h = cc
validate_operation-is_spawn GraphOperation.revise specs tasks most h = cc
validate_operation-is_spawn GraphOperation.stop specs tasks most h = cc
validate_operation-is_spawn GraphOperation.request_help specs tasks most h = cc
validate_operation-is_spawn GraphOperation.submit_result specs tasks most h = cc
validate_operation-is_spawn GraphOperation.revise_dependency specs tasks most h = cc

is_stop-is_spawn : (op : GraphOperation) → is_spawn op ≡ true → is_stop op ≡ false
is_stop-is_spawn GraphOperation.stop h = cc
is_stop-is_spawn GraphOperation.spawn h = refl
is_stop-is_spawn GraphOperation.split h = refl
is_stop-is_spawn GraphOperation.reassign h = refl
is_stop-is_spawn GraphOperation.merge h = refl
is_stop-is_spawn GraphOperation.challenge h = refl
is_stop-is_spawn GraphOperation.revise h = refl
is_stop-is_spawn GraphOperation.request_help h = refl
is_stop-is_spawn GraphOperation.submit_result h = refl
is_stop-is_spawn GraphOperation.revise_dependency h = refl

unless_problem_iff :
    (problem : Option Reason) (r : ValidationResult)
    → ((unless_problem problem r).is_accepted ≡ true) ↔ ((problem ≡ none) × (r.is_accepted ≡ true))
unless_problem_iff (some why) r = ((λ h. cc), (λ h. cc))
unless_problem_iff none r = ((λ h. (refl, h)), (λ h. h.1))

-- A proposal to spawn or to split is accepted exactly when it is based on the current revision, no
-- scope forbids it, it repeats no task that is still wanted, the graph it leads to has no more tasks
-- than the bound, and no task of that graph depends on itself, through others or at once.
pub validate_spawn_iff :
    (p : GraphProposal) (tasks : Table TaskSpec) (revision : ℕ) (scopes : List ℕ) (most : ℕ)
    → is_spawn p.operation ≡ true
    → ((validate_proposal p tasks revision scopes most).is_accepted ≡ true) ↔ (
        (p.based_on_revision ≡ revision)
        × (scope_problem tasks scopes p.task_specs ≡ none)
        × SpawnSafe p.task_specs tasks most)
unfolding validate_proposal
validate_spawn_iff p tasks revision scopes most h =
    rw
      (
        is_stop-is_spawn p.operation h,
        validate_operation-is_spawn p.operation p.task_specs tasks most h,
      )
      (elim (Bool-cases (p.based_on_revision != revision)) [
        | inl stale ↦ rw stale ((λ a. cc), (λ a. absurd (ground (arith, stale, a.0))))
        | inr current ↦ rw current (
          (λ a.
              let parts = (unless_problem_iff (scope_problem tasks scopes p.task_specs) _).0 a in
              let spawned =
                (check_spawn_iff (duplicate_among p.task_specs tasks) _ p.task_specs most).0
                  parts.1 in
              (
                ground (arith, current),
                parts.0,
                (spawned.0, spawned.1, (would_cycle-projected_iff p.task_specs tasks).0 spawned.2),
              )),
          (λ a. (unless_problem_iff (scope_problem tasks scopes p.task_specs) _).1 (
            a.1,
            (check_spawn_iff (duplicate_among p.task_specs tasks) (project p.task_specs tasks)
                  p.task_specs most).1
                (a.2.0, a.2.1, (would_cycle-projected_iff p.task_specs tasks).1 a.2.2),
          )),
        )
      ])
