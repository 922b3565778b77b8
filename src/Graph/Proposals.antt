-- ===== src/Graph/Proposals.antt =====
-- `validate_proposal`: is a change of the task graph accepted?
pub mod Edges
pub mod Safe
use swarmai.Prelude.{
  ℕ, ◌≡◌, Bool, true, false, not, ◌&&◌, ◌||◌, Option, none, some, List, [], ◌∷◌, ◌==◌, ◌!=◌, ltb,
  same, if◌then◌else◌, contains, subset, length, Table, lookup, put, keys, rows,
}
use swarmai.Graph.Walks.{Graph}
use swarmai.Graph.Search.{search_graph, has_cycle}
use swarmai.Graph.Specs.{
  TaskStatus, TaskSpec, GraphOperation, GraphProposal, Reason, ValidationResult, refuse, allow,
  is_live,
}

-- `{tid: list(t.dependency_ids) for tid, t in tasks.items()}`
unfoldable pub graph_of : Table TaskSpec → Graph
graph_of [] = []
graph_of ((k, t) ∷ ts) = (k, t.dependency_ids) ∷ graph_of ts

-- `graph[spec.id] = list(spec.dependency_ids)` for every new task.
unfoldable pub with_specs : List TaskSpec → Graph → Graph
with_specs [] g = g
with_specs (s ∷ ss) g = with_specs ss (put s.id s.dependency_ids g)

abbrev pub would_cycle : Table TaskSpec → List TaskSpec → Bool
would_cycle tasks specs = has_cycle (search_graph (with_specs specs (graph_of tasks)))

-- `projected[spec.id] = spec` for every new task.
unfoldable pub project : List TaskSpec → Table TaskSpec → Table TaskSpec
project [] tasks = tasks
project (s ∷ ss) tasks = project ss (put s.id s tasks)

abbrev intersects : List ℕ → List ℕ → Bool
intersects [] ys = false
intersects (x ∷ xs) ys = contains x ys || intersects xs ys

abbrev is_empty : List ℕ → Bool
is_empty [] = true
is_empty (_ ∷ _) = false

-- Both have scopes, and none in common.
abbrev apart : List ℕ → List ℕ → Bool
apart xs ys = not (is_empty xs) && not (is_empty ys) && not (intersects xs ys)

abbrev parent_apart : List ℕ → Option TaskSpec → Bool
parent_apart scopes none = false
parent_apart scopes (some parent) = apart scopes parent.scopes

abbrev crosses_scope : List ℕ → Table TaskSpec → List ℕ → Bool
crosses_scope scopes tasks [] = false
crosses_scope scopes tasks (d ∷ ds) =
    parent_apart scopes (lookup d tasks) || crosses_scope scopes tasks ds

abbrev outside_mission : List ℕ → List ℕ → Bool
outside_mission scopes mission_scopes =
    not (subset scopes mission_scopes)
    && not (is_empty mission_scopes)
    && not (intersects scopes mission_scopes)

-- The loop over the new tasks that tests their scopes.
unfoldable pub scope_problem : Table TaskSpec → List ℕ → List TaskSpec → Option Reason
scope_problem tasks mission_scopes [] = none
scope_problem tasks mission_scopes (s ∷ ss) =
    let rest = scope_problem tasks mission_scopes ss in
    if crosses_scope s.scopes tasks s.dependency_ids
    then some Reason.cross_scope_dependency
    else if outside_mission s.scopes mission_scopes
    then some Reason.scope_not_in_mission
    else rest

-- One objective, family and parent, for a task that is still wanted.
abbrev pub is_duplicate : TaskSpec → TaskSpec → Bool
is_duplicate old new =
    old.objective == new.objective
    && old.task_family == new.task_family
    && same old.parent_task_id new.parent_task_id
    && is_live old.status

unfoldable pub duplicate_of : TaskSpec → Table TaskSpec → Option ℕ
duplicate_of new [] = none
duplicate_of new ((k, old) ∷ ts) =
    let rest = duplicate_of new ts in if is_duplicate old new then some old.id else rest

abbrev pub some_or_else : Option ℕ → Option ℕ → Option ℕ
some_or_else none later = later
some_or_else (some n) later = some n

unfoldable pub duplicate_among : List TaskSpec → Table TaskSpec → Option ℕ
unfolding duplicate_of
duplicate_among [] tasks = none
duplicate_among (s ∷ ss) tasks =
    some_or_else (duplicate_of s (rows tasks)) (duplicate_among ss tasks)

abbrev pub check_cycle : Table TaskSpec → List TaskSpec → Reason → ValidationResult
check_cycle tasks specs fine =
    if would_cycle tasks specs then refuse Reason.cycle_rejected else allow fine

abbrev pub check_spawn : Option ℕ → Table TaskSpec → List TaskSpec → ℕ → ValidationResult
check_spawn (some old) tasks specs most = record {
  is_accepted = false;
  reason = Reason.duplicate_merged;
  merged_into = some old;
}
check_spawn none tasks specs most =
    if ltb most (length (keys tasks))
    then refuse Reason.max_graph_nodes
    else check_cycle tasks specs Reason.spawn_ok

unfoldable pub validate_operation :
    GraphOperation → List TaskSpec → Table TaskSpec → ℕ → ValidationResult
unfolding duplicate_among project
validate_operation GraphOperation.spawn specs tasks most =
    check_spawn (duplicate_among specs tasks) (project specs tasks) specs most
validate_operation GraphOperation.split specs tasks most =
    check_spawn (duplicate_among specs tasks) (project specs tasks) specs most
validate_operation GraphOperation.merge specs tasks most = allow Reason.merge_ok
validate_operation GraphOperation.challenge specs tasks most = allow Reason.challenge_ok
validate_operation GraphOperation.reassign specs tasks most = allow Reason.reassign_ok
validate_operation GraphOperation.revise_dependency specs tasks most =
    check_cycle tasks specs Reason.revise_ok
validate_operation _ specs tasks most = allow Reason.accepted_ok

abbrev pub is_stop : GraphOperation → Bool
is_stop GraphOperation.stop = true
is_stop _ = false

abbrev pub is_spawn : GraphOperation → Bool
is_spawn GraphOperation.spawn = true
is_spawn GraphOperation.split = true
is_spawn _ = false

abbrev pub unless_problem : Option Reason → ValidationResult → ValidationResult
unless_problem (some why) r = refuse why
unless_problem none r = r

unfoldable pub validate_proposal :
    GraphProposal → Table TaskSpec → ℕ → List ℕ → ℕ → ValidationResult
unfolding scope_problem validate_operation
validate_proposal p tasks mission_revision mission_scopes most =
    if p.based_on_revision != mission_revision
    then refuse Reason.stale_revision
    else if is_stop p.operation
    then allow Reason.stop_ok
    else unless_problem (scope_problem tasks mission_scopes p.task_specs)
        (validate_operation p.operation p.task_specs tasks most)
