-- ===== src/Graph/Tests.antt =====
-- Runs of the search and of the validation, and the theorems on them.
use swarmai.Prelude.{
  ℕ, suc, ◌+◌, ◌≡◌, ◌≤◌, ◌↔◌, refl, Bool, true, false, Option, none, some, List, [], ◌∷◌, is_some,
  length, Table, keys,
}
use swarmai.Graph.Walks.{Graph, Walk, edge, then_on, Cycle}
use swarmai.Graph.Search.{search_graph, has_cycle}
use swarmai.Graph.Search.Fuel.{search_returns}
use swarmai.Graph.Search.Complete.{search_graph_iff}
use swarmai.Graph.Specs.{TaskStatus, TaskSpec, GraphOperation, GraphProposal}
use swarmai.Graph.Proposals.{validate_proposal, scope_problem}
use swarmai.Graph.Proposals.Safe.{validate_spawn_iff, SpawnSafe}

-- 1 needs 2, 2 needs 3, and 3 needs 1 and a task that is not there.
abbrev ring : Graph
ring = (1, 2 ∷ []) ∷ (2, 3 ∷ []) ∷ (3, 9 ∷ 1 ∷ []) ∷ []

abbrev diamond : Graph
diamond = (1, 2 ∷ 3 ∷ []) ∷ (2, 4 ∷ []) ∷ (3, 4 ∷ []) ∷ (4, []) ∷ []

search_graph-ring : has_cycle (search_graph ring) ≡ true
unfolding search_graph keys swarmai.Graph.Walks.deps swarmai.Prelude.lookup
search_graph-ring = refl

search_graph-diamond : has_cycle (search_graph diamond) ≡ false
unfolding search_graph keys swarmai.Graph.Walks.deps swarmai.Prelude.lookup
search_graph-diamond = refl

search_returns_example : is_some (search_graph ring) ≡ true
search_returns_example = search_returns ring

search_graph_iff_example : (has_cycle (search_graph ring) ≡ true) ↔ Cycle ring
search_graph_iff_example = search_graph_iff ring

abbrev task : ℕ → ℕ → List ℕ → TaskSpec
task id objective dependency_ids = record {
  id = id;
  parent_task_id = none;
  objective = objective;
  task_family = 1;
  dependency_ids = dependency_ids;
  scopes = 5 ∷ [];
  priority = 100;
  created_at = id;
  status = TaskStatus.ready;
}

abbrev known : Table TaskSpec
known = (1, task 1 11 []) ∷ (2, task 2 12 (1 ∷ [])) ∷ []

abbrev proposal : List TaskSpec → GraphProposal
proposal specs = record {
  proposal_id = 1;
  mission_id = 1;
  based_on_revision = 3;
  operation = GraphOperation.spawn;
  task_specs = specs;
}

-- A task on top of the others is accepted; one that closes a circle is not.
validate_proposal-spawn :
    (validate_proposal (proposal (task 3 13 (2 ∷ []) ∷ [])) known 3 (5 ∷ []) 4).is_accepted ≡ true
unfolding validate_proposal swarmai.Prelude.lookup swarmai.Prelude.rows swarmai.Prelude.put
    search_graph swarmai.Graph.Proposals.with_specs swarmai.Graph.Proposals.graph_of
    swarmai.Graph.Walks.deps
validate_proposal-spawn = refl

validate_proposal-circle :
    (validate_proposal
      (proposal (task 3 13 (4 ∷ []) ∷ task 4 14 (3 ∷ []) ∷ []))
      known
      3
      (5 ∷ [])
      4).is_accepted
    ≡ false
unfolding validate_proposal swarmai.Prelude.lookup swarmai.Prelude.rows swarmai.Prelude.put
    search_graph swarmai.Graph.Proposals.with_specs swarmai.Graph.Proposals.graph_of
    swarmai.Graph.Walks.deps
validate_proposal-circle = refl

validate_spawn_iff_example :
    ((validate_proposal (proposal (task 3 13 (2 ∷ []) ∷ [])) known 3 (5 ∷ []) 4).is_accepted ≡ true)
    ↔ ((◌≡◌ {A = ℕ} 3 3)
        × (scope_problem known (5 ∷ []) (task 3 13 (2 ∷ []) ∷ []) ≡ none)
        × SpawnSafe (task 3 13 (2 ∷ []) ∷ []) known 4)
validate_spawn_iff_example =
    validate_spawn_iff (proposal (task 3 13 (2 ∷ []) ∷ [])) known 3 (5 ∷ []) 4 refl
