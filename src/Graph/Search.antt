-- ===== src/Graph/Search.antt =====
-- `_would_cycle`: a depth-first search for a cycle.
pub mod Fuel
pub mod Sound
pub mod Complete
use swarmai.Prelude.{
  ℕ, zero, suc, ◌+◌, ◌≡◌, Bool, true, false, Option, none, some, List, [], ◌∷◌, if◌then◌else◌,
  contains, without_key, keys, length,
}
use swarmai.Graph.Walks.{Graph, deps}

-- The sets `visiting` and `visited`.
pub record Marks : Type 0 where
  pub visiting : List ℕ
  pub visited : List ℕ

-- What a search returns: has it met a cycle? `none` stands for a search that has run out of fuel.
abbrev pub Found : Type 0
Found = Option (Bool × Marks)

abbrev after_first : (Marks → Found) → Found → Found
after_first later none = none
after_first later (some (true, m)) = some (true, m)
after_first later (some (false, m)) = later m

-- `any(dfs(n) for n in ns)`, and the loop over the dependencies of a node.
unfoldable pub any_of : (ℕ → Marks → Found) → List ℕ → Marks → Found
any_of go [] m = some (false, m)
any_of go (n ∷ ns) m = after_first (any_of go ns) (go n m)

-- The end of a visit: the node leaves `visiting`.
abbrev pub leave : ℕ → Found → Found
leave node none = none
leave node (some (true, m)) = some (true, m)
leave node (some (false, m)) =
    some (false, record { visiting = without_key node m.visiting; visited = node ∷ m.visited })

abbrev pub enter : ℕ → Marks → Marks
enter node m = record m { visiting = node ∷ m.visiting }

unfoldable pub dfs : Graph → ℕ → ℕ → Marks → Found
unfolding any_of
dfs g zero node m = none
dfs g (suc fuel) node m =
    let below = leave node (any_of (dfs g fuel) (deps g node) (enter node m)) in
    if contains node m.visiting
    then some (true, m)
    else if contains node m.visited
    then some (false, m)
    else below

-- The whole search. A path of the search holds each task once, and may end at a node that is none.
unfoldable pub search_graph : Graph → Found
unfolding dfs any_of
search_graph g =
    any_of (dfs g (suc (length (keys g)))) (keys g) (record { visiting = []; visited = [] })

abbrev pub has_cycle : Found → Bool
has_cycle none = true
has_cycle (some (b, m)) = b
