-- ===== src/Graph/Search/Complete.antt =====
-- About a search that answers that there is no cycle.
use swarmai.Prelude.{
  ℕ, zero, suc, ◌≡◌, ◌↔◌, is_some, inl, inr, true, false, none, some, List, [], ◌∷◌, ◌==◌, ==_iff,
  contains, keys, length, arith, Bool-cases,
}
use swarmai.Graph.Walks.{
  Graph, deps, Walk, edge, then_on, Cycle, Acyclic, AreAmong, Ordered, Ordered-Acyclic,
}
use swarmai.Graph.Search.{
  Marks, Found, after_first, any_of, leave, enter, dfs, search_graph, has_cycle,
}
use swarmai.Graph.Search.Fuel.{deps-absent, search_returns}
use swarmai.Graph.Search.Sound.{Shows, search_graph-Shows}

-- A search through these nodes has visited them, and what it has visited is in order.
abbrev Visits : Graph → List ℕ → List ℕ → Found → Type 0
Visits g ns before none = Unit
Visits g ns before (some (true, m)) = Unit
Visits g ns before (some (false, m)) =
    Ordered g m.visited × AreAmong before m.visited × AreAmong ns m.visited

among-cons : (n : ℕ) (ns ks : List ℕ) → contains n ks ≡ true → AreAmong ns ks → AreAmong (n ∷ ns) ks
among-cons n ns ks h a d c = elim (Bool-cases (d == n)) [
  | inl same ↦ let here : d ≡ n = (==_iff d n).0 same in rw here h
  | inr other ↦ a d (ground (arith, c, other))
]

module _ (g : Graph) where
  after_first-Visits :
      (n : ℕ) (ns before : List ℕ) (later : Marks → Found) (o : Found)
      → Visits g (n ∷ []) before o
      → ((m : Marks) → Ordered g m.visited → Visits g ns m.visited (later m))
      → Visits g (n ∷ ns) before (after_first later o)
  after_first-Visits n ns before later none v f = tt
  after_first-Visits n ns before later (some (true, m)) v f = tt
  after_first-Visits n ns before later (some (false, m)) v f = join (later m) (f m v.0)
    where
      join : (o : Found) → Visits g ns m.visited o → Visits g (n ∷ ns) before o
      join none w = tt
      join (some (true, _)) w = tt
      join (some (false, m2)) w = (
        w.0,
        (λ d c. w.1 d (v.1 d c)),
        among-cons n ns m2.visited (w.1 n (v.2 n (ground arith))) w.2,
      )

  any_of-Visits :
      (go : ℕ → Marks → Found) (ns : List ℕ) (m : Marks)
      → ((n : ℕ) (m' : Marks) → Ordered g m'.visited → Visits g (n ∷ []) m'.visited (go n m'))
      → Ordered g m.visited
      → Visits g ns m.visited (any_of go ns m)
  unfolding any_of
  any_of-Visits go [] m h o = (o, (λ d c. c), (λ d c. cc))
  any_of-Visits go (n ∷ ns) m h o =
      after_first-Visits n ns m.visited (any_of go ns) (go n m) (h n m o)
        (λ m' o'. any_of-Visits go ns m' h o')

  -- A node is visited behind all its dependencies.
  leave-Visits :
      (node : ℕ) (before : List ℕ) (o : Found)
      → Visits g (deps g node) before o
      → Visits g (node ∷ []) before (leave node o)
  leave-Visits node before none v = tt
  leave-Visits node before (some (true, m)) v = tt
  leave-Visits node before (some (false, m)) v = (
    (v.2, v.0),
    (λ d c. let inside = v.1 d c in ground (arith, inside)),
    (λ d c. ground (arith, c)),
  )

  dfs-Visits :
      (fuel node : ℕ) (m : Marks)
      → Ordered g m.visited
      → Visits g (node ∷ []) m.visited (dfs g fuel node m)
  unfolding dfs
  dfs-Visits zero node m o = tt
  dfs-Visits (suc fuel) node m o = elim (Bool-cases (contains node m.visiting)) [
    | inl seen ↦ rw (seen, dfs) tt
    | inr new ↦
        rw (new, dfs)
          (elim (Bool-cases (contains node m.visited)) [
            | inl done ↦ rw done (o, (λ d c. c), among-cons node [] m.visited done (λ d c. cc))
            | inr open_node ↦ rw open_node (
                leave-Visits node m.visited _
                  (any_of-Visits (dfs g fuel) (deps g node) (enter node m) (dfs-Visits fuel) o))
          ])
  ]

  search_graph-Visits : Visits g (keys g) [] (search_graph g)
  unfolding search_graph
  search_graph-Visits =
      any_of-Visits (dfs g (suc (length (keys g)))) (keys g) _ (dfs-Visits (suc (length (keys g))))
        tt

-- The end of a walk's first step is a dependency of a task.
Walk-start : (g : Graph) {u v : ℕ} → Walk g u v → contains u (keys g) ≡ true
Walk-start g {u = u} p = elim (Bool-cases (contains u (keys g))) [
  | inl here ↦ here
  | inr absent ↦ absurd (nowhere p (deps-absent g u absent))
]
  where
    nowhere : {u v : ℕ} → Walk g u v → deps g u ≡ [] → ⊥
    nowhere {v = v} (edge e) h = cc
    nowhere (then_on w e q) h = cc

visited-Acyclic : (g : Graph) (o : Found) → Visits g (keys g) [] o → has_cycle o ≡ false → Acyclic g
visited-Acyclic g none v h = cc
visited-Acyclic g (some (true, m)) v h = cc
visited-Acyclic g (some (false, m)) v h =
    λ c p. Ordered-Acyclic g m.visited c v.0 (v.2 c (Walk-start g p)) p

has_cycle-Cycle :
    (g : Graph) (o : Found) → is_some o ≡ true → Shows g o → has_cycle o ≡ true → Cycle g
has_cycle-Cycle g none r s h = cc
has_cycle-Cycle g (some (true, m)) r s h = s
has_cycle-Cycle g (some (false, m)) r s h = cc

-- The search answers that there is a cycle exactly when some task depends on itself, through others
-- or at once.
pub search_graph_iff : (g : Graph) → (has_cycle (search_graph g) ≡ true) ↔ Cycle g
search_graph_iff g = (
  has_cycle-Cycle g (search_graph g) (search_returns g) (search_graph-Shows g),
  λ cycle. elim (Bool-cases (has_cycle (search_graph g))) [
    | inl found ↦ found
    | inr missed ↦
        absurd (visited-Acyclic g (search_graph g) (search_graph-Visits g) missed cycle.0 cycle.1)
  ],
)

pub search_graph-Acyclic : (g : Graph) → has_cycle (search_graph g) ≡ false → Acyclic g
search_graph-Acyclic g missed = visited-Acyclic g (search_graph g) (search_graph-Visits g) missed
