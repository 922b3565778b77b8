-- ===== src/Graph/Search/Sound.antt =====
-- About a search that answers that there is a cycle.
use swarmai.Prelude.{
  ℕ, zero, suc, ◌≡◌, refl, ◌∙◌, inl, inr, true, false, none, some, List, [], ◌∷◌, ◌==◌, ==_iff,
  contains, keys, length, arith, Bool-cases,
}
use swarmai.Graph.Walks.{Graph, deps, Walk, edge, Walk-snoc, Cycle}
use swarmai.Graph.Search.{Marks, Found, after_first, any_of, leave, enter, dfs, search_graph}
use swarmai.Graph.Search.Fuel.{Restores, dfs-Restores}

abbrev pub Shows : Graph → Found → Type 0
Shows g none = Unit
Shows g (some (true, m)) = Cycle g
Shows g (some (false, m)) = Unit

-- Every node of the path walks to the next one.
abbrev Leads : Graph → List ℕ → ℕ → Type 0
Leads g path n = (v : ℕ) → contains v path ≡ true → Walk g v n

module _ (g : Graph) where
  after_first-Shows :
      (m : Marks) (later : Marks → Found) (o : Found)
      → Shows g o
      → Restores m o
      → ((m' : Marks) → m'.visiting ≡ m.visiting → Shows g (later m'))
      → Shows g (after_first later o)
  after_first-Shows m later none s r f = tt
  after_first-Shows m later (some (true, m')) s r f = s
  after_first-Shows m later (some (false, m')) s r f = f m' r

  leave-Shows : (node : ℕ) (o : Found) → Shows g o → Shows g (leave node o)
  leave-Shows node none s = tt
  leave-Shows node (some (true, m)) s = s
  leave-Shows node (some (false, m)) s = tt

  any_of-Shows :
      (fuel : ℕ) (ns : List ℕ) (m : Marks)
      → ((n : ℕ) (m' : Marks)
          → contains n ns ≡ true
          → m'.visiting ≡ m.visiting
          → Shows g (dfs g fuel n m'))
      → Shows g (any_of (dfs g fuel) ns m)
  unfolding any_of
  any_of-Shows fuel [] m h = tt
  any_of-Shows fuel (n ∷ ns) m h =
      after_first-Shows m (any_of (dfs g fuel) ns) (dfs g fuel n m) (h n m (ground arith) refl)
        (dfs-Restores g fuel n m)
        (λ m' e. any_of-Shows fuel ns m' (λ k m2 c e2. h k m2 (ground (arith, c)) (e2 ∙ e)))

  -- The node that is entered is the new end of the path.
  enter-Leads :
      (path : List ℕ) (node d : ℕ)
      → Leads g path node
      → contains d (deps g node) ≡ true
      → Leads g (node ∷ path) d
  enter-Leads path node d h e v c = elim (Bool-cases (v == node)) [
    | inl same ↦ let here : v ≡ node = (==_iff v node).0 same in rw here (edge e)
    | inr other ↦ Walk-snoc (h v (ground (arith, c, other))) e
  ]

  dfs-Shows : (fuel node : ℕ) (m : Marks) → Leads g m.visiting node → Shows g (dfs g fuel node m)
  unfolding dfs
  dfs-Shows zero node m h = tt
  dfs-Shows (suc fuel) node m h = elim (Bool-cases (contains node m.visiting)) [
    | inl seen ↦ rw (seen, dfs) (node, h node seen)
    | inr new ↦
        rw (new, dfs)
          (elim (Bool-cases (contains node m.visited)) [
            | inl done ↦ rw done tt
            | inr open_node ↦ rw open_node (
                leave-Shows node _ (
                  any_of-Shows fuel (deps g node) (enter node m) (λ d m' e same.
                    dfs-Shows fuel d m' (rw same (enter-Leads m.visiting node d h e)))))
          ])
  ]

  pub search_graph-Shows : Shows g (search_graph g)
  unfolding search_graph
  search_graph-Shows =
      any_of-Shows (suc (length (keys g))) (keys g) (record { visiting = []; visited = [] })
        (λ n m e same.
          dfs-Shows (suc (length (keys g))) n m (rw same (λ v c. absurd (nothing v c))))
    where
      nothing : (v : ℕ) → contains v [] ≡ true → ⊥
      nothing v c = cc
