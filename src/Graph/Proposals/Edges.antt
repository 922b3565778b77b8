-- ===== src/Graph/Proposals/Edges.antt =====
-- About the edges of a graph of tasks to which tasks are added.
use swarmai.Prelude.{
  ℕ, ◌≡◌, refl, sym, ◌∙◌, ap, ◌⊎◌, inl, inr, List, [], ◌∷◌, ◌==◌, if◌then◌else◌, Table, put,
  lookup-put, Bool-cases,
}
use swarmai.Graph.Walks.{Graph, deps, Walk, edge, then_on, Acyclic}
use swarmai.Graph.Specs.{TaskSpec}
use swarmai.Graph.Proposals.{graph_of, with_specs, project}

-- Two graphs with the same edges have the same walks.
Walk-same : (g h : Graph) {u v : ℕ} → ((n : ℕ) → deps g n ≡ deps h n) → Walk g u v → Walk h u v
Walk-same g h {u = u} same (edge e) = edge (rw (← same u) e)
Walk-same g h {u = u} same (then_on w e p) = then_on w (rw (← same u) e) (Walk-same g h same p)

pub Acyclic-same : (g h : Graph) → ((n : ℕ) → deps g n ≡ deps h n) → Acyclic g → Acyclic h
Acyclic-same g h same a = λ c p. a c (Walk-same h g (λ n. sym (same n)) p)

pub deps-put :
    (g : Graph) (k n : ℕ) (ds : List ℕ) → deps (put k ds g) n ≡ (if k == n then ds else deps g n)
unfolding deps
deps-put g k n ds =
    rw (lookup-put n k ds g) (elim (Bool-cases (k == n)) [ inl e ↦ rw e refl | inr e ↦ rw e refl ])

pub graph_of-put :
    (k : ℕ) (t : TaskSpec) (tasks : Table TaskSpec)
    → graph_of (put k t tasks) ≡ put k t.dependency_ids (graph_of tasks)
unfolding graph_of put
graph_of-put k t [] = refl
graph_of-put k t ((j, s) ∷ ts) = elim (Bool-cases (j == k)) [
  | inl e ↦ rw e refl
  | inr e ↦ rw e (ap (λ r. (j, s.dependency_ids) ∷ r) (graph_of-put k t ts))
]

-- The dependencies of a task once the new tasks are written; the last one with its name counts.
unfoldable pub deps_at : ℕ → List TaskSpec → List ℕ → List ℕ
deps_at n [] ds = ds
deps_at n (s ∷ ss) ds = deps_at n ss (if s.id == n then s.dependency_ids else ds)

pub deps-with_specs :
    (n : ℕ) (ss : List TaskSpec) (g : Graph) → deps (with_specs ss g) n ≡ deps_at n ss (deps g n)
unfolding with_specs deps_at
deps-with_specs n [] g = refl
deps-with_specs n (s ∷ ss) g =
    deps-with_specs n ss (put s.id s.dependency_ids g)
    ∙ ap (deps_at n ss) (deps-put g s.id n s.dependency_ids)

pub deps-project :
    (n : ℕ) (ss : List TaskSpec) (tasks : Table TaskSpec)
    → deps (graph_of (project ss tasks)) n ≡ deps_at n ss (deps (graph_of tasks) n)
unfolding project deps_at
deps-project n [] tasks = refl
deps-project n (s ∷ ss) tasks =
    deps-project n ss (put s.id s tasks)
    ∙ ap (deps_at n ss) (
        ap (λ g. deps g n) (graph_of-put s.id s tasks)
        ∙ deps-put (graph_of tasks) s.id n s.dependency_ids)

-- Either some new task has the name, or the old dependencies stay.
deps_at-cases :
    (n : ℕ) (ss : List TaskSpec)
    → ((ds es : List ℕ) → deps_at n ss ds ≡ deps_at n ss es)
      ⊎ ((ds : List ℕ) → deps_at n ss ds ≡ ds)
unfolding deps_at
deps_at-cases n [] = inr (λ ds. refl)
deps_at-cases n (s ∷ ss) = elim (deps_at-cases n ss) [
  | inl fixed ↦ inl (λ ds es. fixed _ _)
  | inr kept ↦ elim (Bool-cases (s.id == n)) [
    | inl e ↦ inl (λ ds es. rw e refl)
    | inr e ↦ inr (λ ds. rw e (kept ds))
  ]
]

-- The new tasks written a second time change no edge.
pub deps-projected :
    (n : ℕ) (ss : List TaskSpec) (tasks : Table TaskSpec)
    → deps (with_specs ss (graph_of (project ss tasks))) n ≡ deps (graph_of (project ss tasks)) n
deps-projected n ss tasks =
    deps-with_specs n ss (graph_of (project ss tasks)) ∙ elim (deps_at-cases n ss) [
      | inl fixed ↦ fixed _ (deps (graph_of tasks) n) ∙ sym (deps-project n ss tasks)
      | inr kept ↦ kept _
    ]
