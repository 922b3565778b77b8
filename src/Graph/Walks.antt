-- ===== src/Graph/Walks.antt =====
-- The dependency graph, its walks, and lists in the order of dependencies.
use swarmai.Prelude.{
  ℕ, ◌≡◌, inl, inr, true, Option, none, some, List, [], ◌∷◌, ◌==◌, ==_iff, contains, Table, lookup,
  arith, Bool-cases,
}

-- A task and the tasks that it depends on.
abbrev pub Graph : Type 0
Graph = Table (List ℕ)

-- `graph.get(node, [])`
abbrev deps_or_none : Option (List ℕ) → List ℕ
deps_or_none none = []
deps_or_none (some ds) = ds

unfoldable pub deps : Graph → ℕ → List ℕ
deps g node = deps_or_none (lookup node g)

-- One dependency or more.
pub data Walk (g : Graph) : ℕ → ℕ → Type 0 where
  edge : {u v : ℕ} → contains v (deps g u) ≡ true → Walk g u v
  then_on : {u v : ℕ} (w : ℕ) → contains w (deps g u) ≡ true → Walk g w v → Walk g u v

pub Walk-snoc : {g : Graph} {u w v : ℕ} → Walk g u w → contains v (deps g w) ≡ true → Walk g u v
Walk-snoc {w = w} (edge e) h = then_on w e (edge h)
Walk-snoc (then_on x e p) h = then_on x e (Walk-snoc p h)

abbrev pub Acyclic : Graph → Type 0
Acyclic g = (c : ℕ) → ¬ (Walk g c c)

-- The latest first: every node depends only on nodes behind it.
abbrev pub AreAmong : List ℕ → List ℕ → Type 0
AreAmong ds ns = (d : ℕ) → contains d ds ≡ true → contains d ns ≡ true

abbrev pub Ordered : Graph → List ℕ → Type 0
Ordered g [] = Unit
Ordered g (n ∷ ns) = AreAmong (deps g n) ns × Ordered g ns

-- Walks that start in an ordered list stay in it.
Ordered-deps :
    (g : Graph) (ns : List ℕ) (u d : ℕ)
    → Ordered g ns
    → contains u ns ≡ true
    → contains d (deps g u) ≡ true
    → contains d ns ≡ true
Ordered-deps g [] u d o c e = cc
Ordered-deps g (n ∷ ns) u d o c e = elim (Bool-cases (u == n)) [
  | inl same ↦
      let here : u ≡ n = (==_iff u n).0 same in
      let inside : contains d ns ≡ true = o.0 d (rw (← here) e) in ground (arith, inside)
  | inr other ↦
      let inside = Ordered-deps g ns u d o.1 (ground (arith, c, other)) e in ground (arith, inside)
]

Ordered-Walk :
    (g : Graph) (ns : List ℕ) {u v : ℕ}
    → Ordered g ns
    → contains u ns ≡ true
    → Walk g u v
    → contains v ns ≡ true
Ordered-Walk g ns {u = u} {v = v} o c (edge e) = Ordered-deps g ns u v o c e
Ordered-Walk g ns {u = u} o c (then_on w e p) = Ordered-Walk g ns o (Ordered-deps g ns u w o c e) p

-- The first step from the head of an ordered list leads behind it.
Ordered-step :
    (g : Graph) (n : ℕ) (ns : List ℕ) {v : ℕ}
    → AreAmong (deps g n) ns
    → Ordered g ns
    → Walk g n v
    → contains v ns ≡ true
Ordered-step g n ns {v = v} a o (edge e) = a v e
Ordered-step g n ns a o (then_on w e p) = Ordered-Walk g ns o (a w e) p

-- No node of an ordered list is on a cycle.
pub Ordered-Acyclic :
    (g : Graph) (ns : List ℕ) (u : ℕ) → Ordered g ns → contains u ns ≡ true → ¬ (Walk g u u)
Ordered-Acyclic g [] u o c p = cc
Ordered-Acyclic g (n ∷ ns) u o c p = elim (Bool-cases (u == n)) [
  | inl same ↦
      let here : u ≡ n = (==_iff u n).0 same in
      Ordered-Acyclic g ns u o.1 (Ordered-step g u ns (λ d e. o.0 d (rw (← here) e)) o.1 p) p
  | inr other ↦ Ordered-Acyclic g ns u o.1 (ground (arith, c, other)) p
]

-- A task that depends on itself, through others or at once.
abbrev pub Cycle : Graph → Type 0
Cycle g = (c : ℕ) × Walk g c c
