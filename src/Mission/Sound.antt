-- ===== src/Mission/Sound.antt =====
-- About the task graphs of the missions.
use swarmai.Prelude.{
  ℕ, ◌≡◌, refl, sym, ◌∙◌, ap, inl, inr, Option, none, some, List, [], ◌∷◌, ◌==◌, ==_iff,
  if◌then◌else◌, Table, lookup, put, lookup-put, keys, rows, rows_among, All, arith, Bool-cases,
  Option-cases,
}
use swarmai.Prelude.Distinct.{row-none, row-some}
use swarmai.Graph.Walks.{deps, Acyclic}
use swarmai.Graph.Specs.{TaskSpec}
use swarmai.Graph.Proposals.{graph_of, project}
use swarmai.Graph.Proposals.Edges.{Acyclic-same, deps-put, graph_of-put, deps_at, deps-project}
use swarmai.Mission.State.{Tasks, tasks_of, accept_task, accept_row, accept_everywhere}
use swarmai.Mission.Commit.{ready_task, add_ready}

-- Each task stands under its own name, and none depends on itself.
pub record Sound (ts : Tasks) : Type 0 where
  pub keyed : (k : ℕ) (t : TaskSpec) → lookup k ts ≡ some t → t.id ≡ k
  pub acyclic : Acyclic (graph_of ts)

abbrev pub AllSound : Table Tasks → Type 0
AllSound all = (m : ℕ) → Sound (tasks_of m all)

abbrev pub SameEdges : Tasks → Tasks → Type 0
SameEdges ts us = (n : ℕ) → deps (graph_of us) n ≡ deps (graph_of ts) n

-- The dependencies of the graph are those of the task.
pub deps-graph_of :
    (n : ℕ) (ts : Tasks) {t : TaskSpec}
    → lookup n ts ≡ some t
    → deps (graph_of ts) n ≡ t.dependency_ids
unfolding deps graph_of lookup
deps-graph_of n [] e = cc
deps-graph_of n ((j, s) ∷ ts) {t = t} e = elim (Bool-cases (j == n)) [
  | inl same ↦ rw same (let here = rw same at e in ground (arith, here))
  | inr other ↦ rw other (deps-graph_of n ts {t = t} (rw other at e))
]

-- A task written with the dependencies that it has.
pub SameEdges-put :
    (k : ℕ) (t : TaskSpec) (ts : Tasks)
    → deps (graph_of ts) k ≡ t.dependency_ids
    → SameEdges ts (put k t ts)
SameEdges-put k t ts h n =
    ap (λ g. deps g n) (graph_of-put k t ts)
    ∙ deps-put (graph_of ts) k n t.dependency_ids
    ∙ elim (Bool-cases (k == n)) [
      | inl same ↦ let there : k ≡ n = (==_iff k n).0 same in rw (same) (sym (rw (← there) h))
      | inr other ↦ rw other refl
    ]

pub Keyed-put :
    (k : ℕ) (t : TaskSpec) (ts : Tasks)
    → t.id ≡ k
    → ((j : ℕ) (u : TaskSpec) → lookup j ts ≡ some u → u.id ≡ j)
    → (j : ℕ) (u : TaskSpec) → lookup j (put k t ts) ≡ some u
    → u.id ≡ j
Keyed-put k t ts own keyed j u e = ground (arith, own, e, keyed j u, lookup-put j k t ts)

pub Sound-put :
    (k : ℕ) (t : TaskSpec) (ts : Tasks)
    → t.id ≡ k
    → deps (graph_of ts) k ≡ t.dependency_ids
    → Sound ts
    → Sound (put k t ts)
Sound-put k t ts own h s = record {
  keyed = Keyed-put k t ts own s.keyed;
  acyclic = Acyclic-same _ _ (λ n. sym (SameEdges-put k t ts h n)) s.acyclic;
}

-- The new tasks as ready ones have the edges that were validated.
deps-add_ready :
    (n : ℕ) (ss : List TaskSpec) (ts : Tasks)
    → deps (graph_of (add_ready ss ts)) n ≡ deps_at n ss (deps (graph_of ts) n)
unfolding add_ready deps_at
deps-add_ready n [] ts = refl
deps-add_ready n (s ∷ ss) ts =
    deps-add_ready n ss (put s.id (ready_task s) ts)
    ∙ ap (deps_at n ss) (
        ap (λ g. deps g n) (graph_of-put s.id (ready_task s) ts)
        ∙ deps-put (graph_of ts) s.id n s.dependency_ids)

Keyed-add_ready :
    (ss : List TaskSpec) (ts : Tasks)
    → ((j : ℕ) (u : TaskSpec) → lookup j ts ≡ some u → u.id ≡ j)
    → (j : ℕ) (u : TaskSpec) → lookup j (add_ready ss ts) ≡ some u
    → u.id ≡ j
unfolding add_ready
Keyed-add_ready [] ts keyed = keyed
Keyed-add_ready (s ∷ ss) ts keyed =
    Keyed-add_ready ss (put s.id (ready_task s) ts) (Keyed-put s.id (ready_task s) ts refl keyed)

pub add_ready-Sound :
    (ss : List TaskSpec) (ts : Tasks)
    → Acyclic (graph_of (project ss ts))
    → Sound ts
    → Sound (add_ready ss ts)
add_ready-Sound ss ts a s = record {
  keyed = Keyed-add_ready ss ts s.keyed;
  acyclic =
      Acyclic-same (graph_of (project ss ts)) (graph_of (add_ready ss ts))
        (λ n. deps-project n ss ts ∙ sym (deps-add_ready n ss ts)) a;
}

-- The tables of the missions.
pub tasks_of-put :
    (k m : ℕ) (ts : Tasks) (all : Table Tasks)
    → tasks_of k (put m ts all) ≡ (if m == k then ts else tasks_of k all)
unfolding tasks_of
tasks_of-put k m ts all =
    rw (lookup-put k m ts all)
      (elim (Bool-cases (m == k)) [ inl e ↦ rw e refl | inr e ↦ rw e refl ])

pub AllSound-put :
    (m : ℕ) (ts : Tasks) (all : Table Tasks) → Sound ts → AllSound all → AllSound (put m ts all)
AllSound-put m ts all s a k =
    rw (tasks_of-put k m ts all)
      (elim (Bool-cases (m == k)) [ inl e ↦ rw e s | inr e ↦ rw e (a k) ])

accept_row-Sound :
    (task_id : ℕ) (ts : Tasks) (o : Option TaskSpec)
    → lookup task_id ts ≡ o
    → Sound ts
    → Sound (accept_row task_id ts o)
accept_row-Sound task_id ts none e s = s
accept_row-Sound task_id ts (some t) e s =
    Sound-put task_id (accept_task t) ts (s.keyed task_id t e) (deps-graph_of task_id ts e) s

tasks_of-accept_everywhere :
    (task_id m : ℕ) (all : Table Tasks)
    → tasks_of m (accept_everywhere task_id all)
      ≡ accept_row task_id (tasks_of m all) (lookup task_id (tasks_of m all))
unfolding tasks_of accept_everywhere lookup
tasks_of-accept_everywhere task_id m [] = refl
tasks_of-accept_everywhere task_id m ((j, ts) ∷ all) = elim (Bool-cases (j == m)) [
  | inl e ↦ rw e refl
  | inr e ↦ rw e (tasks_of-accept_everywhere task_id m all)
]

pub accept_everywhere-AllSound :
    (task_id : ℕ) (all : Table Tasks) → AllSound all → AllSound (accept_everywhere task_id all)
accept_everywhere-AllSound task_id all a m =
    rw (tasks_of-accept_everywhere task_id m all)
      (accept_row-Sound task_id (tasks_of m all) (lookup task_id (tasks_of m all)) refl (a m))

-- The rows of a table are the rows that its keys lead to.
rows_among-lookup {ℓ} :
    {V : Type ℓ} (ks : List ℕ) (t : Table V)
    → All (λ row. lookup row.0 t ≡ some row.1) (rows_among ks t)
rows_among-lookup [] t = unfold rows_among in tt
rows_among-lookup (k ∷ ks) t = elim (Option-cases (lookup k t)) [
  | inl e ↦ rw (row-none k ks t e) (rows_among-lookup ks t)
  | inr (v, e) ↦ rw (row-some k ks t e) (e, rows_among-lookup ks t)
]

pub rows-lookup {ℓ} : {V : Type ℓ} (t : Table V) → All (λ row. lookup row.0 t ≡ some row.1) (rows t)
unfolding rows
rows-lookup t = rows_among-lookup (keys t) t
