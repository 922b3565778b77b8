-- ===== src/Mission/Gathered.antt =====
-- About the tasks that may run, and the promotion of those that were proposed.
use swarmai.Prelude.{
  ℕ, ◌≡◌, refl, sym, ◌∙◌, inl, inr, true, false, ◌&&◌, some, List, [], ◌∷◌, ◌++◌, ◌==◌, lookup, put,
  lookup-put, rows, All, arith, Bool-cases, Option-cases, and-true,
}
use mathlib.Core.Path.{subst}
use swarmai.Prelude.Sorting.{All-append}
use swarmai.Graph.Walks.{deps}
use swarmai.Graph.Specs.{TaskSpec}
use swarmai.Graph.Proposals.{graph_of}
use swarmai.Mission.State.{Tasks}
use swarmai.Mission.Commit.{ready_task}
use swarmai.Mission.Work.{
  is_done, is_waiting, is_proposed, is_met, deps_met, promote, promote_in, gather,
}
use swarmai.Mission.Sound.{Sound, SameEdges, SameEdges-put, Sound-put, deps-graph_of, rows-lookup}

-- Between two tables only tasks that no other can rest on have changed.
record Promoted (old ts : Tasks) : Type 0 where
  sound : Sound ts
  edges : SameEdges old ts
  met : (d : ℕ) → is_met (lookup d ts) ≡ true → is_met (lookup d old) ≡ true

promote_in-Promoted :
    (old ts : Tasks) (t : TaskSpec)
    → deps (graph_of old) t.id ≡ t.dependency_ids
    → Promoted old ts
    → Promoted old (promote_in t ts)
promote_in-Promoted old ts t h p = elim (Bool-cases (is_proposed t.status)) [
  | inr e ↦ rw e p
  | inl e ↦ rw e (
      let here : deps (graph_of ts) t.id ≡ (ready_task t).dependency_ids = p.edges t.id ∙ h in
      record {
        sound = Sound-put t.id (ready_task t) ts refl here p.sound;
        edges = λ n. SameEdges-put t.id (ready_task t) ts here n ∙ p.edges n;
        met = λ d m. after d m;
      })
]
  where
    ready_is_not_met : is_met (some (ready_task t)) ≡ true → ⊥
    ready_is_not_met m = cc

    after :
        (d : ℕ)
        → is_met (lookup d (put t.id (ready_task t) ts)) ≡ true
        → is_met (lookup d old) ≡ true
    after d m = elim (Bool-cases (t.id == d)) [
      | inl same ↦
          let found : lookup d (put t.id (ready_task t) ts) ≡ some (ready_task t) =
            ground (arith, same, lookup-put d t.id (ready_task t) ts) in
          absurd (ready_is_not_met (rw found at m))
      | inr other ↦
          let found : lookup d (put t.id (ready_task t) ts) ≡ lookup d ts =
            ground (arith, other, lookup-put d t.id (ready_task t) ts) in
          p.met d (rw found at m)
    ]

deps_met-Promoted :
    (old ts : Tasks) (ds : List ℕ)
    → Promoted old ts
    → deps_met ts ds ≡ true
    → deps_met old ds ≡ true
deps_met-Promoted old ts [] p h = refl
deps_met-Promoted old ts (d ∷ ds) p h =
    let parts = and-true (is_met (lookup d ts)) (deps_met ts ds) h in
    rw (p.met d parts.0) (deps_met-Promoted old ts ds p parts.1)

-- A task that is accepted, or is being verified.
abbrev pub IsSettledIn : Tasks → ℕ → Type 0
IsSettledIn ts d =
    (parent : TaskSpec) × (lookup d ts ≡ some parent) × (is_done parent.status ≡ true)

is_met-IsSettledIn : (ts : Tasks) (d : ℕ) → is_met (lookup d ts) ≡ true → IsSettledIn ts d
is_met-IsSettledIn ts d h = elim (Option-cases (lookup d ts)) [
  | inl e ↦ let h' = rw e at h in cc
  | inr (parent, e) ↦ (parent, e, rw e at h)
]

deps_met-All : (ts : Tasks) (ds : List ℕ) → deps_met ts ds ≡ true → All (IsSettledIn ts) ds
deps_met-All ts [] h = tt
deps_met-All ts (d ∷ ds) h =
    let parts = and-true (is_met (lookup d ts)) (deps_met ts ds) h in
    (is_met-IsSettledIn ts d parts.0, deps_met-All ts ds parts.1)

-- A task that may run: it stands in the table, ready or only proposed, and each of its dependencies
-- is accepted or is being verified.
pub record MayRun (ts : Tasks) (t : TaskSpec) : Type 0 where
  pub stored : TaskSpec
  pub present : lookup t.id ts ≡ some stored
  pub waits : is_waiting stored.status ≡ true
  pub same_task : t ≡ promote stored
  pub met : All (IsSettledIn ts) t.dependency_ids

promote-id : (t : TaskSpec) → (promote t).id ≡ t.id
promote-id t = ground arith

promote-dependency_ids : (t : TaskSpec) → (promote t).dependency_ids ≡ t.dependency_ids
promote-dependency_ids t = ground arith

gather-keep :
    (k : ℕ) (t : TaskSpec) (rest : Tasks) (found : List TaskSpec) (ts : Tasks)
    → (is_waiting t.status && deps_met ts t.dependency_ids) ≡ true
    → gather ((k, t) ∷ rest) found ts ≡ gather rest (found ++ promote t ∷ []) (promote_in t ts)
unfolding gather
gather-keep k t rest found ts e = rw e refl

gather-skip :
    (k : ℕ) (t : TaskSpec) (rest : Tasks) (found : List TaskSpec) (ts : Tasks)
    → (is_waiting t.status && deps_met ts t.dependency_ids) ≡ false
    → gather ((k, t) ∷ rest) found ts ≡ gather rest found ts
unfolding gather
gather-skip k t rest found ts e = rw e refl

module _ (old : Tasks) (sound : Sound old) where
  promote-MayRun :
      (k : ℕ) (t : TaskSpec) (ts : Tasks)
      → lookup k old ≡ some t
      → Promoted old ts
      → is_waiting t.status ≡ true
      → deps_met ts t.dependency_ids ≡ true
      → MayRun old (promote t)
  promote-MayRun k t ts e p w m =
      let own = sound.keyed k t e in
      record {
        stored = t;
        present = subst (λ i. lookup i old ≡ some t) (sym (promote-id t ∙ own)) e;
        waits = w;
        same_task = refl;
        met =
            rw (promote-dependency_ids t)
              (deps_met-All old t.dependency_ids (deps_met-Promoted old ts t.dependency_ids p m));
      }

  row-edges :
      (k : ℕ) (t : TaskSpec) → lookup k old ≡ some t → deps (graph_of old) t.id ≡ t.dependency_ids
  row-edges k t e = rw (sound.keyed k t e) (deps-graph_of k old e)

  gather-MayRun :
      (rest : Tasks) (found : List TaskSpec) (ts : Tasks)
      → All (λ row. lookup row.0 old ≡ some row.1) rest
      → All (MayRun old) found
      → Promoted old ts
      → All (MayRun old) (gather rest found ts).0 × Promoted old (gather rest found ts).1
  gather-MayRun [] found ts r a p = unfold gather in (a, p)
  gather-MayRun ((k, t) ∷ rest) found ts r a p =
      elim (Bool-cases (is_waiting t.status && deps_met ts t.dependency_ids)) [
        | inr e ↦ rw (gather-skip k t rest found ts e) (gather-MayRun rest found ts r.1 a p)
        | inl e ↦ rw (gather-keep k t rest found ts e) (
            gather-MayRun rest (found ++ promote t ∷ []) (promote_in t ts) r.1
              (All-append (MayRun old) found (promote t) a
                (promote-MayRun k t ts r.0 p (and-true _ _ e).0 (and-true _ _ e).1))
              (promote_in-Promoted old ts t (row-edges k t r.0) p))
      ]

  gather-rows :
      All (MayRun old) (gather (rows old) [] old).0 × Promoted old (gather (rows old) [] old).1
  gather-rows =
      gather-MayRun (rows old) [] old (rows-lookup old) tt
        (record { sound = sound; edges = λ n. refl; met = λ d m. m })

  pub gather-All : All (MayRun old) (gather (rows old) [] old).0
  gather-All = gather-rows.0

  pub gather-Sound : Sound (gather (rows old) [] old).1
  gather-Sound = gather-rows.1.sound
