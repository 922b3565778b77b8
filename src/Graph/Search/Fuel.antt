-- ===== src/Graph/Search/Fuel.antt =====
-- The search ends.
use swarmai.Prelude.{
  ℕ, zero, suc, ◌≤◌, ◌<◌, ◌≡◌, refl, ◌∙◌, ap, inl, inr, true, false, none, some, List, [], ◌∷◌,
  if◌then◌else◌, contains, contains-keys, without_key, keys, length, lookup, arith, Bool-cases,
  Option-cases, is_some,
}
use swarmai.Graph.Walks.{Graph, deps}
use swarmai.Graph.Search.{Marks, Found, after_first, any_of, leave, enter, dfs, search_graph}

-- The tasks that are not being visited.
unfoldable left : List ℕ → List ℕ → ℕ
left [] visiting = 0
left (k ∷ ks) visiting =
    let rest = left ks visiting in if contains k visiting then rest else suc rest

left-bound : (ks visiting : List ℕ) → left ks visiting ≤ length ks
unfolding left
left-bound [] visiting = omega arith
left-bound (k ∷ ks) visiting = ground (arith, left-bound ks visiting)

left-enter_le : (ks visiting : List ℕ) (n : ℕ) → left ks (n ∷ visiting) ≤ left ks visiting
unfolding left
left-enter_le [] visiting n = omega arith
left-enter_le (k ∷ ks) visiting n = ground (arith, left-enter_le ks visiting n)

left-enter_lt :
    (ks visiting : List ℕ) (n : ℕ)
    → contains n ks ≡ true
    → contains n visiting ≡ false
    → left ks (n ∷ visiting) < left ks visiting
unfolding left
left-enter_lt [] visiting n c h = cc
left-enter_lt (k ∷ ks) visiting n c h =
    ground (arith, c, h, left-enter_le ks visiting n, left-enter_lt ks visiting n)

-- A search that has met no cycle leaves the set `visiting` as it found it.
abbrev pub Restores : Marks → Found → Type 0
Restores m none = Unit
Restores m (some (true, m')) = Unit
Restores m (some (false, m')) = m'.visiting ≡ m.visiting

without_key-absent : (k : ℕ) (ks : List ℕ) → contains k ks ≡ false → without_key k ks ≡ ks
unfolding without_key
without_key-absent k [] h = refl
without_key-absent k (j ∷ ks) h = ground (arith, h, without_key-absent k ks)

without_key-cons : (k : ℕ) (ks : List ℕ) → contains k ks ≡ false → without_key k (k ∷ ks) ≡ ks
unfolding without_key
without_key-cons k ks h = ground (arith, without_key-absent k ks h)

after_first-Restores :
    (m : Marks) (later : Marks → Found) (o : Found)
    → Restores m o
    → ((m' : Marks) → m'.visiting ≡ m.visiting → Restores m' (later m'))
    → Restores m (after_first later o)
after_first-Restores m later none h f = tt
after_first-Restores m later (some (true, m')) h f = tt
after_first-Restores m later (some (false, m')) h f = same (later m') (f m' h)
  where
    same : (o : Found) → Restores m' o → Restores m o
    same none r = tt
    same (some (true, _)) r = tt
    same (some (false, m2)) r = r ∙ h

any_of-Restores :
    (go : ℕ → Marks → Found) (ns : List ℕ) (m : Marks)
    → ((n : ℕ) (m : Marks) → Restores m (go n m))
    → Restores m (any_of go ns m)
unfolding any_of
any_of-Restores go [] m h = refl
any_of-Restores go (n ∷ ns) m h =
    after_first-Restores m (any_of go ns) (go n m) (h n m) (λ m' e. any_of-Restores go ns m' h)

leave-Restores :
    (node : ℕ) (m : Marks) (o : Found)
    → contains node m.visiting ≡ false
    → Restores (enter node m) o
    → Restores m (leave node o)
leave-Restores node m none h r = tt
leave-Restores node m (some (true, m')) h r = tt
leave-Restores node m (some (false, m')) h r =
    ap (without_key node) r ∙ without_key-cons node m.visiting h

pub dfs-Restores : (g : Graph) (fuel node : ℕ) (m : Marks) → Restores m (dfs g fuel node m)
unfolding dfs
dfs-Restores g zero node m = tt
dfs-Restores g (suc fuel) node m = elim (Bool-cases (contains node m.visiting)) [
  | inl seen ↦ rw (seen, dfs) tt
  | inr new ↦
      rw (new, dfs)
        (elim (Bool-cases (contains node m.visited)) [
          | inl done ↦ rw done refl
          | inr open_node ↦ rw open_node (
              leave-Restores node m _ new
                (any_of-Restores (dfs g fuel) (deps g node) (enter node m) (dfs-Restores g fuel)))
        ])
]

-- A node that is no task has no dependencies.
pub deps-absent : (g : Graph) (n : ℕ) → contains n (keys g) ≡ false → deps g n ≡ []
unfolding deps
deps-absent g n h = elim (Option-cases (lookup n g)) [
  | inl e ↦ rw e refl
  | inr (ds, e) ↦ cc (contains-keys n g e)
]

abbrev Returns : Found → Type 0
Returns o = is_some o ≡ true

after_first-Returns :
    (m : Marks) (later : Marks → Found) (o : Found)
    → Returns o
    → Restores m o
    → ((m' : Marks) → m'.visiting ≡ m.visiting → Returns (later m'))
    → Returns (after_first later o)
after_first-Returns m later none h r f = cc
after_first-Returns m later (some (true, m')) h r f = refl
after_first-Returns m later (some (false, m')) h r f = f m' r

leave-Returns : (node : ℕ) (o : Found) → Returns o → Returns (leave node o)
leave-Returns node none h = cc
leave-Returns node (some (true, m)) h = refl
leave-Returns node (some (false, m)) h = refl

-- The fuel is more than the number of tasks that are not being visited.
module _ (g : Graph) where
  any_of-Returns :
      (fuel : ℕ) (ns : List ℕ) (m : Marks)
      → ((n : ℕ) (m' : Marks) → m'.visiting ≡ m.visiting → Returns (dfs g fuel n m'))
      → Returns (any_of (dfs g fuel) ns m)
  unfolding any_of
  any_of-Returns fuel [] m h = refl
  any_of-Returns fuel (n ∷ ns) m h =
      after_first-Returns m (any_of (dfs g fuel) ns) (dfs g fuel n m) (h n m refl)
        (dfs-Restores g fuel n m) (λ m' e. any_of-Returns fuel ns m' (λ k m2 e2. h k m2 (e2 ∙ e)))

  dfs-Returns :
      (fuel node : ℕ) (m : Marks) → left (keys g) m.visiting < fuel → Returns (dfs g fuel node m)
  unfolding dfs
  dfs-Returns zero node m h = absurd (omega (arith, h))
  dfs-Returns (suc fuel) node m h = elim (Bool-cases (contains node m.visiting)) [
    | inl seen ↦ rw (seen, dfs) refl
    | inr new ↦
        rw (new, dfs)
          (elim (Bool-cases (contains node m.visited)) [
            | inl done ↦ rw done refl
            | inr open_node ↦ rw open_node (
                leave-Returns node _ (elim (Bool-cases (contains node (keys g))) [
                  | inl task ↦ any_of-Returns fuel (deps g node) (enter node m) (λ n m' e.
                      dfs-Returns fuel n m'
                        (rw e (omega (arith, h, left-enter_lt (keys g) m.visiting node task new))))
                  | inr leaf ↦ rw (deps-absent g node leaf) (unfold any_of in refl)
                ]))
          ])
  ]

-- The search for a cycle returns on every graph: with one unit of fuel more than there are tasks it
-- does not run out.
pub search_returns : (g : Graph) → is_some (search_graph g) ≡ true
unfolding search_graph
search_returns g = any_of-Returns g (suc (length (keys g))) (keys g) _ (λ n m e.
    dfs-Returns g (suc (length (keys g))) n m (omega (arith, left-bound (keys g) m.visiting)))
