-- ===== src/Prelude/Queries.antt =====
-- What the queries of a table find.
use Prim.Native.Nat.{ℕ}
use mathlib.Core.Path.{◌≡◌}
use mathlib.Core.Bool.{Bool, true, false, not, ◌&&◌}
use swarmai.Prelude.Tests.{◌==◌}
use mathlib.Core.Option.{some}
use mathlib.Core.List.{List, [], ◌∷◌}
use native.Mathlib.Omega.{arith}
use swarmai.Prelude.Lists.{contains}
use swarmai.Prelude.Tables.{
  Table, without_key, row_satisfies, lookup, keys, any_among, any_row, select_among, select,
}

pub contains-without_key :
    (k j : ℕ) (ks : List ℕ) → contains k (without_key j ks) ≡ (not (k == j) && contains k ks)
unfolding without_key
contains-without_key k j [] = ground arith
contains-without_key k j (i ∷ ks) = ground (arith, contains-without_key k j ks)

module _ {ℓ} {V : Type ℓ} where
  pub contains-keys :
      (k : ℕ) {v : V} (t : Table V) → lookup k t ≡ some v → contains k (keys t) ≡ true
  unfolding lookup keys
  contains-keys k [] h = cc
  contains-keys k {v = v} ((j, w) ∷ t) h =
      ground (arith, contains-keys k {v = v} t, contains-without_key k j (keys t))

  any_among-false :
      (p : V → Bool) (k : ℕ) (ks : List ℕ) (t : Table V)
      → any_among p ks t ≡ false
      → contains k ks ≡ true
      → row_satisfies p (lookup k t) ≡ false
  unfolding any_among
  any_among-false p k [] t h c = cc
  any_among-false p k (j ∷ ks) t h c = ground (arith, any_among-false p k ks t)

  -- A search that finds nothing has excluded every row.
  pub any_row-false :
      (p : V → Bool) (k : ℕ) {v : V} (t : Table V)
      → any_row p t ≡ false
      → lookup k t ≡ some v
      → p v ≡ false
  unfolding any_row
  any_row-false p k t h e = ground (arith, any_among-false p k (keys t) t h (contains-keys k t e))

  select_among_sound :
      (p : V → Bool) (k : ℕ) (ks : List ℕ) (t : Table V)
      → contains k (select_among p ks t) ≡ true
      → row_satisfies p (lookup k t) ≡ true
  unfolding select_among
  select_among_sound p k [] t h = cc
  select_among_sound p k (j ∷ ks) t h = ground (arith, select_among_sound p k ks t)

  pub select_sound :
      (p : V → Bool) (k : ℕ) (t : Table V)
      → contains k (select p t) ≡ true
      → row_satisfies p (lookup k t) ≡ true
  unfolding select
  select_sound p k t h = select_among_sound p k (keys t) t h

  select_among_complete :
      (p : V → Bool) (k : ℕ) (ks : List ℕ) (t : Table V)
      → contains k ks ≡ true
      → row_satisfies p (lookup k t) ≡ true
      → contains k (select_among p ks t) ≡ true
  unfolding select_among
  select_among_complete p k [] t c h = cc
  select_among_complete p k (j ∷ ks) t c h = ground (arith, select_among_complete p k ks t)

  pub select_complete :
      (p : V → Bool) (k : ℕ) {v : V} (t : Table V)
      → lookup k t ≡ some v
      → p v ≡ true
      → contains k (select p t) ≡ true
  unfolding select
  select_complete p k t e h =
      select_among_complete p k (keys t) t (contains-keys k t e) (ground arith)
