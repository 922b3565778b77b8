-- ===== src/Prelude/Tables.antt =====
-- A database table, or a dict: rows under their primary keys, in the order of insertion.
use Prim.Native.Nat.{ℕ}
use mathlib.Core.Path.{◌≡◌, refl}
use mathlib.Core.Bool.{Bool, false, ◌||◌}
use mathlib.Core.Option.{Option, none, some}
use mathlib.Core.List.{List, [], ◌∷◌}
use native.Mathlib.Omega.{arith}
use swarmai.Prelude.Tests.{◌==◌, if◌then◌else◌}

abbrev pub Table {ℓ} : Type ℓ → Type ℓ
Table V = List (ℕ × V)

-- Does an optional row satisfy the condition?
abbrev pub row_satisfies {ℓ} : {V : Type ℓ} → (V → Bool) → Option V → Bool
row_satisfies p none = false
row_satisfies p (some v) = p v

unfoldable pub without_key : ℕ → List ℕ → List ℕ
without_key k [] = []
without_key k (j ∷ ks) = let rest = without_key k ks in if k == j then rest else j ∷ rest

module _ {ℓ} {V : Type ℓ} where
  -- `session.get(Row, key)`, `d.get(key)`
  unfoldable pub lookup : ℕ → Table V → Option V
  lookup k [] = none
  lookup k ((j, v) ∷ t) = if j == k then some v else lookup k t

  -- The insertion of a row, or the writing of a row that is there.
  unfoldable pub put : ℕ → V → Table V → Table V
  put k v [] = (k, v) ∷ []
  put k v ((j, w) ∷ t) = if j == k then (k, v) ∷ t else (j, w) ∷ put k v t

  pub lookup-put :
      (j k : ℕ) (v : V) (t : Table V)
      → lookup j (put k v t) ≡ (if k == j then some v else lookup j t)
  unfolding lookup put
  lookup-put j k v [] = refl
  lookup-put j k v ((i, w) ∷ t) = ground (arith, lookup-put j k v t)

  -- The primary keys, each once. Of two entries with one key only the first is a row; `put` never
  -- makes a second.
  unfoldable pub keys : Table V → List ℕ
  unfolding without_key
  keys [] = []
  keys ((j, v) ∷ t) = j ∷ without_key j (keys t)

  -- The rows under these keys, and all rows.
  unfoldable pub rows_among : List ℕ → Table V → Table V
  rows_among [] t = []
  rows_among (k ∷ ks) t =
      let rest = rows_among ks t in elim (lookup k t) [ none ↦ rest | some v ↦ (k, v) ∷ rest ]

  unfoldable pub rows : Table V → Table V
  unfolding keys rows_among
  rows t = rows_among (keys t) t

  -- Is there a row that satisfies the condition, among these keys of the table?
  unfoldable pub any_among : (V → Bool) → List ℕ → Table V → Bool
  any_among p [] t = false
  any_among p (k ∷ ks) t = row_satisfies p (lookup k t) || any_among p ks t

  -- `select(...).where(p).limit(1)` finds a row.
  unfoldable pub any_row : (V → Bool) → Table V → Bool
  unfolding any_among
  any_row p t = any_among p (keys t) t

  -- The keys of the rows that satisfy the condition, among these keys.
  unfoldable pub select_among : (V → Bool) → List ℕ → Table V → List ℕ
  select_among p [] t = []
  select_among p (k ∷ ks) t =
      let rest = select_among p ks t in if row_satisfies p (lookup k t) then k ∷ rest else rest

  -- `select(...).where(p)`, as the keys of the rows.
  unfoldable pub select : (V → Bool) → Table V → List ℕ
  unfolding select_among
  select p t = select_among p (keys t) t
