-- ===== src/Prelude/Distinct.antt =====
-- Lists of distinct keys: what the queries return.
use swarmai.Prelude.{
  ℕ, zero, suc, ◌≡◌, refl, inl, inr, Bool, true, false, ◌&&◌, ◌||◌, none, some, List, [], ◌∷◌,
  arith, ◌==◌, contains, take, keep, Table, lookup, keys, without_key, rows_among, rows,
  select_among, select, contains-without_key, All, Option-cases, Bool-cases,
}
use swarmai.Prelude.Paging.{order_by, insert_sorted, AreDistinct}

abbrev pub Nodup : List ℕ → Type 0
Nodup [] = Unit
Nodup (x ∷ xs) = (contains x xs ≡ false) × Nodup xs

Nodup-without_key : (j : ℕ) (ks : List ℕ) → Nodup ks → Nodup (without_key j ks)
unfolding without_key
Nodup-without_key j [] h = tt
Nodup-without_key j (i ∷ ks) h =
    ground (arith, Nodup-without_key j ks h.1, contains-without_key i j ks)

pub Nodup-keys {ℓ} : {V : Type ℓ} (t : Table V) → Nodup (keys t)
unfolding keys
Nodup-keys [] = tt
Nodup-keys ((j, v) ∷ t) =
    (ground (arith, contains-without_key j j (keys t)), Nodup-without_key j (keys t) (Nodup-keys t))

module _ {ℓ} {V : Type ℓ} where
  contains-select_among :
      (p : V → Bool) (k : ℕ) (ks : List ℕ) (t : Table V)
      → contains k ks ≡ false
      → contains k (select_among p ks t) ≡ false
  unfolding select_among
  contains-select_among p k [] t h = refl
  contains-select_among p k (j ∷ ks) t h = ground (arith, contains-select_among p k ks t)

  Nodup-select_among :
      (p : V → Bool) (ks : List ℕ) (t : Table V) → Nodup ks → Nodup (select_among p ks t)
  unfolding select_among
  Nodup-select_among p [] t h = tt
  Nodup-select_among p (k ∷ ks) t h =
      ground (arith, Nodup-select_among p ks t h.1, contains-select_among p k ks t h.0)

  pub Nodup-select : (p : V → Bool) (t : Table V) → Nodup (select p t)
  unfolding select
  Nodup-select p t = Nodup-select_among p (keys t) t (Nodup-keys t)

-- A part of a list of distinct keys is one.
pub contains-keep :
    (p : ℕ → Bool) (k : ℕ) (ks : List ℕ) → contains k (keep p ks) ≡ (p k && contains k ks)
unfolding keep
contains-keep p k [] = ground arith
contains-keep p k (j ∷ ks) = ground (arith, contains-keep p k ks)

pub Nodup-keep : (p : ℕ → Bool) (ks : List ℕ) → Nodup ks → Nodup (keep p ks)
unfolding keep
Nodup-keep p [] h = tt
Nodup-keep p (k ∷ ks) h = ground (arith, Nodup-keep p ks h.1, contains-keep p k ks)

pub contains-take : (n k : ℕ) (ks : List ℕ) → contains k ks ≡ false → contains k (take n ks) ≡ false
contains-take zero k ks h = refl
contains-take (suc n) k [] h = refl
contains-take (suc n) k (j ∷ ks) h = ground (arith, contains-take n k ks)

pub Nodup-take : (n : ℕ) (ks : List ℕ) → Nodup ks → Nodup (take n ks)
Nodup-take zero ks h = tt
Nodup-take (suc n) [] h = tt
Nodup-take (suc n) (k ∷ ks) h = (contains-take n k ks h.0, Nodup-take n ks h.1)

contains-insert_sorted :
    (before : ℕ → ℕ → Bool) (k x : ℕ) (ks : List ℕ)
    → contains k (insert_sorted before x ks) ≡ (k == x || contains k ks)
unfolding insert_sorted
contains-insert_sorted before k x [] = refl
contains-insert_sorted before k x (j ∷ ks) = ground (arith, contains-insert_sorted before k x ks)

pub contains-order_by :
    (before : ℕ → ℕ → Bool) (k : ℕ) (ks : List ℕ) → contains k (order_by before ks) ≡ contains k ks
unfolding order_by
contains-order_by before k [] = refl
contains-order_by before k (j ∷ ks) =
    ground
      (arith, contains-insert_sorted before k j (order_by before ks), contains-order_by before k ks)

Nodup-insert_sorted :
    (before : ℕ → ℕ → Bool) (x : ℕ) (ks : List ℕ)
    → contains x ks ≡ false
    → Nodup ks
    → Nodup (insert_sorted before x ks)
unfolding insert_sorted
Nodup-insert_sorted before x [] c h = (refl, tt)
Nodup-insert_sorted before x (j ∷ ks) c h =
    ground (arith, Nodup-insert_sorted before x ks, contains-insert_sorted before j x ks)

pub Nodup-order_by : (before : ℕ → ℕ → Bool) (ks : List ℕ) → Nodup ks → Nodup (order_by before ks)
unfolding order_by
Nodup-order_by before [] h = tt
Nodup-order_by before (k ∷ ks) h =
    Nodup-insert_sorted before k (order_by before ks)
      (ground (arith, contains-order_by before k ks)) (Nodup-order_by before ks h.1)

pub keep-true {ℓ} :
    {A : Type ℓ} (p : A → Bool) (x : A) (xs : List A) → p x ≡ true → keep p (x ∷ xs) ≡ x ∷ keep p xs
unfolding keep
keep-true p x xs h = rw h

pub keep-false {ℓ} :
    {A : Type ℓ} (p : A → Bool) (x : A) (xs : List A) → p x ≡ false → keep p (x ∷ xs) ≡ keep p xs
unfolding keep
keep-false p x xs h = rw h

module _ {ℓ} {V : Type ℓ} (k : ℕ) (ks : List ℕ) (t : Table V) where
  pub row-none : lookup k t ≡ none → rows_among (k ∷ ks) t ≡ rows_among ks t
  unfolding rows_among
  row-none e = rw (e, rows_among)

  pub row-some : {v : V} → lookup k t ≡ some v → rows_among (k ∷ ks) t ≡ (k, v) ∷ rows_among ks t
  unfolding rows_among
  row-some e = rw (e, rows_among)

-- The rows of a table have distinct keys, so any order that tells keys apart tells rows apart.
module _ {ℓ} {V : Type ℓ} (before : ℕ × V → ℕ × V → Bool)
    (total : (i j : ℕ) (v w : V)
      → (i == j) ≡ false
      → (before (i, v) (j, w) || before (j, w) (i, v)) ≡ true) where
  apart_from_rest :
      (p : ℕ × V → Bool) (k : ℕ) (v : V) (ks : List ℕ) (t : Table V)
      → contains k ks ≡ false
      → All (λ y. (before (k, v) y || before y (k, v)) ≡ true) (keep p (rows_among ks t))
  apart_from_rest p k v [] t h = unfold rows_among keep in tt
  apart_from_rest p k v (j ∷ ks) t h =
      let rest = apart_from_rest p k v ks t (ground arith) in
      elim (Option-cases (lookup j t)) [
        | inl e ↦ rw (row-none j ks t e) rest
        | inr (w, e) ↦ rw (row-some j ks t e) (elim (Bool-cases (p (j, w))) [
          | inl kept ↦
              rw (keep-true p (j, w) (rows_among ks t) kept) (total k j v w (ground arith), rest)
          | inr dropped ↦ rw (keep-false p (j, w) (rows_among ks t) dropped) rest
        ])
      ]

  rows_among-AreDistinct :
      (p : ℕ × V → Bool) (ks : List ℕ) (t : Table V)
      → Nodup ks
      → AreDistinct before (keep p (rows_among ks t))
  rows_among-AreDistinct p [] t h = unfold rows_among keep in tt
  rows_among-AreDistinct p (k ∷ ks) t h =
      let rest = rows_among-AreDistinct p ks t h.1 in
      elim (Option-cases (lookup k t)) [
        | inl e ↦ rw (row-none k ks t e) rest
        | inr (w, e) ↦ rw (row-some k ks t e) (elim (Bool-cases (p (k, w))) [
          | inl kept ↦
              rw (keep-true p (k, w) (rows_among ks t) kept) (apart_from_rest p k w ks t h.0, rest)
          | inr dropped ↦ rw (keep-false p (k, w) (rows_among ks t) dropped) rest
        ])
      ]

  pub rows-AreDistinct : (p : ℕ × V → Bool) (t : Table V) → AreDistinct before (keep p (rows t))
  unfolding rows
  rows-AreDistinct p t = rows_among-AreDistinct p (keys t) t (Nodup-keys t)
