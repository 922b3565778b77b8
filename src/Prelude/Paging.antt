-- ===== src/Prelude/Paging.antt =====
-- Queries with an order and a limit, and keyset pagination over them.
use Prim.Native.Nat.{ℕ, zero, suc}
pub mod Scan
pub mod Sound
use mathlib.Core.Path.{◌≡◌, refl, ap}
use mathlib.Core.Logic.{inl, inr}
use mathlib.Core.Bool.{Bool, true, false, ◌||◌}
use mathlib.Core.Option.{Option, none, some}
use mathlib.Core.List.{List, [], ◌∷◌, ◌++◌}
use native.Mathlib.Omega.{arith}
use swarmai.Prelude.Tests.{ltb, if◌then◌else◌, Bool-cases}
use swarmai.Prelude.Lists.{length, take, keep, All}

module _ {ℓ} {A : Type ℓ} where
  -- The first element that passes the test.
  unfoldable pub find : (A → Bool) → List A → Option A
  find p [] = none
  find p (x ∷ xs) = if p x then some x else find p xs

  -- The last element, or the default.
  abbrev pub last_or : A → List A → A
  last_or d [] = d
  last_or d (x ∷ xs) = last_or x xs

module _ {ℓ} {A : Type ℓ} (before : A → A → Bool) where
  unfoldable pub insert_sorted : A → List A → List A
  insert_sorted x [] = x ∷ []
  insert_sorted x (y ∷ ys) = if before y x then y ∷ insert_sorted x ys else x ∷ y ∷ ys

  -- `ORDER BY`
  unfoldable pub order_by : List A → List A
  unfolding insert_sorted
  order_by [] = []
  order_by (x ∷ xs) = insert_sorted x (order_by xs)

  -- The rows behind a key, if there is one: `WHERE row > after`.
  abbrev pub rows_after : Option A → List A → List A
  rows_after none rows = rows
  rows_after (some k) rows = keep (before k) rows

  -- One page: `WHERE row > after ORDER BY … LIMIT n`, over rows that are in order.
  abbrev pub page : ℕ → Option A → List A → List A
  page n after rows = take n (rows_after after rows)

  -- One round of the loop on a page of candidates; `rest` is what the later rounds return.
  abbrev pub scan_page : (A → Bool) → ℕ → List A → Option A → Option A
  scan_page p n [] rest = none
  scan_page p n (x ∷ xs) rest = elim (find p (x ∷ xs)) [
    | some y ↦ some y
    | none ↦ if ltb (length (x ∷ xs)) n then none else rest
  ]

  abbrev pub last_key : Option A → List A → Option A
  last_key after [] = after
  last_key after (x ∷ xs) = some (last_or x xs)

  -- The loop over the pages, on fuel.
  unfoldable pub scan : ℕ → ℕ → (A → Bool) → Option A → List A → Option A
  scan zero n p after rows = none
  scan (suc fuel) n p after rows =
      let rest = scan fuel n p (last_key after (page n after rows)) rows in
      scan_page p n (page n after rows) rest

  abbrev pub IsSorted : List A → Type 0
  IsSorted [] = Unit
  IsSorted (x ∷ xs) = All (λ y. before x y ≡ true) xs × IsSorted xs

  -- Any two elements are comparable.
  abbrev pub AreDistinct : List A → Type 0
  AreDistinct [] = Unit
  AreDistinct (x ∷ xs) = All (λ y. (before x y || before y x) ≡ true) xs × AreDistinct xs

  module _ (trans : (x y z : A) → before x y ≡ true → before y z ≡ true → before x z ≡ true)
      (irrefl : (x : A) → before x x ≡ false) where
    All-before :
        (x y : A) (ys : List A)
        → before x y ≡ true
        → All (λ z. before y z ≡ true) ys
        → All (λ z. before x z ≡ true) ys
    All-before x y [] h a = tt
    All-before x y (z ∷ ys) h a = (trans x y z h a.0, All-before x y ys h a.1)

    All-insert_sorted {κ} :
        (P : A → Type κ) (x : A) (ys : List A) → P x → All P ys → All P (insert_sorted x ys)
    unfolding insert_sorted
    All-insert_sorted P x [] h a = (h, tt)
    All-insert_sorted P x (y ∷ ys) h a = elim (Bool-cases (before y x)) [
      | inl e ↦ rw e (a.0, All-insert_sorted P x ys h a.1)
      | inr e ↦ rw e (h, a)
    ]

    All-order_by {κ} : (P : A → Type κ) (ys : List A) → All P ys → All P (order_by ys)
    unfolding order_by
    All-order_by P [] a = tt
    All-order_by P (y ∷ ys) a = All-insert_sorted P y (order_by ys) a.0 (All-order_by P ys a.1)

    insert_sorted-IsSorted :
        (x : A) (ys : List A)
        → All (λ y. (before x y || before y x) ≡ true) ys
        → IsSorted ys
        → IsSorted (insert_sorted x ys)
    unfolding insert_sorted
    insert_sorted-IsSorted x [] c s = (tt, tt)
    insert_sorted-IsSorted x (y ∷ ys) c s = elim (Bool-cases (before y x)) [
      | inl e ↦ rw e (
        All-insert_sorted (λ z. before y z ≡ true) x ys e s.0,
        insert_sorted-IsSorted x ys c.1 s.1,
      )
      | inr e ↦
          let h : before x y ≡ true = ground (arith, c.0) in rw e ((h, All-before x y ys h s.0), s)
    ]

    -- Rows with distinct keys are put in order.
    pub order_by-IsSorted : (xs : List A) → AreDistinct xs → IsSorted (order_by xs)
    unfolding order_by
    order_by-IsSorted [] d = tt
    order_by-IsSorted (x ∷ xs) d =
        insert_sorted-IsSorted x (order_by xs)
          (All-order_by (λ y. (before x y || before y x) ≡ true) xs d.0) (order_by-IsSorted xs d.1)

    keep_below : (z : A) (ys : List A) → All (λ y. before z y ≡ true) ys → keep (before z) ys ≡ ys
    unfolding keep
    keep_below z [] a = refl
    keep_below z (y ∷ ys) a = rw a.0 (ap (λ r. y ∷ r) (keep_below z ys a.1))

    All-middle {κ} :
        (P : A → Type κ) (xs : List A) (z : A) (ys : List A) → All P (xs ++ z ∷ ys) → P z
    All-middle P [] z ys a = a.0
    All-middle P (x ∷ xs) z ys a = All-middle P xs z ys a.1

    asymmetric : (x z : A) → before x z ≡ true → before z x ≡ false
    asymmetric x z h = elim (Bool-cases (before z x)) [
      | inl e ↦ cc (trans x z x h e, irrefl x)
      | inr e ↦ e
    ]

    -- The rows behind a row of an ordered list are those that follow it.
    rows_after-middle :
        (xs : List A) (z : A) (ys : List A)
        → IsSorted (xs ++ z ∷ ys)
        → keep (before z) (xs ++ z ∷ ys) ≡ ys
    unfolding keep
    rows_after-middle [] z ys s = rw (irrefl z) (keep_below z ys s.0)
    rows_after-middle (x ∷ xs) z ys s =
        rw (asymmetric x z (All-middle (λ y. before x y ≡ true) xs z ys s.0))
          (rows_after-middle xs z ys s.1)
