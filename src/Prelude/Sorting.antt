-- ===== src/Prelude/Sorting.antt =====
-- Lists that are put in order, filtered and counted.
use swarmai.Prelude.{
  ℕ, ◌≡◌, refl, ◌∙◌, inl, inr, Bool, true, ◌&&◌, List, [], ◌∷◌, ◌++◌, length, keep, All, arith,
  Bool-cases,
}
use swarmai.Prelude.Paging.{insert_sorted, order_by}

pub All-insert_sorted {ℓ κ} :
    {A : Type ℓ} (before : A → A → Bool) (P : A → Type κ) (x : A) (ys : List A)
    → P x
    → All P ys
    → All P (insert_sorted before x ys)
unfolding insert_sorted
All-insert_sorted before P x [] h a = (h, tt)
All-insert_sorted before P x (y ∷ ys) h a = elim (Bool-cases (before y x)) [
  | inl e ↦ rw e (a.0, All-insert_sorted before P x ys h a.1)
  | inr e ↦ rw e (h, a)
]

pub All-order_by {ℓ κ} :
    {A : Type ℓ} (before : A → A → Bool) (P : A → Type κ) (xs : List A)
    → All P xs
    → All P (order_by before xs)
unfolding order_by
All-order_by before P [] a = tt
All-order_by before P (x ∷ xs) a =
    All-insert_sorted before P x (order_by before xs) a.0 (All-order_by before P xs a.1)

abbrev pub count {ℓ} : {A : Type ℓ} → (A → Bool) → List A → ℕ
count p xs = length (keep p xs)

pub count-insert_sorted {ℓ} :
    {A : Type ℓ} (before : A → A → Bool) (p : A → Bool) (x : A) (ys : List A)
    → count p (insert_sorted before x ys) ≡ count p (x ∷ ys)
unfolding insert_sorted keep
count-insert_sorted before p x [] = refl
count-insert_sorted before p x (y ∷ ys) = elim (Bool-cases (before y x)) [
  | inr e ↦ rw e refl
  | inl e ↦ rw e (ground (arith, count-insert_sorted before p x ys))
]

pub count-order_by {ℓ} :
    {A : Type ℓ} (before : A → A → Bool) (p : A → Bool) (xs : List A)
    → count p (order_by before xs) ≡ count p xs
unfolding order_by keep
count-order_by before p [] = refl
count-order_by before p (x ∷ xs) =
    count-insert_sorted before p x (order_by before xs) ∙ ground (arith, count-order_by before p xs)

pub All-append {ℓ κ} :
    {A : Type ℓ} (P : A → Type κ) (xs : List A) (y : A) → All P xs → P y → All P (xs ++ y ∷ [])
All-append P [] y a h = (h, tt)
All-append P (x ∷ xs) y a h = (a.0, All-append P xs y a.1 h)

pub All-keep {ℓ κ} :
    {A : Type ℓ} (P : A → Type κ) (p : A → Bool) (xs : List A)
    → All P xs
    → All (λ x. (p x ≡ true) × P x) (keep p xs)
unfolding keep
All-keep P p [] a = tt
All-keep P p (x ∷ xs) a = elim (Bool-cases (p x)) [
  | inl e ↦ rw e ((e, a.0), All-keep P p xs a.1)
  | inr e ↦ rw e (All-keep P p xs a.1)
]

pub count-keep {ℓ} :
    {A : Type ℓ} (p q : A → Bool) (xs : List A) → count p (keep q xs) ≡ count (λ x. q x && p x) xs
unfolding keep
count-keep p q [] = refl
count-keep p q (x ∷ xs) = elim (Bool-cases (q x)) [
  | inl e ↦ rw e (ground (arith, count-keep p q xs))
  | inr e ↦ rw e (count-keep p q xs)
]
