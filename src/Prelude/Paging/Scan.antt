-- ===== src/Prelude/Paging/Scan.antt =====
-- The loop over the pages against one search of the whole query.
use swarmai.Prelude.{
  ℕ, zero, suc, ◌-◌, ◌<◌, ◌≡◌, refl, sym, ap, ◌∙◌, inl, inr, Bool, true, false, Option, none, some,
  List, [], ◌∷◌, ◌++◌, arith, ltb, if◌then◌else◌, Bool-cases, Option-cases, length, take, drop,
  keep,
}
use mathlib.Core.List.{append_assoc}
use swarmai.Prelude.Paging.{find, last_or, rows_after, scan_page, scan, IsSorted, rows_after-middle}

module _ {ℓ} {A : Type ℓ} where
  abbrev init_of : A → List A → List A
  init_of x [] = []
  init_of x (y ∷ ys) = x ∷ init_of y ys

  init-last : (x : A) (xs : List A) → init_of x xs ++ last_or x xs ∷ [] ≡ x ∷ xs
  init-last x [] = refl
  init-last x (y ∷ ys) = ap (λ r. x ∷ r) (init-last y ys)

  take-append-drop : (n : ℕ) (xs : List A) → take n xs ++ drop n xs ≡ xs
  take-append-drop zero xs = refl
  take-append-drop (suc n) [] = refl
  take-append-drop (suc n) (x ∷ xs) = ap (λ r. x ∷ r) (take-append-drop n xs)

  take_short : (n : ℕ) (xs : List A) → length (take n xs) < n → take n xs ≡ xs
  take_short zero xs h = absurd (omega arith)
  take_short (suc n) [] h = refl
  take_short (suc n) (x ∷ xs) h = ap (λ r. x ∷ r) (take_short n xs (omega arith))

  length-drop : (n : ℕ) (xs : List A) → length (drop n xs) ≡ length xs - n
  length-drop zero xs = omega arith
  length-drop (suc n) [] = omega arith
  length-drop (suc n) (x ∷ xs) = omega (arith, length-drop n xs)

  find-append_none :
      (p : A → Bool) (xs ys : List A) → find p xs ≡ none → find p (xs ++ ys) ≡ find p ys
  unfolding find
  find-append_none p [] ys h = refl
  find-append_none p (x ∷ xs) ys h = ground (arith, find-append_none p xs ys)

  find-append_some :
      (p : A → Bool) (xs ys : List A) {a : A} → find p xs ≡ some a → find p (xs ++ ys) ≡ some a
  unfolding find
  find-append_some p [] ys h = cc
  find-append_some p (x ∷ xs) ys {a = a} h = ground (arith, find-append_some p xs ys {a = a})

  -- A page decides the search, or leaves it to the rows behind the page.
  find-page_some :
      (p : A → Bool) (n : ℕ) (xs : List A) {a : A}
      → find p (take n xs) ≡ some a
      → find p xs ≡ some a
  find-page_some p n xs {a = a} h =
      rw (take-append-drop n xs) at (find-append_some p (take n xs) (drop n xs) {a = a} h)

  find-page_none :
      (p : A → Bool) (n : ℕ) (xs : List A)
      → find p (take n xs) ≡ none
      → find p (drop n xs) ≡ find p xs
  find-page_none p n xs h =
      rw (take-append-drop n xs) at (sym (find-append_none p (take n xs) (drop n xs) h))

module _ {ℓ} {A : Type ℓ} (before : A → A → Bool)
    (trans : (x y z : A) → before x y ≡ true → before y z ≡ true → before x z ≡ true)
    (irrefl : (x : A) → before x x ≡ false) where
  regroup :
      (pre : List A) (x : A) (xs R : List A)
      → pre ++ (x ∷ xs ++ R) ≡ (pre ++ init_of x xs) ++ last_or x xs ∷ R
  regroup pre x xs R = ap (λ c. pre ++ (c ++ R)) (sym (init-last x xs)) ∙ simp append_assoc

  -- Behind the last row of a page come the rows that the page left.
  rows_after-page :
      (pre : List A) (x : A) (xs R : List A)
      → IsSorted before (pre ++ (x ∷ xs ++ R))
      → keep (before (last_or x xs)) (pre ++ (x ∷ xs ++ R)) ≡ R
  rows_after-page pre x xs R s =
      let e = regroup pre x xs R in
      rw e
        (rows_after-middle before trans irrefl (pre ++ init_of x xs) (last_or x xs) R (rw e at s))

  -- A round ends the search, or hands it to the rest.
  scan_page-some :
      (p : A → Bool) (n : ℕ) (x : A) (xs : List A) (rest : Option A) {a : A}
      → find p (x ∷ xs) ≡ some a
      → scan_page before p n (x ∷ xs) rest ≡ some a
  scan_page-some p n x xs rest h = rw (h, scan_page) refl

  scan_page-none :
      (p : A → Bool) (n : ℕ) (x : A) (xs : List A) (rest : Option A)
      → find p (x ∷ xs) ≡ none
      → scan_page before p n (x ∷ xs) rest ≡ (if ltb (length (x ∷ xs)) n then none else rest)
  scan_page-none p n x xs rest h = rw (h, scan_page) refl

  -- In pages of any size, with enough fuel, the loop over ordered rows returns the first row that
  -- passes the test.
  pub scan-eq-find :
      (fuel n : ℕ) (p : A → Bool) (pre R : List A) (after : Option A) (rows : List A)
      → 0 < n
      → IsSorted before rows
      → rows ≡ pre ++ R
      → rows_after before after rows ≡ R
      → length R < fuel
      → scan before fuel n p after rows ≡ find p R
  unfolding scan
  scan-eq-find zero n p pre R after rows h s e r f = absurd (omega arith)
  scan-eq-find (suc fuel) zero p pre R after rows h s e r f = absurd (omega arith)
  scan-eq-find (suc fuel) (suc n) p pre [] after rows h s e r f = unfold find in rw r
  scan-eq-find (suc fuel) (suc n) p pre (x ∷ xs) after rows h s e r f =
      let e' : rows ≡ pre ++ (x ∷ take n xs ++ drop n xs) =
        e ∙ ap (λ c. pre ++ c) (sym (take-append-drop (suc n) (x ∷ xs))) in
      rw r (elim (Option-cases (find p (x ∷ take n xs))) [
        | inr (a, found) ↦
            scan_page-some p (suc n) x (take n xs) _ found
            ∙ sym (find-page_some p (suc n) (x ∷ xs) found)
        | inl missed ↦
            scan_page-none p (suc n) x (take n xs) _ missed
            ∙ elim (Bool-cases (ltb (length (x ∷ take n xs)) (suc n))) [
              | inl short ↦
                  rw short (sym missed ∙ ap (find p) (take_short (suc n) (x ∷ xs) (ground arith)))
              | inr full ↦ rw full (
                  scan-eq-find fuel (suc n) p (pre ++ take (suc n) (x ∷ xs)) (drop n xs)
                    (some (last_or x (take n xs))) rows h s (e' ∙ simp append_assoc)
                    (rw e' (rows_after-page pre x (take n xs) (drop n xs) (rw e' at s)))
                    (omega (arith, length-drop n xs))
                  ∙ find-page_none p (suc n) (x ∷ xs) missed)
            ]
      ])
