-- ===== src/Prelude/Paging/Sound.antt =====
-- About what the loop over the pages returns, whatever the order of the rows.
use swarmai.Prelude.{
  ℕ, zero, suc, ◌≡◌, inl, inr, Bool, true, Option, some, List, [], ◌∷◌, arith, Option-cases,
}
use swarmai.Prelude.Paging.{find, scan, scan_page, page, last_key}

module _ {ℓ} {A : Type ℓ} where
  pub find_sound : (p : A → Bool) (xs : List A) {a : A} → find p xs ≡ some a → p a ≡ true
  unfolding find
  find_sound p [] h = cc
  find_sound p (x ∷ xs) {a = a} h = ground (arith, find_sound p xs {a = a})

  scan_page_sound :
      (before : A → A → Bool) (p : A → Bool) (n : ℕ) (xs : List A) (rest : Option A) (a : A)
      → scan_page before p n xs rest ≡ some a
      → (rest ≡ some a → p a ≡ true)
      → p a ≡ true
  scan_page_sound before p n [] rest a h later = cc
  scan_page_sound before p n (x ∷ xs) rest a h later = elim (Option-cases (find p (x ∷ xs))) [
    | inl missed ↦ ground arith
    | inr (b, found) ↦ ground (arith, find_sound p (x ∷ xs) {a = b} found)
  ]

  pub scan_sound :
      (before : A → A → Bool) (fuel n : ℕ) (p : A → Bool) (after : Option A) (rows : List A) {a : A}
      → scan before fuel n p after rows ≡ some a
      → p a ≡ true
  unfolding scan
  scan_sound before zero n p after rows h = cc
  scan_sound before (suc fuel) n p after rows {a = a} h =
      scan_page_sound before p n (page before n after rows) _ a h
        (scan_sound before fuel n p (last_key before after (page before n after rows)) rows {a = a})
