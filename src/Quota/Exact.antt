-- ===== src/Quota/Exact.antt =====
-- What the calls of the ledger do to every bucket.
use swarmai.Prelude.{
  ℕ, ◌+◌, ◌≡◌, refl, sym, ap, ◌∙◌, inl, inr, Option, none, some, List, [], ◌∷◌, ◌==◌, if◌then◌else◌,
  lookup, put, lookup-put, arith, ok, Option-cases, Bool-cases,
}
use swarmai.Quota.Buckets.{Buckets, Bucket, Amount, Config, requested}
use swarmai.Quota.Reserve.{
  ReserveCall, merge, preflight, hold, commit, reserve_merged, reserve, is_empty, give_back,
  give_back_all,
}
use swarmai.Quota.Granted.{on_row}

hold-zero : (b : Bucket) → hold 0 b ≡ b
unfolding hold
hold-zero b = ground arith

hold-hold : (m n : ℕ) (b : Bucket) → hold m (hold n b) ≡ hold (n + m) b
unfolding hold
hold-hold m n b = ground arith

on_row-hold-zero : (o : Option Bucket) → on_row (hold 0) o ≡ o
on_row-hold-zero none = refl
on_row-hold-zero (some b) = ap (λ x. some x) (hold-zero b)

on_row-hold-hold :
    (m n : ℕ) (o : Option Bucket) → on_row (hold m) (on_row (hold n) o) ≡ on_row (hold (n + m)) o
on_row-hold-hold m n none = refl
on_row-hold-hold m n (some b) = ap (λ x. some x) (hold-hold m n b)

commit_one-row :
    (a : Amount) (t : Buckets) (k : ℕ)
    → lookup k
        (elim (lookup a.bucket_id t) [ none ↦ t | some b ↦ put a.bucket_id (hold a.amount b) t ])
      ≡ (if a.bucket_id == k then on_row (hold a.amount) (lookup k t) else lookup k t)
commit_one-row a t k = elim (Option-cases (lookup a.bucket_id t)) [
  | inl e ↦ rw e (ground (arith, e))
  | inr (b, e) ↦ rw e (ground (arith, e, lookup-put k a.bucket_id (hold a.amount b) t))
]

-- A commit holds of each bucket what is asked of it, however often it is named.
pub commit-row :
    (xs : List Amount) (t : Buckets) (k : ℕ)
    → lookup k (commit xs t) ≡ on_row (hold (requested k xs)) (lookup k t)
unfolding commit requested
commit-row [] t k = sym (on_row-hold-zero (lookup k t))
commit-row (a ∷ xs) t k = elim (Bool-cases (a.bucket_id == k)) [
  | inl h ↦ rw h (
      commit-row xs _ k
      ∙ ap (on_row (hold (requested k xs))) (commit_one-row a t k ∙ rw h refl)
      ∙ on_row-hold-hold (requested k xs) a.amount (lookup k t))
  | inr h ↦
      rw h
        (commit-row xs _ k ∙ ap (on_row (hold (requested k xs))) (commit_one-row a t k ∙ rw h refl))
]

-- What a release gives back of each bucket.
give_back-give_back : (m n : ℕ) (b : Bucket) → give_back m (give_back n b) ≡ give_back (n + m) b
unfolding give_back
give_back-give_back m n b = ground arith

give_back-zero : (b : Bucket) → give_back 0 b ≡ b
unfolding give_back
give_back-zero b = ground arith

on_row-give_back-zero : (o : Option Bucket) → on_row (give_back 0) o ≡ o
on_row-give_back-zero none = refl
on_row-give_back-zero (some b) = ap (λ x. some x) (give_back-zero b)

on_row-give_back-give_back :
    (m n : ℕ) (o : Option Bucket)
    → on_row (give_back m) (on_row (give_back n) o) ≡ on_row (give_back (n + m)) o
on_row-give_back-give_back m n none = refl
on_row-give_back-give_back m n (some b) = ap (λ x. some x) (give_back-give_back m n b)

give_back_one-row :
    (a : Amount) (t : Buckets) (k : ℕ)
    → lookup k (elim (lookup a.bucket_id t) [
      | none ↦ t
      | some b ↦ put a.bucket_id (give_back a.amount b) t
    ])
      ≡ (if a.bucket_id == k then on_row (give_back a.amount) (lookup k t) else lookup k t)
give_back_one-row a t k = elim (Option-cases (lookup a.bucket_id t)) [
  | inl e ↦ rw e (ground (arith, e))
  | inr (b, e) ↦ rw e (ground (arith, e, lookup-put k a.bucket_id (give_back a.amount b) t))
]

pub give_back_all-row :
    (xs : List Amount) (t : Buckets) (k : ℕ)
    → lookup k (give_back_all xs t) ≡ on_row (give_back (requested k xs)) (lookup k t)
unfolding give_back_all requested
give_back_all-row [] t k = sym (on_row-give_back-zero (lookup k t))
give_back_all-row (a ∷ xs) t k = elim (Bool-cases (a.bucket_id == k)) [
  | inl h ↦ rw h (
      give_back_all-row xs _ k
      ∙ ap (on_row (give_back (requested k xs))) (give_back_one-row a t k ∙ rw h refl)
      ∙ on_row-give_back-give_back (requested k xs) a.amount (lookup k t))
  | inr h ↦ rw h (
      give_back_all-row xs _ k
      ∙ ap (on_row (give_back (requested k xs))) (give_back_one-row a t k ∙ rw h refl))
]

-- The ends of a reservation.
pub record Reserved (c : Config) (call : ReserveCall) (amounts ordered : List Amount)
    (t after : Buckets) : Type 0 where
  pub merged : ordered ≡ merge amounts
  pub granted : (preflight c call (merge amounts) t).0 ≡ ok tt
  pub committed : after ≡ commit (merge amounts) (preflight c call (merge amounts) t).1

merged-Reserved :
    (c : Config) (call : ReserveCall) (xs : List Amount) (t : Buckets) {ordered : List Amount}
    {after : Buckets}
    → reserve_merged c call xs t ≡ (ok ordered, after)
    → (ordered ≡ xs)
      × ((preflight c call xs t).0 ≡ ok tt)
      × (after ≡ commit xs (preflight c call xs t).1)
unfolding reserve_merged
merged-Reserved c call xs t h = ground arith

pub reserve-Reserved :
    (c : Config) (call : ReserveCall) (amounts : List Amount) (t : Buckets) {ordered : List Amount}
    {after : Buckets}
    → reserve c call amounts t ≡ (ok ordered, after)
    → Reserved c call amounts ordered t after
unfolding reserve
reserve-Reserved c call amounts t h = elim (Bool-cases (is_empty amounts)) [
  | inl e ↦ ground arith
  | inr e ↦
      let (a, b, d) = merged-Reserved c call (merge amounts) t (ground (arith, e, h)) in
      record { merged = a; granted = b; committed = d }
]
