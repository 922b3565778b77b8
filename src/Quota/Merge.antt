-- ===== src/Quota/Merge.antt =====
-- About the sorting and merging of amounts in `reserve`: what is asked of each bucket, and which
-- buckets are named.
use swarmai.Prelude.{
  ℕ, ◌+◌, ◌≡◌, refl, ◌∙◌, false, ◌||◌, List, [], ◌∷◌, ◌==◌, if◌then◌else◌, contains, arith,
}
use swarmai.Prelude.Paging.{order_by, insert_sorted}
use swarmai.Prelude.Distinct.{Nodup}
use swarmai.Quota.Buckets.{Amount, ids, requested, by_bucket}
use swarmai.Quota.Reserve.{merge_amount, merge_all, merge}

abbrev asked : ℕ → Amount → ℕ
asked k a = if a.bucket_id == k then a.amount else 0

pub requested-cons :
    (k : ℕ) (a : Amount) (xs : List Amount) → requested k (a ∷ xs) ≡ asked k a + requested k xs
unfolding requested
requested-cons k a xs = ground arith

requested-insert_sorted :
    (k : ℕ) (a : Amount) (xs : List Amount)
    → requested k (insert_sorted by_bucket a xs) ≡ asked k a + requested k xs
unfolding insert_sorted requested
requested-insert_sorted k a [] = ground arith
requested-insert_sorted k a (x ∷ xs) = ground (arith, requested-insert_sorted k a xs)

pub requested-order_by :
    (k : ℕ) (xs : List Amount) → requested k (order_by by_bucket xs) ≡ requested k xs
unfolding order_by requested
requested-order_by k [] = refl
requested-order_by k (x ∷ xs) =
    ground (arith, requested-insert_sorted k x (order_by by_bucket xs), requested-order_by k xs)

requested-merge_amount :
    (k : ℕ) (a : Amount) (ms : List Amount)
    → requested k (merge_amount a ms) ≡ asked k a + requested k ms
unfolding merge_amount requested
requested-merge_amount k a [] = ground arith
requested-merge_amount k a (m ∷ ms) = ground (arith, requested-merge_amount k a ms)

requested-merge_all :
    (k : ℕ) (xs ms : List Amount) → requested k (merge_all xs ms) ≡ requested k xs + requested k ms
unfolding merge_all requested
requested-merge_all k [] ms = omega arith
requested-merge_all k (x ∷ xs) ms =
    ground (arith, requested-merge_all k xs (merge_amount x ms), requested-merge_amount k x ms)

pub requested-merge : (k : ℕ) (xs : List Amount) → requested k (merge xs) ≡ requested k xs
unfolding merge requested
requested-merge k xs = grind (
  arith,
  requested-order_by k (merge_all (order_by by_bucket xs) []),
  requested-merge_all k (order_by by_bucket xs) [],
  requested-order_by k xs,
)

contains-merge_amount :
    (k : ℕ) (a : Amount) (ms : List Amount)
    → contains k (ids (merge_amount a ms)) ≡ (k == a.bucket_id || contains k (ids ms))
unfolding merge_amount
contains-merge_amount k a [] = ground arith
contains-merge_amount k a (m ∷ ms) = ground (arith, contains-merge_amount k a ms)

Nodup-merge_amount :
    (a : Amount) (ms : List Amount) → Nodup (ids ms) → Nodup (ids (merge_amount a ms))
unfolding merge_amount
Nodup-merge_amount a [] h = (refl, tt)
Nodup-merge_amount a (m ∷ ms) h =
    ground (arith, Nodup-merge_amount a ms h.1, contains-merge_amount m.bucket_id a ms)

Nodup-merge_all : (xs ms : List Amount) → Nodup (ids ms) → Nodup (ids (merge_all xs ms))
unfolding merge_all
Nodup-merge_all [] ms h = h
Nodup-merge_all (x ∷ xs) ms h = Nodup-merge_all xs (merge_amount x ms) (Nodup-merge_amount x ms h)

contains-insert :
    (k : ℕ) (a : Amount) (xs : List Amount)
    → contains k (ids (insert_sorted by_bucket a xs)) ≡ (k == a.bucket_id || contains k (ids xs))
unfolding insert_sorted
contains-insert k a [] = refl
contains-insert k a (x ∷ xs) = ground (arith, contains-insert k a xs)

Nodup-insert :
    (a : Amount) (xs : List Amount)
    → contains a.bucket_id (ids xs) ≡ false
    → Nodup (ids xs)
    → Nodup (ids (insert_sorted by_bucket a xs))
unfolding insert_sorted
Nodup-insert a [] c h = (refl, tt)
Nodup-insert a (x ∷ xs) c h = ground (arith, Nodup-insert a xs, contains-insert x.bucket_id a xs)

contains-sorted :
    (k : ℕ) (xs : List Amount) → contains k (ids (order_by by_bucket xs)) ≡ contains k (ids xs)
unfolding order_by
contains-sorted k [] = refl
contains-sorted k (x ∷ xs) =
    ground (arith, contains-insert k x (order_by by_bucket xs), contains-sorted k xs)

pub Nodup-sorted : (xs : List Amount) → Nodup (ids xs) → Nodup (ids (order_by by_bucket xs))
unfolding order_by
Nodup-sorted [] h = tt
Nodup-sorted (x ∷ xs) h =
    Nodup-insert x (order_by by_bucket xs) (ground (arith, contains-sorted x.bucket_id xs))
      (Nodup-sorted xs h.1)

pub Nodup-merge : (xs : List Amount) → Nodup (ids (merge xs))
unfolding merge
Nodup-merge xs =
    Nodup-sorted (merge_all (order_by by_bucket xs) [])
      (Nodup-merge_all (order_by by_bucket xs) [] tt)

contains-merge_all :
    (k : ℕ) (xs ms : List Amount)
    → contains k (ids (merge_all xs ms)) ≡ (contains k (ids xs) || contains k (ids ms))
unfolding merge_all
contains-merge_all k [] ms = refl
contains-merge_all k (x ∷ xs) ms =
    ground (arith, contains-merge_all k xs (merge_amount x ms), contains-merge_amount k x ms)

pub contains-merge : (k : ℕ) (xs : List Amount) → contains k (ids (merge xs)) ≡ contains k (ids xs)
unfolding merge
contains-merge k xs =
    contains-sorted k (merge_all (order_by by_bucket xs) [])
    ∙ ground (arith, contains-merge_all k (order_by by_bucket xs) [], contains-sorted k xs)
