-- ===== src/Quota/Settled.antt =====
-- About `settle`: what the buckets and the settlement keys are after a call.
use swarmai.Prelude.{
  ℕ, ◌+◌, ◌-◌, ◌≤◌, ◌≡◌, refl, inl, inr, Option, none, some, List, [], ◌∷◌, ◌==◌, if◌then◌else◌,
  leb, true, contains, lookup, put, lookup-put, arith, ok, err, Option-cases, Bool-cases,
}
use mathlib.Core.Path.{subst}
use swarmai.Prelude.Paging.{order_by, insert_sorted}
use swarmai.Quota.Buckets.{Buckets, Bucket, Amount, requested, by_bucket, duplicate_settlement}
use swarmai.Quota.Settle.{Ledger, Usage, charge, minus, settle_bucket, settle_all, settled, settle}
use swarmai.Quota.Granted.{on_row}
use swarmai.Quota.Merge.{requested-cons, requested-order_by}

-- What a settlement charges a bucket: of each amount that names it what was used of its dimension,
-- and never more than the amount, or the whole amount where the use was not observed.
unfoldable pub owed : Usage → ℕ → List Amount → ℕ
owed usage k [] = 0
owed usage k (a ∷ xs) =
    let rest = owed usage k xs in
    if a.bucket_id == k
    then elim (usage a.dimension) [
      | none ↦ a.amount + rest
      | some used ↦ (if leb used a.amount then used else a.amount) + rest
    ]
    else rest

-- A bucket that is settled for amounts of `n` with a charge of `m`: the hold of `n` ends, and `m`,
-- which is at most `n`, is counted and taken from what remains.
pub record SettledFor (n m : ℕ) (b after : Bucket) : Type 0 where
  pub no_more : m ≤ n
  pub counted : after.settled ≡ b.settled + m
  pub taken : after.remaining ≡ minus b.remaining m
  pub freed : after.reserved ≡ b.reserved - n

abbrev pub RowSettled : ℕ → ℕ → Option Bucket → Option Bucket → Type 0
RowSettled n m none o = o ≡ none
RowSettled n m (some b) o = (after : Bucket) × (o ≡ some after) × SettledFor n m b after

abbrev due : Usage → ℕ → Amount → ℕ
due usage k a = if a.bucket_id == k then charge usage a else 0

owed-cons :
    (usage : Usage) (k : ℕ) (a : Amount) (xs : List Amount)
    → owed usage k (a ∷ xs) ≡ due usage k a + owed usage k xs
unfolding owed
owed-cons usage k a xs = elim (Option-cases (usage a.dimension)) [
  | inl e ↦ rw e (ground arith)
  | inr (used, e) ↦ rw e (ground arith)
]

owed-insert_sorted :
    (usage : Usage) (k : ℕ) (a : Amount) (xs : List Amount)
    → owed usage k (insert_sorted by_bucket a xs) ≡ due usage k a + owed usage k xs
unfolding insert_sorted
owed-insert_sorted usage k a [] = owed-cons usage k a []
owed-insert_sorted usage k a (x ∷ xs) = ground (
  arith,
  owed-cons usage k a (x ∷ xs),
  owed-cons usage k x (insert_sorted by_bucket a xs),
  owed-insert_sorted usage k a xs,
  owed-cons usage k x xs,
)

owed-order_by :
    (usage : Usage) (k : ℕ) (xs : List Amount)
    → owed usage k (order_by by_bucket xs) ≡ owed usage k xs
unfolding order_by
owed-order_by usage k [] = refl
owed-order_by usage k (x ∷ xs) = omega (
  arith,
  owed-insert_sorted usage k x (order_by by_bucket xs),
  owed-order_by usage k xs,
  owed-cons usage k x xs,
)

settle_bucket-SettledFor :
    (usage : Usage) (clock : ℕ) (a : Amount) (b : Bucket)
    → SettledFor a.amount (charge usage a) b (settle_bucket usage clock a b)
unfolding settle_bucket
settle_bucket-SettledFor usage clock a b = record {
  no_more = ground arith;
  counted = refl;
  taken = refl;
  freed = refl;
}

SettledFor-then :
    (m n x y : ℕ) (b c d : Bucket)
    → SettledFor m x b c
    → SettledFor n y c d
    → SettledFor (m + n) (x + y) b d
SettledFor-then m n x y b c d f g = record {
  no_more = omega (arith, f.no_more, g.no_more);
  counted = omega (arith, f.counted, g.counted);
  taken = ground (arith, f.taken, g.taken);
  freed = omega (arith, f.freed, g.freed);
}

SettledFor-none : (b : Bucket) → SettledFor 0 0 b b
SettledFor-none b = record {
  no_more = omega arith;
  counted = omega arith;
  taken = ground arith;
  freed = omega arith;
}

RowSettled-none : (o : Option Bucket) → RowSettled 0 0 o o
RowSettled-none none = refl
RowSettled-none (some b) = (b, refl, SettledFor-none b)

RowSettled-then :
    (m n x y : ℕ) (o p q : Option Bucket)
    → RowSettled m x o p
    → RowSettled n y p q
    → RowSettled (m + n) (x + y) o q
RowSettled-then m n x y none none q f g = g
RowSettled-then m n x y none (some _) q f g = cc
RowSettled-then m n x y (some b) none q (c, e, f) g = cc
RowSettled-then m n x y (some b) (some c0) q (c, e, f) (d, u, g) = (
  d,
  u,
  let same : c ≡ c0 = ground (arith, e, u) in
      SettledFor-then m n x y b c0 d (subst (SettledFor m x b) same f) g,
)

RowSettled-on :
    (usage : Usage) (clock : ℕ) (a : Amount) (o : Option Bucket)
    → RowSettled a.amount (charge usage a) o (on_row (settle_bucket usage clock a) o)
RowSettled-on usage clock a none = refl
RowSettled-on usage clock a (some b) =
    (settle_bucket usage clock a b, refl, settle_bucket-SettledFor usage clock a b)

abbrev settle_one : Usage → ℕ → Amount → Buckets → Buckets
settle_one usage clock a t = elim (lookup a.bucket_id t) [
  | none ↦ t
  | some b ↦ put a.bucket_id (settle_bucket usage clock a b) t
]

settle_one-row :
    (usage : Usage) (clock : ℕ) (a : Amount) (t : Buckets) (k : ℕ)
    → lookup k (settle_one usage clock a t)
      ≡ (if a.bucket_id == k then on_row (settle_bucket usage clock a) (lookup k t) else lookup k t)
settle_one-row usage clock a t k = elim (Option-cases (lookup a.bucket_id t)) [
  | inl e ↦ rw (e, settle_one) (ground (arith, e))
  | inr (b, e) ↦
      rw (e, settle_one)
        (ground (arith, e, lookup-put k a.bucket_id (settle_bucket usage clock a b) t))
]

settle_one-RowSettled :
    (usage : Usage) (clock : ℕ) (a : Amount) (t : Buckets) (k : ℕ)
    → RowSettled
        (if a.bucket_id == k then a.amount else 0)
        (due usage k a)
        (lookup k t)
        (lookup k (settle_one usage clock a t))
settle_one-RowSettled usage clock a t k = elim (Bool-cases (a.bucket_id == k)) [
  | inl h ↦ rw (settle_one-row usage clock a t k) (rw h (RowSettled-on usage clock a (lookup k t)))
  | inr h ↦ rw (settle_one-row usage clock a t k) (rw h (RowSettled-none (lookup k t)))
]

settle_all-RowSettled :
    (usage : Usage) (clock : ℕ) (xs : List Amount) (t : Buckets) (k : ℕ)
    → RowSettled
        (requested k xs)
        (owed usage k xs)
        (lookup k t)
        (lookup k (settle_all usage clock xs t))
unfolding settle_all
settle_all-RowSettled usage clock [] t k = unfold requested owed in RowSettled-none (lookup k t)
settle_all-RowSettled usage clock (a ∷ xs) t k =
    let next = settle_one usage clock a t in
    let after = lookup k (settle_all usage clock xs next) in
    rw (requested-cons k a xs, owed-cons usage k a xs)
      (RowSettled-then _ (requested k xs) _ (owed usage k xs) (lookup k t) (lookup k next) after
        (settle_one-RowSettled usage clock a t k) (settle_all-RowSettled usage clock xs next k))

settle-ok :
    (usage : Usage) (clock key : ℕ) (amounts : List Amount) (s : Ledger) {after : Ledger}
    {u : Unit {0}}
    → settle usage clock key amounts s ≡ (ok u, after)
    → after ≡ settled usage clock key (order_by by_bucket amounts) s
unfolding settle
settle-ok usage clock key amounts s h = ground (arith, h)

-- A settlement that succeeds ends, of every bucket, the holds that the amounts name, counts exactly
-- what is owed and takes it from what remains, down to 0: what was used, never more than the amounts that name
-- the bucket, and the whole of an amount whose use was not observed. A bucket that is not
-- registered stays so.
pub settle_bounds :
    (usage : Usage) (clock key : ℕ) (amounts : List Amount) (s : Ledger) (k : ℕ) {after : Ledger}
    {u : Unit {0}}
    → settle usage clock key amounts s ≡ (ok u, after)
    → RowSettled
        (requested k amounts)
        (owed usage k amounts)
        (lookup k s.buckets)
        (lookup k after.buckets)
unfolding settled
settle_bounds usage clock key amounts s k h =
    let ordered = order_by by_bucket amounts in
    let rows = settle_all-RowSettled usage clock ordered s.buckets k in
    let asked = requested-order_by k amounts in
    let charged = owed-order_by usage k amounts in
    rw (settle-ok usage clock key amounts s h, ← asked, ← charged) rows

-- A key that is settled is refused, and nothing is written.
pub settle-seen :
    (usage : Usage) (clock key : ℕ) (amounts : List Amount) (s : Ledger)
    → contains key s.settled_keys ≡ true
    → settle usage clock key amounts s ≡ (err (duplicate_settlement key), s)
unfolding settle
settle-seen usage clock key amounts s h = rw h refl

pub settle-remembers :
    (usage : Usage) (clock key : ℕ) (amounts : List Amount) (s : Ledger) {after : Ledger}
    {u : Unit {0}}
    → settle usage clock key amounts s ≡ (ok u, after)
    → contains key after.settled_keys ≡ true
unfolding settled
settle-remembers usage clock key amounts s h =
    rw (settle-ok usage clock key amounts s h) (ground arith)

pub settle-keeps :
    (j : ℕ) (usage : Usage) (clock key : ℕ) (amounts : List Amount) (s : Ledger)
    → contains j s.settled_keys ≡ true
    → contains j (settle usage clock key amounts s).1.settled_keys ≡ true
unfolding settle settled
settle-keeps j usage clock key amounts s h = ground (arith, h)
