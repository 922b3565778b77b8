-- ===== src/Quota/Settle.antt =====
-- `QuotaLedger.settle` and `bottleneck`. The key is looked up before the lock is taken; no call
-- gives way while it holds the lock, so the whole call is one step.
use swarmai.Prelude.{
  ℕ, ◌+◌, ◌-◌, ◌*◌, Bool, Option, none, some, List, [], ◌∷◌, ltb, ◌==◌, if◌then◌else◌, contains,
  lookup, put, min, ok, err, Exec,
}
use swarmai.Prelude.Paging.{order_by}
use swarmai.Quota.Buckets.{
  Buckets, Bucket, Amount, Dimension, QuotaError, duplicate_settlement, never_returns, by_bucket,
  maybe_reset, effective_remaining,
}
use swarmai.Quota.Reserve.{lock_twice}

-- The ledger with the keys that are settled.
pub record Ledger : Type 0 where
  pub buckets : Buckets
  pub settled_keys : List ℕ

-- What was observed of each dimension, if anything.
abbrev pub Usage : Type 0
Usage = Dimension → Option ℕ

-- Never more than was reserved.
abbrev pub charge : Usage → Amount → ℕ
charge usage a = elim (usage a.dimension) [
  | none ↦ a.amount
  | some observed ↦ min a.amount observed
]

abbrev pub minus : Option ℕ → ℕ → Option ℕ
minus none n = none
minus (some r) n = some (r - n)

unfoldable pub settle_bucket : Usage → ℕ → Amount → Bucket → Bucket
settle_bucket usage clock a b = record b {
  remaining = minus b.remaining (charge usage a);
  reserved = b.reserved - a.amount;
  settled = b.settled + charge usage a;
  version = b.version + 1;
  observed_at = clock;
}

unfoldable pub settle_all : Usage → ℕ → List Amount → Buckets → Buckets
unfolding settle_bucket
settle_all usage clock [] t = t
settle_all usage clock (a ∷ xs) t = settle_all usage clock xs (elim (lookup a.bucket_id t) [
  | none ↦ t
  | some b ↦ put a.bucket_id (settle_bucket usage clock a b) t
])

unfoldable pub settled : Usage → ℕ → ℕ → List Amount → Ledger → Ledger
unfolding settle_all
settled usage clock key ordered s = record {
  buckets = settle_all usage clock ordered s.buckets;
  settled_keys = key ∷ s.settled_keys;
}

unfoldable pub settle : Usage → ℕ → ℕ → List Amount → Exec Ledger QuotaError (Unit {0})
unfolding settled
settle usage clock key amounts s =
    let ordered = order_by by_bucket amounts in
    if contains key s.settled_keys
    then (err (duplicate_settlement key), s)
    else if lock_twice [] ordered s.buckets
    then (err never_returns, s)
    else (ok tt, settled usage clock key ordered s)

-- `bottleneck`: the answer, with the windows that were reset on the way. The ratios are compared
-- as fractions, the code as floating point numbers.
pub data Tightness : Type 0 where
  missing_bucket unknown : ℕ → Tightness
  worst : (bucket_id remaining requested : ℕ) → Tightness

-- The smallest ratio so far, `none` for the ratio 2.
abbrev pub tighter : ℕ → ℕ → Option Tightness → Bool
tighter effective n (some (worst _ e m)) = ltb (effective * m) (e * n)
tighter effective n _ = ltb effective (2 * n)

unfoldable pub weigh : Amount → ℕ → Option Tightness → Option Tightness
weigh a effective so_far =
    if a.amount == 0
    then so_far
    else if tighter effective a.amount so_far
    then some (worst a.bucket_id effective a.amount)
    else so_far

unfoldable pub bottleneck_from :
    ℕ → Option Tightness → List Amount → Buckets → Option Tightness × Buckets
unfolding weigh
bottleneck_from now so_far [] t = (so_far, t)
bottleneck_from now so_far (a ∷ xs) t = elim (lookup a.bucket_id t) [
  | none ↦ (some (missing_bucket a.bucket_id), t)
  | some b ↦
      let current = maybe_reset now b in
      let after = put a.bucket_id current t in
      elim (effective_remaining current) [
        | none ↦ (some (unknown a.bucket_id), after)
        | some effective ↦ bottleneck_from now (weigh a effective so_far) xs after
      ]
]

unfoldable pub bottleneck : ℕ → List Amount → Buckets → Option Tightness × Buckets
unfolding bottleneck_from
bottleneck now amounts t = bottleneck_from now none amounts t
