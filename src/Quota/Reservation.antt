-- ===== src/Quota/Reservation.antt =====
-- What `reserve` and `release` do to every bucket of the ledger.
use swarmai.Prelude.{
  ℕ, ◌+◌, ◌≡◌, refl, ap, ◌∙◌, ◌⊎◌, inl, inr, true, false, Option, none, some, List, [], ◌∷◌,
  if◌then◌else◌, contains, lookup, arith, ok, err, Result-cases, Bool-cases,
}
use swarmai.Prelude.Distinct.{Nodup}
use swarmai.Quota.Buckets.{Buckets, Bucket, Amount, Config, ids, requested, maybe_reset, QuotaError}
use swarmai.Quota.Reserve.{
  ReserveCall, merge, preflight, hold, known_buckets, reserve_merged, reserve, is_empty, lock_twice,
}
use swarmai.Quota.Merge.{requested-merge, Nodup-merge, contains-merge}
use swarmai.Quota.Granted.{on_row, preflight-row, preflight-failed}
use swarmai.Quota.Exact.{commit-row, reserve-Reserved}

-- The row of a bucket when a call looks at it: with its window reset if that is due.
abbrev pub refreshed : ℕ → List Amount → Buckets → ℕ → Option Bucket
refreshed now amounts t k =
    if contains k (ids amounts) then on_row (maybe_reset now) (lookup k t) else lookup k t

-- The row of a bucket behind a reservation that succeeds, by the step of the code.
pub reserve-hold :
    (c : Config) (call : ReserveCall) (amounts : List Amount) (t : Buckets) (k : ℕ)
    {ordered : List Amount} {after : Buckets}
    → reserve c call amounts t ≡ (ok ordered, after)
    → lookup k after ≡ on_row (hold (requested k amounts)) (refreshed call.now amounts t k)
reserve-hold c call amounts t k h =
    let p = reserve-Reserved c call amounts t h in
    let xs = merge amounts in
    ap (λ s. lookup k s) p.committed
    ∙ commit-row xs (preflight c call xs t).1 k
    ∙ rw
        (
          requested-merge k amounts,
          preflight-row c call xs t k p.granted (Nodup-merge amounts),
          contains-merge k amounts,
        )
        refl

-- What a reservation of `n` does to the row of a bucket: of a known quota `n` more is held, of one
-- that is not known nothing more, and no other column is written.
pub record HeldFor (n : ℕ) (b after : Bucket) : Type 0 where
  pub known : (r : ℕ) → b.remaining ≡ some r → after.reserved ≡ b.reserved + n
  pub unknown : b.remaining ≡ none → after.reserved ≡ b.reserved
  pub same_quota : (after.remaining ≡ b.remaining) × (after.limit ≡ b.limit)
  pub same_count : after.settled ≡ b.settled
  pub same_window : (after.window_type ≡ b.window_type) × (after.reset_at ≡ b.reset_at)
  pub same_view : (after.observed_at ≡ b.observed_at) × (after.version ≡ b.version)
  pub same_dimension : after.dimension ≡ b.dimension

abbrev pub RowHeld : ℕ → Option Bucket → Option Bucket → Type 0
RowHeld n none o = o ≡ none
RowHeld n (some b) o = (after : Bucket) × (o ≡ some after) × HeldFor n b after

hold-HeldFor : (n : ℕ) (b : Bucket) → HeldFor n b (hold n b)
unfolding hold
hold-HeldFor n b = record {
  known = λ r e. rw e refl;
  unknown = λ e. rw e refl;
  same_quota = (ground arith, ground arith);
  same_count = ground arith;
  same_window = (ground arith, ground arith);
  same_view = (ground arith, ground arith);
  same_dimension = ground arith;
}

on_row-RowHeld : (n : ℕ) (o : Option Bucket) → RowHeld n o (on_row (hold n) o)
on_row-RowHeld n none = refl
on_row-RowHeld n (some b) = (hold n b, refl, hold-HeldFor n b)

-- A reservation that succeeds holds, of every bucket whose quota is known, the sum of what the
-- amounts ask of it, on top of what was held in the window that is current; of a bucket whose quota
-- is not known it holds nothing. Beyond that, and the windows that were due and are reset, no column
-- of any bucket is written, and a bucket that is not registered stays so.
pub reserve_exact :
    (c : Config) (call : ReserveCall) (amounts : List Amount) (t : Buckets) (k : ℕ)
    {ordered : List Amount} {after : Buckets}
    → reserve c call amounts t ≡ (ok ordered, after)
    → RowHeld (requested k amounts) (refreshed call.now amounts t k) (lookup k after)
reserve_exact c call amounts t k h =
    rw (reserve-hold c call amounts t k h)
      (on_row-RowHeld (requested k amounts) (refreshed call.now amounts t k))

merged-failed :
    (c : Config) (call : ReserveCall) (xs : List Amount) (t : Buckets) (k : ℕ) {e : QuotaError}
    {after : Buckets}
    → reserve_merged c call xs t ≡ (err e, after)
    → Nodup (ids xs)
    → (lookup k after ≡ lookup k t) ⊎ (lookup k after ≡ on_row (maybe_reset call.now) (lookup k t))
unfolding reserve_merged
merged-failed c call xs t k {after = after} h d = elim (Result-cases (known_buckets xs t)) [
  | inr (e, missing) ↦ inl (ground (arith, missing, h))
  | inl (u, known) ↦
      let w : after ≡ (preflight c call xs t).1 = ground (arith, known, h) in
      rw w (preflight-failed c call xs t k d)
]

-- A reservation that fails holds nothing: every bucket is as it was, or has its due window reset.
pub reserve_atomic :
    (c : Config) (call : ReserveCall) (amounts : List Amount) (t : Buckets) (k : ℕ) {e : QuotaError}
    {after : Buckets}
    → reserve c call amounts t ≡ (err e, after)
    → (lookup k after ≡ lookup k t) ⊎ (lookup k after ≡ on_row (maybe_reset call.now) (lookup k t))
unfolding reserve
reserve_atomic c call amounts t k {e = why} {after = after} h =
    elim (Bool-cases (is_empty amounts)) [
      | inl e ↦ inl (ground (arith, e, h))
      | inr e ↦
          merged-failed c call (merge amounts) t k {e = why} {after = after} (ground (arith, e, h))
            (Nodup-merge amounts)
    ]

-- The locks of distinct buckets are taken once.
pub lock_twice-distinct :
    (held : List ℕ) (xs : List Amount) (t : Buckets)
    → Nodup (ids xs)
    → ((k : ℕ) → contains k (ids xs) ≡ true → contains k held ≡ false)
    → lock_twice held xs t ≡ false
unfolding lock_twice
lock_twice-distinct held [] t d free = refl
lock_twice-distinct held (a ∷ xs) t d free =
    let rest = lock_twice-distinct held xs t d.1 (λ j h. free j (ground (arith, h))) in
    let more =
      lock_twice-distinct (a.bucket_id ∷ held) xs t d.1
        (λ j h. ground (arith, h, d.0, free j (ground (arith, h)))) in
    ground (arith, rest, more, free a.bucket_id)
