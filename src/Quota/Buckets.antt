-- ===== src/Quota/Buckets.antt =====
-- The state of `QuotaLedger`: its buckets, their windows, and the amounts that calls ask for.
-- Quota counts are natural numbers and times are seconds of UTC.
use swarmai.Prelude.{
  ℕ, ◌+◌, ◌-◌, Bool, true, false, Option, none, some, List, [], ◌∷◌, ltb, leb, ◌==◌, if◌then◌else◌,
  Table, put,
}

pub data Dimension : Type 0 where
  requests input_tokens output_tokens total_tokens uncached_tokens neurons credit concurrency :
      Dimension

pub data Window : Type 0 where
  rolling fixed lifetime unknown : Window

-- `_LiveBucket` with the columns of its `QuotaBucket` that the ledger uses. `none` is a quota that
-- is not known.
pub record Bucket : Type 0 where
  pub dimension : Dimension
  pub limit : Option ℕ
  pub remaining : Option ℕ
  pub window_type : Window
  pub reset_at : Option ℕ
  pub observed_at : ℕ
  pub version : ℕ
  pub reserved : ℕ
  pub settled : ℕ

-- `BucketAmount`
pub record Amount : Type 0 where
  pub bucket_id : ℕ
  pub dimension : Dimension
  pub amount : ℕ

abbrev pub Buckets : Type 0
Buckets = Table Bucket

-- `LedgerConfig`. `verified_no_charge_routes` is a list.
pub record Config : Type 0 where
  pub planning_review_reserve : ℕ
  pub planning_reserve_bucket_id : ℕ
  pub benchmark_bucket_id : ℕ
  pub allow_unknown_probe : Bool
  pub verified_no_charge_routes : List ℕ
  pub default_request_amount : ℕ
  pub token_safety_margin : ℕ

-- The purposes that the ledger knows.
pub data Purpose : Type 0 where
  planning review control benchmark other_purpose : Purpose

abbrev pub is_control : Purpose → Bool
is_control Purpose.planning = true
is_control Purpose.review = true
is_control Purpose.control = true
is_control _ = false

abbrev pub is_benchmark : Purpose → Bool
is_benchmark Purpose.benchmark = true
is_benchmark _ = false

-- What the calls raise. `never_returns` is no exception: the call waits for a lock that it holds.
pub data QuotaError : Type 0 where
  nothing_to_reserve never_returns : QuotaError
  unknown_bucket unknown_quota zero_remaining insufficient control_reserve_protected
        duplicate_settlement :
      ℕ → QuotaError

-- `_maybe_reset`: a day, or the length of the last period.
abbrev pub day : ℕ
day = 86400

abbrev pub period : ℕ → ℕ → ℕ
period reset_at observed_at = if leb reset_at observed_at then day else reset_at - observed_at

abbrev pub fresh_window : Bucket → ℕ → ℕ → ℕ → Bucket
fresh_window b limit reset_at now = record b {
  remaining = some limit;
  reserved = 0;
  reset_at = some reset_at;
  observed_at = now;
  version = b.version + 1;
}

unfoldable pub next_window : Bucket → ℕ → Window → Option ℕ → ℕ → Bucket
next_window b at Window.fixed (some limit) now =
    fresh_window b limit (at + period at b.observed_at) now
next_window b at Window.rolling (some limit) now = fresh_window b limit (now + 3600) now
next_window b at _ _ now = b

unfoldable pub maybe_reset : ℕ → Bucket → Bucket
unfolding next_window
maybe_reset now b = elim b.reset_at [
  | none ↦ b
  | some at ↦ if ltb now at then b else next_window b at b.window_type b.limit now
]

-- `_effective_remaining` of a bucket that was reset if it was due.
unfoldable pub effective_remaining : Bucket → Option ℕ
effective_remaining b = elim b.remaining [ none ↦ none | some r ↦ some (r - b.reserved) ]

-- The constructor's loop, and `register`.
abbrev pub register : ℕ → Bucket → Buckets → Buckets
register bucket_id b t = put bucket_id (record b { reserved = 0; settled = 0 }) t

-- The buckets that a list of amounts names.
abbrev pub ids : List Amount → List ℕ
ids [] = []
ids (a ∷ xs) = a.bucket_id ∷ ids xs

-- What a list of amounts asks of one bucket.
unfoldable pub requested : ℕ → List Amount → ℕ
requested k [] = 0
requested k (a ∷ xs) =
    let rest = requested k xs in if a.bucket_id == k then a.amount + rest else rest

-- `sorted(amounts, key=lambda a: a.bucket_id)`
abbrev pub by_bucket : Amount → Amount → Bool
by_bucket a b = ltb a.bucket_id b.bucket_id
