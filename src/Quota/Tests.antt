-- ===== src/Quota/Tests.antt =====
-- Runs of the quota ledger at concrete buckets.
use swarmai.Prelude.{
  ℕ, ◌≡◌, refl, ◌⊎◌, true, false, Option, none, some, List, [], ◌∷◌, arith, lookup, put, ok, err,
  contains, is_some,
}
use swarmai.Prelude.Distinct.{Nodup}
use swarmai.Prelude.Paging.{order_by, insert_sorted}
use swarmai.Quota.Buckets.{
  Buckets, Bucket, Amount, Dimension, Window, Config, Purpose, ids, requested, maybe_reset,
  effective_remaining, insufficient, duplicate_settlement,
}
use swarmai.Quota.Estimate.{Estimate, estimate_amounts, estimate_distinct}
use swarmai.Quota.Reserve.{
  ReserveCall, reserve, reserve_merged, merge, merge_all, merge_amount, known_buckets, preflight,
  preflight_one, admit, commit, hold, release, lock_twice,
}
use swarmai.Quota.Settle.{Ledger, Usage, settle}
use swarmai.Quota.Granted.{on_row}
use swarmai.Quota.Reservation.{refreshed, RowHeld, reserve_exact, reserve_atomic}
use swarmai.Quota.Covered.{Covered, release-reserve}
use swarmai.Quota.Settled.{owed, RowSettled, settle_bounds}
use swarmai.Quota.System.{reserves, settles, Reach, here, next, Reach-Covered, settle_once}

abbrev config : Config
config = record {
  planning_review_reserve = 2;
  planning_reserve_bucket_id = 90;
  benchmark_bucket_id = 91;
  allow_unknown_probe = false;
  verified_no_charge_routes = [];
  default_request_amount = 1;
  token_safety_margin = 0;
}

abbrev bucket : Dimension → Option ℕ → Bucket
bucket dimension remaining = record {
  dimension = dimension;
  limit = some 100;
  remaining = remaining;
  window_type = Window.fixed;
  reset_at = some 1000;
  observed_at = 0;
  version = 1;
  reserved = 0;
  settled = 0;
}

abbrev two_buckets : Buckets
two_buckets =
    (1, bucket Dimension.requests (some 5)) ∷ (2, bucket Dimension.total_tokens (some 80)) ∷ []

abbrev amount : ℕ → Dimension → ℕ → Amount
amount id dimension n = record { bucket_id = id; dimension = dimension; amount = n }

abbrev call : ReserveCall
call = record { route_id = 3; purpose = Purpose.other_purpose; probe = false; now = 10 }

-- A bucket that is named twice, in no order.
abbrev wanted : List Amount
wanted =
    amount 2 Dimension.total_tokens 30
    ∷ amount 1 Dimension.requests 1
    ∷ amount 2 Dimension.total_tokens 20
    ∷ []

abbrev merged : List Amount
merged = amount 1 Dimension.requests 1 ∷ amount 2 Dimension.total_tokens 50 ∷ []

abbrev after_reserve : Buckets
after_reserve = (reserve config call wanted two_buckets).1

run_of_wanted : reserve config call wanted two_buckets ≡ (ok merged, after_reserve)
unfolding reserve reserve_merged merge merge_all merge_amount order_by insert_sorted known_buckets
    preflight preflight_one admit effective_remaining maybe_reset lookup put
run_of_wanted = refl

two_buckets-Covered : Covered two_buckets
unfolding lookup
two_buckets-Covered = record { within = λ k b e. ground arith }

reserve_exact_example :
    RowHeld (requested 2 wanted) (refreshed 10 wanted two_buckets 2) (lookup 2 after_reserve)
reserve_exact_example = reserve_exact config call wanted two_buckets 2 run_of_wanted

release-reserve_example :
    ((release merged after_reserve).0 ≡ ok tt)
    × (lookup 2 (release merged after_reserve).1 ≡ refreshed 10 wanted two_buckets 2)
release-reserve_example =
    release-reserve config call wanted two_buckets 2 two_buckets-Covered run_of_wanted

-- Too much of the first bucket, behind one that would do.
abbrev too_much : List Amount
too_much = amount 1 Dimension.requests 4 ∷ amount 2 Dimension.total_tokens 81 ∷ []

abbrev after_refusal : Buckets
after_refusal = (reserve config call too_much two_buckets).1

refuse_too_much : reserve config call too_much two_buckets ≡ (err (insufficient 2), after_refusal)
unfolding reserve reserve_merged merge merge_all merge_amount order_by insert_sorted known_buckets
    preflight preflight_one admit effective_remaining maybe_reset lookup put
refuse_too_much = refl

reserve_atomic_example :
    (lookup 1 after_refusal ≡ lookup 1 two_buckets)
    ⊎ (lookup 1 after_refusal ≡ on_row (maybe_reset 10) (lookup 1 two_buckets))
reserve_atomic_example = reserve_atomic config call too_much two_buckets 1 refuse_too_much

-- A settlement that uses less than was held.
abbrev usage : Usage
usage Dimension.total_tokens = some 12
usage _ = none

abbrev ledger : Ledger
ledger = record { buckets = after_reserve; settled_keys = [] }

abbrev after_settle : Ledger
after_settle = (settle usage 20 7 merged ledger).1

settle_merged : settle usage 20 7 merged ledger ≡ (ok tt, after_settle)
unfolding settle lock_twice order_by insert_sorted lookup commit hold put reserve reserve_merged
    merge merge_all merge_amount known_buckets preflight preflight_one admit effective_remaining
    maybe_reset
settle_merged = refl

settle_bounds_example :
    RowSettled
      (requested 2 merged)
      (owed usage 2 merged)
      (lookup 2 after_reserve)
      (lookup 2 after_settle.buckets)
settle_bounds_example = settle_bounds usage 20 7 merged ledger 2 settle_merged

history : Reach config (record { buckets = two_buckets; settled_keys = [] }) after_settle
history = next (next here (reserves call wanted refl)) (settles usage 20 7 merged refl)

-- Another key is settled behind the first one.
abbrev after_other : Ledger
after_other = (settle usage 25 8 merged after_settle).1

settle_once_example : settle usage 30 7 [] after_other ≡ (err (duplicate_settlement 7), after_other)
settle_once_example =
    settle_once config usage usage 20 30 7 merged [] ledger settle_merged
      (next here (settles usage 25 8 merged refl))

Reach-Covered_example : Covered after_settle.buckets
Reach-Covered_example = Reach-Covered history two_buckets-Covered

abbrev estimate : Estimate
estimate = record { estimated_input_tokens = some 10; max_output_tokens = none }

estimate_distinct_example :
    Nodup (ids (estimate_amounts config two_buckets (1 ∷ 2 ∷ 1 ∷ []) estimate Purpose.planning))
    × ((k : ℕ)
        → contains k
            (ids (estimate_amounts config two_buckets (1 ∷ 2 ∷ 1 ∷ []) estimate Purpose.planning))
          ≡ true
        → is_some (lookup k two_buckets) ≡ true)
estimate_distinct_example =
    estimate_distinct config two_buckets (1 ∷ 2 ∷ 1 ∷ []) estimate Purpose.planning
