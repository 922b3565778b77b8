-- ===== src/Quota/Reserve.antt =====
-- `QuotaLedger.reserve` and `release`. Both run under one lock from their first look at the buckets,
-- so each is one step; the locks of the buckets are taken and given back within it.
use swarmai.Prelude.{
  ℕ, ◌+◌, ◌-◌, Bool, true, false, not, ◌&&◌, ◌||◌, Option, none, some, List, [], ◌∷◌, ltb, ◌==◌,
  if◌then◌else◌, contains, lookup, put, is_some, Result, ok, err, raise_if, Exec,
}
use swarmai.Prelude.Paging.{order_by}
use swarmai.Quota.Buckets.{
  Buckets, Bucket, Amount, Config, Purpose, is_control, QuotaError, nothing_to_reserve,
  never_returns, unknown_bucket, unknown_quota, zero_remaining, insufficient,
  control_reserve_protected, maybe_reset, effective_remaining, by_bucket,
}

-- The arguments of the call.
pub record ReserveCall : Type 0 where
  pub route_id : ℕ
  pub purpose : Purpose
  pub probe : Bool
  pub now : ℕ

abbrev pub Verdict : Type 0
Verdict = Result QuotaError (Unit {0})

-- Amounts of one bucket are added up: one step of the loop on the dict `merged`, and the loop.
unfoldable pub merge_amount : Amount → List Amount → List Amount
merge_amount a [] = a ∷ []
merge_amount a (m ∷ ms) =
    if m.bucket_id == a.bucket_id
    then record a { amount = m.amount + a.amount } ∷ ms
    else m ∷ merge_amount a ms

unfoldable pub merge_all : List Amount → List Amount → List Amount
unfolding merge_amount
merge_all [] merged = merged
merge_all (a ∷ xs) merged = merge_all xs (merge_amount a merged)

unfoldable pub merge : List Amount → List Amount
unfolding merge_all
merge amounts = order_by by_bucket (merge_all (order_by by_bucket amounts) [])

-- The first bucket that is not registered.
unfoldable pub known_buckets : List Amount → Buckets → Verdict
known_buckets [] t = ok tt
known_buckets (a ∷ xs) t = elim (lookup a.bucket_id t) [
  | none ↦ err (unknown_bucket a.bucket_id)
  | some _ ↦ known_buckets xs t
]

-- May a bucket whose quota is not known be probed?
unfoldable pub may_probe : Config → ReserveCall → Bool
may_probe c call =
    call.probe && c.allow_unknown_probe && contains call.route_id c.verified_no_charge_routes

-- The tests of one amount on what is left of its bucket.
unfoldable pub admit : Config → ReserveCall → Amount → Option ℕ → Verdict
unfolding may_probe
admit c call a none = raise_if (not (may_probe c call)) (unknown_quota a.bucket_id)
admit c call a (some effective) =
    if ltb effective a.amount
    then err (if effective == 0 then zero_remaining a.bucket_id else insufficient a.bucket_id)
    else raise_if
        (a.bucket_id == c.planning_reserve_bucket_id
          && not (is_control call.purpose)
          && ltb (effective - a.amount) c.planning_review_reserve)
        (control_reserve_protected a.bucket_id)

-- One round of the preflight. It resets the bucket's window if that is due. The buckets were found
-- before.
unfoldable pub preflight_one : Config → ReserveCall → Amount → Exec Buckets QuotaError (Unit {0})
unfolding admit
preflight_one c call a t = elim (lookup a.bucket_id t) [
  | none ↦ (err (unknown_bucket a.bucket_id), t)
  | some b ↦
      let current = maybe_reset call.now b in
      (admit c call a (effective_remaining current), put a.bucket_id current t)
]

unfoldable pub preflight : Config → ReserveCall → List Amount → Exec Buckets QuotaError (Unit {0})
unfolding preflight_one
preflight c call [] t = (ok tt, t)
preflight c call (a ∷ xs) t =
    let later = preflight c call xs (preflight_one c call a t).1 in
    elim (preflight_one c call a t).0 [
      | ok _ ↦ later
      | err e ↦ (err e, (preflight_one c call a t).1)
    ]

-- The commit of one amount, and of all. A quota that is not known is not counted.
unfoldable pub hold : ℕ → Bucket → Bucket
hold n b = elim b.remaining [ none ↦ b | some _ ↦ record b { reserved = b.reserved + n } ]

unfoldable pub commit : List Amount → Buckets → Buckets
unfolding hold
commit [] t = t
commit (a ∷ xs) t =
    commit xs
      (elim (lookup a.bucket_id t) [ none ↦ t | some b ↦ put a.bucket_id (hold a.amount b) t ])

unfoldable pub reserve_merged :
    Config → ReserveCall → List Amount → Exec Buckets QuotaError (List Amount)
unfolding known_buckets preflight commit
reserve_merged c call ordered t = elim (known_buckets ordered t) [
  | err e ↦ (err e, t)
  | ok _ ↦ elim (preflight c call ordered t).0 [
    | err e ↦ (err e, (preflight c call ordered t).1)
    | ok _ ↦ (ok ordered, commit ordered (preflight c call ordered t).1)
  ]
]

abbrev pub is_empty : List Amount → Bool
is_empty [] = true
is_empty (_ ∷ _) = false

unfoldable pub reserve : Config → ReserveCall → List Amount → Exec Buckets QuotaError (List Amount)
unfolding reserve_merged merge
reserve c call amounts t =
    if is_empty amounts
    then (err nothing_to_reserve, t)
    else reserve_merged c call (merge amounts) t

-- The locks of the registered buckets, in order: a lock that is taken twice is waited for in vain.
unfoldable pub lock_twice : List ℕ → List Amount → Buckets → Bool
lock_twice held [] t = false
lock_twice held (a ∷ xs) t =
    let rest = lock_twice held xs t in
    let with_lock = lock_twice (a.bucket_id ∷ held) xs t in
    if is_some (lookup a.bucket_id t) then contains a.bucket_id held || with_lock else rest

-- `release`
unfoldable pub give_back : ℕ → Bucket → Bucket
give_back n b = record b { reserved = b.reserved - n }

unfoldable pub give_back_all : List Amount → Buckets → Buckets
unfolding give_back
give_back_all [] t = t
give_back_all (a ∷ xs) t =
    give_back_all xs
      (elim (lookup a.bucket_id t) [ none ↦ t | some b ↦ put a.bucket_id (give_back a.amount b) t ])

unfoldable pub release : List Amount → Exec Buckets QuotaError (Unit {0})
unfolding lock_twice give_back_all
release amounts t =
    let ordered = order_by by_bucket amounts in
    if lock_twice [] ordered t then (err never_returns, t) else (ok tt, give_back_all ordered t)
