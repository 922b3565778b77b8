-- ===== src/Quota/Covered.antt =====
-- The invariant of `QuotaLedger`, and the operations that write its buckets.
use swarmai.Prelude.{
  ℕ, ◌-◌, ◌≤◌, ◌≡◌, refl, sym, ap, ◌∙◌, ◌⊎◌, inl, inr, Option, none, some, List, [], ◌∷◌, contains,
  lookup, put, lookup-put, arith, ok, Result-cases, Option-cases, Bool-cases,
}
use swarmai.Prelude.Distinct.{Nodup}
use swarmai.Prelude.Paging.{order_by}
use swarmai.Quota.Buckets.{
  Buckets, Bucket, Amount, Config, ids, requested, maybe_reset, next_window, by_bucket,
}
use swarmai.Quota.Reserve.{
  ReserveCall, merge, preflight, hold, reserve, give_back, give_back_all, release, lock_twice,
}
use swarmai.Quota.Settle.{Ledger, Usage, settle_bucket, settle_all, settled, settle}
use swarmai.Quota.Merge.{requested-merge, requested-order_by, Nodup-merge, Nodup-sorted}
use swarmai.Quota.Granted.{on_row, preflight-granted, preflight-failed, requested-absent}
use swarmai.Quota.Exact.{commit-row, give_back_all-row, Reserved, reserve-Reserved}
use swarmai.Quota.Reservation.{refreshed, reserve-hold, reserve_atomic, lock_twice-distinct}

-- What a bucket can cover; a quota that is not known covers nothing.
abbrev pub budget : Bucket → ℕ
budget b = elim b.remaining [ none ↦ 0 | some r ↦ r ]

pub record Covered (t : Buckets) : Type 0 where
  pub within : (k : ℕ) (b : Bucket) → lookup k t ≡ some b → b.reserved ≤ budget b

abbrev pub RowCovered : Option Bucket → Type 0
RowCovered o = (b : Bucket) → o ≡ some b → b.reserved ≤ budget b

pub maybe_reset-Covered :
    (now : ℕ) (b : Bucket)
    → b.reserved ≤ budget b
    → (maybe_reset now b).reserved ≤ budget (maybe_reset now b)
unfolding maybe_reset next_window
maybe_reset-Covered now b h = ground arith

give_back-Covered :
    (n : ℕ) (b : Bucket) → b.reserved ≤ budget b → (give_back n b).reserved ≤ budget (give_back n b)
unfolding give_back
give_back-Covered n b h = ground arith

settle_bucket-Covered :
    (usage : Usage) (clock : ℕ) (a : Amount) (b : Bucket)
    → b.reserved ≤ budget b
    → (settle_bucket usage clock a b).reserved ≤ budget (settle_bucket usage clock a b)
unfolding settle_bucket
settle_bucket-Covered usage clock a b h = ground arith

hold-Covered :
    (n : ℕ) (b : Bucket)
    → b.reserved ≤ budget b
    → ((r : ℕ) → b.remaining ≡ some r → n ≤ r - b.reserved)
    → (hold n b).reserved ≤ budget (hold n b)
unfolding hold
hold-Covered n b h granted = elim (Option-cases b.remaining) [
  | inl e ↦ ground (arith, e)
  | inr (r, e) ↦ ground (arith, e, granted r e)
]

restored : (n : ℕ) (b : Bucket) → b.reserved ≤ budget b → give_back n (hold n b) ≡ b
unfolding give_back hold
restored n b h = ground arith

-- A row that a covered row is rewritten to.
row-Covered :
    (f : Bucket → Bucket) (o : Option Bucket) {p : Option Bucket}
    → p ≡ on_row f o
    → ((b : Bucket) → o ≡ some b → (f b).reserved ≤ budget (f b))
    → RowCovered p
row-Covered f none w h b e = cc
row-Covered f (some b0) w h b e = let same : b ≡ f b0 = ground (arith, w, e) in rw same (h b0 refl)

refreshed-Covered :
    (now : ℕ) (t : Buckets) (k : ℕ) {p : Option Bucket}
    → Covered t
    → (p ≡ lookup k t) ⊎ (p ≡ on_row (maybe_reset now) (lookup k t))
    → RowCovered p
refreshed-Covered now t k x (inl w) = λ b e. x.within k b (sym w ∙ e)
refreshed-Covered now t k x (inr w) =
    row-Covered (maybe_reset now) (lookup k t) w (λ b e. maybe_reset-Covered now b (x.within k b e))

preflight-Covered :
    (c : Config) (call : ReserveCall) (xs : List Amount) (t : Buckets)
    → Nodup (ids xs)
    → Covered t
    → Covered (preflight c call xs t).1
preflight-Covered c call xs t d x = record {
  within = λ k. refreshed-Covered call.now t k x (preflight-failed c call xs t k d);
}

Reserved-Covered :
    (c : Config) (call : ReserveCall) (amounts : List Amount) (t : Buckets) {ordered : List Amount}
    {after : Buckets}
    → Covered t
    → Reserved c call amounts ordered t after
    → Covered after
Reserved-Covered c call amounts t {after = after} x p =
    let xs = merge amounts in
    let t1 = (preflight c call xs t).1 in
    let y = preflight-Covered c call xs t (Nodup-merge amounts) x in
    record {
      within = λ k.
          row-Covered (hold (requested k xs)) (lookup k t1)
            (ap (λ s. lookup k s) p.committed ∙ commit-row xs t1 k)
            (λ b e. hold-Covered (requested k xs) b (y.within k b e) (λ r er.
              elim (Bool-cases (contains k (ids xs))) [
                | inl named ↦
                    preflight-granted c call xs t k b r p.granted (Nodup-merge amounts) named e er
                | inr absent ↦ omega (arith, requested-absent k xs absent)
              ]));
    }

-- `reserve` never holds more of a bucket than remains of it, whether it succeeds or raises.
pub reserve-Covered :
    (c : Config) (call : ReserveCall) (amounts : List Amount) (t : Buckets)
    → Covered t
    → Covered (reserve c call amounts t).1
reserve-Covered c call amounts t x = elim (Result-cases (reserve c call amounts t).0) [
  | inl (ordered, e) ↦
      Reserved-Covered c call amounts t x
        (reserve-Reserved c call amounts t (ap (λ r. (r, (reserve c call amounts t).1)) e))
  | inr (why, e) ↦ record {
    within = λ k. refreshed-Covered call.now t k x (
        reserve_atomic c call amounts t k {e = why}
          (ap (λ r. (r, (reserve c call amounts t).1)) e));
  }
]

give_back_all-Covered : (xs : List Amount) (t : Buckets) → Covered t → Covered (give_back_all xs t)
give_back_all-Covered xs t x = record {
  within = λ k.
      row-Covered (give_back (requested k xs)) (lookup k t) (give_back_all-row xs t k)
        (λ b e. give_back-Covered (requested k xs) b (x.within k b e));
}

pub release-Covered :
    (amounts : List Amount) (t : Buckets) → Covered t → Covered (release amounts t).1
unfolding release
release-Covered amounts t x = elim (Bool-cases (lock_twice [] (order_by by_bucket amounts) t)) [
  | inl e ↦ rw (e, release) x
  | inr e ↦ rw (e, release) (give_back_all-Covered (order_by by_bucket amounts) t x)
]

-- To give back what was just held of a covered bucket restores it.
give_back_held :
    (n : ℕ) (o : Option Bucket) → RowCovered o → on_row (give_back n) (on_row (hold n) o) ≡ o
give_back_held n none x = refl
give_back_held n (some b) x = ap (λ r. some r) (restored n b (x b refl))

-- From covered buckets, what `reserve` returned can be given back at once: `release` returns, and
-- every bucket is as before the reservation, or with its due window reset if it was asked for.
pub release-reserve :
    (c : Config) (call : ReserveCall) (amounts : List Amount) (t : Buckets) (k : ℕ)
    {ordered : List Amount} {after : Buckets}
    → Covered t
    → reserve c call amounts t ≡ (ok ordered, after)
    → ((release ordered after).0 ≡ ok tt)
      × (lookup k (release ordered after).1 ≡ refreshed call.now amounts t k)
unfolding release
release-reserve c call amounts t k {ordered = ordered} {after = after} x h =
    let p = reserve-Reserved c call amounts t h in
    let sorted = order_by by_bucket (merge amounts) in
    let free =
      lock_twice-distinct [] sorted after (Nodup-sorted (merge amounts) (Nodup-merge amounts))
        (λ j _. refl) in
    let row = refreshed call.now amounts t k in
    rw p.merged (
      rw (free, release)
        (
          refl,
          give_back_all-row sorted after k
              ∙ rw
                  (
                    requested-order_by k (merge amounts),
                    requested-merge k amounts,
                    reserve-hold c call amounts t k h,
                  )
                  (give_back_held (requested k amounts) row
                    (elim (Bool-cases (contains k (ids amounts))) [
                      | inl e ↦ rw e (refreshed-Covered call.now t k x (inr refl))
                      | inr e ↦ rw e (refreshed-Covered call.now t k x (inl refl))
                    ])),
        ))

-- `settle` keeps the invariant.
settle_one-Covered :
    (usage : Usage) (clock : ℕ) (a : Amount) (t : Buckets)
    → Covered t
    → Covered (elim (lookup a.bucket_id t) [
      | none ↦ t
      | some b ↦ put a.bucket_id (settle_bucket usage clock a b) t
    ])
settle_one-Covered usage clock a t x = elim (Option-cases (lookup a.bucket_id t)) [
  | inl e ↦ rw e x
  | inr (b, e) ↦ rw e (record {
    within = λ k p w. ground (
      arith,
      w,
      lookup-put k a.bucket_id (settle_bucket usage clock a b) t,
      x.within k p,
      settle_bucket-Covered usage clock a b (x.within a.bucket_id b e),
    );
  })
]

settle_all-Covered :
    (usage : Usage) (clock : ℕ) (xs : List Amount) (t : Buckets)
    → Covered t
    → Covered (settle_all usage clock xs t)
unfolding settle_all
settle_all-Covered usage clock [] t x = x
settle_all-Covered usage clock (a ∷ xs) t x =
    settle_all-Covered usage clock xs _ (settle_one-Covered usage clock a t x)

pub settle-Covered :
    (usage : Usage) (clock key : ℕ) (amounts : List Amount) (s : Ledger)
    → Covered s.buckets
    → Covered (settle usage clock key amounts s).1.buckets
unfolding settle settled
settle-Covered usage clock key amounts s x = elim (Bool-cases (contains key s.settled_keys)) [
  | inl seen ↦ rw (seen, settle) x
  | inr fresh ↦
      rw (fresh, settle)
        (elim (Bool-cases (lock_twice [] (order_by by_bucket amounts) s.buckets)) [
          | inl stuck ↦ rw stuck x
          | inr free ↦
              rw free (settle_all-Covered usage clock (order_by by_bucket amounts) s.buckets x)
        ])
]
