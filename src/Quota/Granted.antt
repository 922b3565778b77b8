-- ===== src/Quota/Granted.antt =====
-- The preflight of a reservation: which buckets it touches, and what it grants.
use swarmai.Prelude.{
  ℕ, ◌-◌, ◌≤◌, ◌≡◌, refl, sym, ap, ◌∙◌, ◌⊎◌, inl, inr, true, false, Option, none, some, List, [],
  ◌∷◌, ◌==◌, if◌then◌else◌, contains, lookup, lookup-put, arith, ok, Result-cases, Option-cases,
  Bool-cases, ==_iff,
}
use swarmai.Prelude.Distinct.{Nodup}
use swarmai.Quota.Buckets.{
  Buckets, Bucket, Amount, Config, ids, requested, maybe_reset, effective_remaining,
}
use swarmai.Quota.Reserve.{ReserveCall, admit, preflight_one, preflight}
use swarmai.Quota.Merge.{requested-cons}

abbrev pub on_row : (Bucket → Bucket) → Option Bucket → Option Bucket
on_row f none = none
on_row f (some b) = some (f b)

-- One round resets the bucket that it looks at.
preflight_one-row :
    (c : Config) (call : ReserveCall) (a : Amount) (t : Buckets) (k : ℕ)
    → lookup k (preflight_one c call a t).1
      ≡ (if a.bucket_id == k then on_row (maybe_reset call.now) (lookup k t) else lookup k t)
unfolding preflight_one
preflight_one-row c call a t k = elim (Option-cases (lookup a.bucket_id t)) [
  | inl e ↦ rw (e, preflight_one) (ground (arith, e))
  | inr (b, e) ↦
      rw (e, preflight_one) (ground (arith, e, lookup-put k a.bucket_id (maybe_reset call.now b) t))
]

-- A bucket that is not asked for stays.
pub preflight-elsewhere :
    (c : Config) (call : ReserveCall) (xs : List Amount) (t : Buckets) (k : ℕ)
    → contains k (ids xs) ≡ false
    → lookup k (preflight c call xs t).1 ≡ lookup k t
unfolding preflight
preflight-elsewhere c call [] t k h = refl
preflight-elsewhere c call (a ∷ xs) t k h = ground (
  arith,
  preflight_one-row c call a t k,
  preflight-elsewhere c call xs (preflight_one c call a t).1 k,
)

-- What an admission says of the bucket.
admit-ok :
    (c : Config) (call : ReserveCall) (a : Amount) (b : Bucket) (r : ℕ) {u : Unit {0}}
    → admit c call a (effective_remaining b) ≡ ok u
    → b.remaining ≡ some r
    → a.amount ≤ r - b.reserved
unfolding admit effective_remaining
admit-ok c call a b r h e = ground arith

one-granted :
    (c : Config) (call : ReserveCall) (a : Amount) (t : Buckets) (b : Bucket) (r : ℕ) {u : Unit {0}}
    → (preflight_one c call a t).0 ≡ ok u
    → lookup a.bucket_id t ≡ some b
    → (maybe_reset call.now b).remaining ≡ some r
    → a.amount ≤ r - (maybe_reset call.now b).reserved
unfolding preflight_one
one-granted c call a t b r h found er =
    admit-ok c call a (maybe_reset call.now b) r (ground (arith, h, found)) er

-- A bucket that is not named is asked for nothing.
pub requested-absent : (k : ℕ) (xs : List Amount) → contains k (ids xs) ≡ false → requested k xs ≡ 0
unfolding requested
requested-absent k [] h = refl
requested-absent k (a ∷ xs) h = ground (arith, requested-absent k xs)

granted-here :
    (c : Config) (call : ReserveCall) (a : Amount) (t : Buckets) (before : Option Bucket)
    (b : Bucket) (r : ℕ) {u : Unit {0}}
    → (preflight_one c call a t).0 ≡ ok u
    → lookup a.bucket_id t ≡ before
    → some b ≡ on_row (maybe_reset call.now) before
    → b.remaining ≡ some r
    → a.amount ≤ r - b.reserved
granted-here c call a t none b r h found e er = cc
granted-here c call a t (some b0) b r h found e er =
    let same : b ≡ maybe_reset call.now b0 = ground (arith, e) in
    rw same (one-granted c call a t b0 r h found (rw (← same) er))

-- A preflight that ends well has passed every round.
preflight-inv :
    (c : Config) (call : ReserveCall) (a : Amount) (xs : List Amount) (t : Buckets) {u : Unit {0}}
    → (preflight c call (a ∷ xs) t).0 ≡ ok u
    → ((preflight_one c call a t).0 ≡ ok tt)
      × ((preflight c call xs (preflight_one c call a t).1).0 ≡ ok tt)
      × ((preflight c call (a ∷ xs) t).1 ≡ (preflight c call xs (preflight_one c call a t).1).1)
unfolding preflight
preflight-inv c call a xs t h = ground arith

-- So each bucket asked for has what is asked of it.
pub preflight-granted :
    (c : Config) (call : ReserveCall) (xs : List Amount) (t : Buckets) (k : ℕ) (b : Bucket) (r : ℕ)
    {u : Unit {0}}
    → (preflight c call xs t).0 ≡ ok u
    → Nodup (ids xs)
    → contains k (ids xs) ≡ true
    → lookup k (preflight c call xs t).1 ≡ some b
    → b.remaining ≡ some r
    → requested k xs ≤ r - b.reserved
preflight-granted c call [] t k b r h d asked e er = cc
preflight-granted c call (a ∷ xs) t k b r h d asked e er =
    let (h1, h2, w) = preflight-inv c call a xs t h in
    let t1 = (preflight_one c call a t).1 in
    let one = preflight_one-row c call a t k in
    let later : lookup k (preflight c call xs t1).1 ≡ some b = ap (λ s. lookup k s) (sym w) ∙ e in
    elim (Bool-cases (a.bucket_id == k)) [
      | inl h ↦
          let same : a.bucket_id ≡ k = (==_iff a.bucket_id k).0 h in
          let absent : contains k (ids xs) ≡ false = ground (arith, d.0) in
          let row = sym later ∙ preflight-elsewhere c call xs t1 k absent ∙ one ∙ rw h refl in
          grind (
            arith,
            requested-cons k a xs,
            requested-absent k xs absent,
            granted-here c call a t (lookup k t) b r h1 (ap (λ j. lookup j t) same) row er,
          )
      | inr h ↦ grind (
        arith,
        requested-cons k a xs,
        preflight-granted c call xs t1 k b r h2 d.1 (ground (arith, asked)) later er,
      )
    ]

-- The rows after a preflight that ends well.
pub preflight-row :
    (c : Config) (call : ReserveCall) (xs : List Amount) (t : Buckets) (k : ℕ) {u : Unit {0}}
    → (preflight c call xs t).0 ≡ ok u
    → Nodup (ids xs)
    → lookup k (preflight c call xs t).1
      ≡ (if contains k (ids xs) then on_row (maybe_reset call.now) (lookup k t) else lookup k t)
unfolding preflight
preflight-row c call [] t k h d = refl
preflight-row c call (a ∷ xs) t k h d =
    let (h1, h2, w) = preflight-inv c call a xs t h in
    ground (
      arith,
      w,
      preflight_one-row c call a t k,
      preflight-row c call xs (preflight_one c call a t).1 k h2 d.1,
    )

-- The rows after one that does not: each is as it was, or with its window reset.
pub preflight-failed :
    (c : Config) (call : ReserveCall) (xs : List Amount) (t : Buckets) (k : ℕ)
    → Nodup (ids xs)
    → (lookup k (preflight c call xs t).1 ≡ lookup k t)
      ⊎ (lookup k (preflight c call xs t).1 ≡ on_row (maybe_reset call.now) (lookup k t))
unfolding preflight
preflight-failed c call [] t k d = inl refl
preflight-failed c call (a ∷ xs) t k d =
    let one = preflight_one-row c call a t k in
    let t1 = (preflight_one c call a t).1 in
    elim (Result-cases (preflight_one c call a t).0) [
      | inr (e, failed) ↦
          rw (failed, preflight)
            (elim (Bool-cases (a.bucket_id == k)) [
              | inl h ↦ inr (one ∙ rw h refl)
              | inr h ↦ inl (one ∙ rw h refl)
            ])
      | inl (u, passed) ↦
          rw (passed, preflight)
            (elim (Bool-cases (a.bucket_id == k)) [
              | inl h ↦
                  inr (preflight-elsewhere c call xs t1 k (ground (arith, d.0)) ∙ one ∙ rw h refl)
              | inr h ↦ elim (preflight-failed c call xs t1 k d.1) [
                | inl same ↦ inl (same ∙ one ∙ rw h refl)
                | inr reset ↦ inr (reset ∙ ap (on_row (maybe_reset call.now)) (one ∙ rw h refl))
              ]
            ])
    ]
