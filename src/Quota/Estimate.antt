-- ===== src/Quota/Estimate.antt =====
-- `QuotaLedger.estimate_amounts`, and what it returns.
use swarmai.Prelude.{
  ℕ, ◌+◌, ◌≡◌, refl, ap, sym, ◌∙◌, ◌⊎◌, inl, inr, true, false, not, ◌&&◌, ◌||◌, Option, none, some,
  List, [], ◌∷◌, ◌++◌, if◌then◌else◌, contains, max, lookup, is_some, or_default, arith,
  Option-cases, Bool-cases,
}
use swarmai.Prelude.Distinct.{Nodup}
use swarmai.Quota.Buckets.{Buckets, Amount, Dimension, Config, Purpose, is_benchmark, ids}

-- The arguments of the call.
pub record Estimate : Type 0 where
  pub estimated_input_tokens : Option ℕ
  pub max_output_tokens : Option ℕ

unfoldable pub needed : Config → Estimate → Dimension → ℕ
needed c e Dimension.requests = c.default_request_amount
needed c e Dimension.concurrency = c.default_request_amount
needed c e Dimension.output_tokens =
    max 1 (or_default e.max_output_tokens 0 + c.token_safety_margin)
needed c e Dimension.credit = 1
needed c e Dimension.neurons = 1
needed c e _ = max 1 (
    or_default e.estimated_input_tokens 0
    + or_default e.max_output_tokens 0
    + c.token_safety_margin)

-- The loop over the bucket identifiers, with the set of those seen.
unfoldable pub estimate_each : Config → Estimate → Buckets → List ℕ → List ℕ → List Amount
unfolding needed
estimate_each c e t seen [] = []
estimate_each c e t seen (k ∷ ks) =
    let again = estimate_each c e t seen ks in
    let rest = estimate_each c e t (k ∷ seen) ks in
    if contains k seen then again else elim (lookup k t) [
      | none ↦ rest
      | some b ↦
          record { bucket_id = k; dimension = b.dimension; amount = needed c e b.dimension } ∷ rest
    ]

-- A benchmark pays from its own bucket too.
unfoldable pub benchmark_amount : Config → Buckets → Purpose → List ℕ → List Amount
benchmark_amount c t purpose bucket_ids =
    if is_benchmark purpose && not (contains c.benchmark_bucket_id bucket_ids)
    then elim (lookup c.benchmark_bucket_id t) [
      | none ↦ []
      | some b ↦
          record { bucket_id = c.benchmark_bucket_id; dimension = b.dimension; amount = 1 } ∷ []
    ]
    else []

unfoldable pub estimate_amounts : Config → Buckets → List ℕ → Estimate → Purpose → List Amount
unfolding estimate_each benchmark_amount
estimate_amounts c t bucket_ids e purpose =
    estimate_each c e t [] bucket_ids ++ benchmark_amount c t purpose bucket_ids

-- A bucket that was seen is not named again.
contains-estimate_each :
    (c : Config) (e : Estimate) (t : Buckets) (seen ks : List ℕ) (k : ℕ)
    → contains k seen ≡ true
    → contains k (ids (estimate_each c e t seen ks)) ≡ false
unfolding estimate_each
contains-estimate_each c e t seen [] k h = refl
contains-estimate_each c e t seen (j ∷ ks) k h =
    ground (
      arith,
      h,
      contains-estimate_each c e t seen ks k,
      contains-estimate_each c e t (j ∷ seen) ks k,
    )

Nodup-estimate_each :
    (c : Config) (e : Estimate) (t : Buckets) (seen ks : List ℕ)
    → Nodup (ids (estimate_each c e t seen ks))
unfolding estimate_each
Nodup-estimate_each c e t seen [] = tt
Nodup-estimate_each c e t seen (j ∷ ks) = ground (
  arith,
  Nodup-estimate_each c e t seen ks,
  Nodup-estimate_each c e t (j ∷ seen) ks,
  contains-estimate_each c e t (j ∷ seen) ks j,
)

unnamed-estimate_each :
    (c : Config) (e : Estimate) (t : Buckets) (seen ks : List ℕ) (k : ℕ)
    → contains k ks ≡ false
    → contains k (ids (estimate_each c e t seen ks)) ≡ false
unfolding estimate_each
unnamed-estimate_each c e t seen [] k h = refl
unnamed-estimate_each c e t seen (j ∷ ks) k h =
    ground
      (arith, h, unnamed-estimate_each c e t seen ks k, unnamed-estimate_each c e t (j ∷ seen) ks k)

-- Only registered buckets are named.
registered-estimate_each :
    (c : Config) (e : Estimate) (t : Buckets) (seen ks : List ℕ) (k : ℕ)
    → contains k (ids (estimate_each c e t seen ks)) ≡ true
    → is_some (lookup k t) ≡ true
unfolding estimate_each
registered-estimate_each c e t seen [] k h = cc
registered-estimate_each c e t seen (j ∷ ks) k h = ground (
  arith,
  h,
  registered-estimate_each c e t seen ks k,
  registered-estimate_each c e t (j ∷ seen) ks k,
)

ids-append : (xs ys : List Amount) → ids (xs ++ ys) ≡ ids xs ++ ids ys
ids-append [] ys = refl
ids-append (x ∷ xs) ys = ap (λ r. x.bucket_id ∷ r) (ids-append xs ys)

contains-append :
    (k : ℕ) (xs ys : List ℕ) → contains k (xs ++ ys) ≡ (contains k xs || contains k ys)
contains-append k [] ys = refl
contains-append k (x ∷ xs) ys = ground (arith, contains-append k xs ys)

Nodup-snoc : (xs : List ℕ) (k : ℕ) → Nodup xs → contains k xs ≡ false → Nodup (xs ++ k ∷ [])
Nodup-snoc [] k d h = (refl, tt)
Nodup-snoc (x ∷ xs) k d h = ground (arith, Nodup-snoc xs k, contains-append x xs (k ∷ []))

Nodup-snoc_nothing : (xs : List ℕ) → Nodup xs → Nodup (xs ++ [])
Nodup-snoc_nothing [] d = tt
Nodup-snoc_nothing (x ∷ xs) d = ground (arith, Nodup-snoc_nothing xs, contains-append x xs [])

benchmark_amount-ids :
    (c : Config) (t : Buckets) (purpose : Purpose) (bucket_ids : List ℕ)
    → (ids (benchmark_amount c t purpose bucket_ids) ≡ [])
      ⊎ ((ids (benchmark_amount c t purpose bucket_ids) ≡ c.benchmark_bucket_id ∷ [])
          × (contains c.benchmark_bucket_id bucket_ids ≡ false)
          × (is_some (lookup c.benchmark_bucket_id t) ≡ true))
unfolding benchmark_amount
benchmark_amount-ids c t purpose bucket_ids =
    let k = c.benchmark_bucket_id in
    elim (Bool-cases (is_benchmark purpose && not (contains k bucket_ids))) [
      | inr other ↦ inl (rw (other, benchmark_amount) refl)
      | inl due ↦ elim (Option-cases (lookup k t)) [
        | inl e ↦ inl (rw (due, benchmark_amount) (rw e refl))
        | inr (b, e) ↦ inr (rw (due, benchmark_amount) (rw e refl), ground (arith, due), rw e refl)
      ]
    ]

-- The amounts that are estimated for a call name each bucket at most once, and only buckets that
-- are registered.
pub estimate_distinct :
    (c : Config) (t : Buckets) (bucket_ids : List ℕ) (e : Estimate) (purpose : Purpose)
    → Nodup (ids (estimate_amounts c t bucket_ids e purpose))
      × ((k : ℕ)
          → contains k (ids (estimate_amounts c t bucket_ids e purpose)) ≡ true
          → is_some (lookup k t) ≡ true)
unfolding estimate_amounts
estimate_distinct c t bucket_ids e purpose =
    let xs = estimate_each c e t [] bucket_ids in
    let extra = benchmark_amount c t purpose bucket_ids in
    let d = Nodup-estimate_each c e t [] bucket_ids in
    let own = benchmark_amount-ids c t purpose bucket_ids in
    let b = c.benchmark_bucket_id in
    (
      rw (ids-append xs extra) (elim own [
        | inl w ↦ rw w (Nodup-snoc_nothing (ids xs) d)
        | inr (w, new, _) ↦
            rw w (Nodup-snoc (ids xs) b d (unnamed-estimate_each c e t [] bucket_ids b new))
      ]),
      λ k h.
          let named = ap (contains k) (sym (ids-append xs extra)) ∙ h in
          let inside = sym (contains-append k (ids xs) (ids extra)) ∙ named in
          elim own [
            | inl w ↦
                ground
                  (arith, inside, ap (contains k) w, registered-estimate_each c e t [] bucket_ids k)
            | inr (w, _, there) ↦ ground (
              arith,
              inside,
              ap (contains k) w,
              there,
              registered-estimate_each c e t [] bucket_ids k,
            )
          ],
    )
