-- ===== src/Scheduler/Profiles.antt =====
-- `ProfileStore`: which capability profiles let a task family be routed.
use swarmai.Prelude.{
  ℕ, zero, suc, ◌≡◌, refl, inl, inr, Bool, true, false, not, ◌&&◌, Option, none, some, List, [],
  ◌∷◌, ◌==◌, if◌then◌else◌, Table, lookup, keys, rows_among, rows, keep, All, arith, Bool-cases,
  Option-cases,
}
use mathlib.Core.Path.{subst}
use swarmai.Prelude.Distinct.{row-none, row-some, keep-true, keep-false}
use swarmai.Scheduler.Integers.{ℤ, below}

pub data RoutingState : Type 0 where
  unassessed : RoutingState
  provisional : RoutingState
  qualified : RoutingState
  review_only : RoutingState
  quarantined : RoutingState
  stale : RoutingState

pub record CapabilityProfile : Type 0 where
  pub route_fingerprint : ℕ
  pub task_family : ℕ
  pub routing_state : RoutingState

abbrev pub Profiles : Type 0
Profiles = Table CapabilityProfile

abbrev order : RoutingState → ℤ
order RoutingState.unassessed = ℤ.pos 0
order RoutingState.provisional = ℤ.pos 1
order RoutingState.review_only = ℤ.pos 2
order RoutingState.qualified = ℤ.pos 3
order RoutingState.stale = ℤ.negsuc 0
order RoutingState.quarantined = ℤ.negsuc 1

-- `if task_family and p.task_family != task_family: continue`
abbrev other_family : Option ℕ → ℕ → Bool
other_family none family = false
other_family (some zero) family = false
other_family (some (suc f)) family = not (family == suc f)

abbrev below_minimum : Option RoutingState → RoutingState → Bool
below_minimum none held = false
below_minimum (some least) held = below (order held) (order least)

abbrev is_withdrawn : RoutingState → Bool
is_withdrawn RoutingState.quarantined = true
is_withdrawn RoutingState.stale = true
is_withdrawn _ = false

abbrev for_routing : Option RoutingState → Bool
for_routing (some RoutingState.qualified) = true
for_routing (some RoutingState.provisional) = true
for_routing _ = false

abbrev matches : Option ℕ → Option RoutingState → CapabilityProfile → Bool
matches family least p =
    not (other_family family p.task_family)
    && not (below_minimum least p.routing_state)
    && not (is_withdrawn p.routing_state && for_routing least)

unfoldable pub query : Option ℕ → Option RoutingState → Profiles → List (ℕ × CapabilityProfile)
unfolding keep rows
query family least profiles = keep (λ row. matches family least row.1) (rows profiles)

abbrev stale_profile : ℕ → CapabilityProfile → CapabilityProfile
stale_profile fingerprint p =
    if p.route_fingerprint == fingerprint
    then record p { routing_state = RoutingState.stale }
    else p

-- Every profile of the route becomes stale.
unfoldable pub mark_alias_stale : ℕ → Profiles → Profiles
mark_alias_stale fingerprint [] = []
mark_alias_stale fingerprint ((k, p) ∷ ps) =
    (k, stale_profile fingerprint p) ∷ mark_alias_stale fingerprint ps

abbrev stale_row : ℕ → Option CapabilityProfile → Option CapabilityProfile
stale_row fingerprint none = none
stale_row fingerprint (some p) = some (stale_profile fingerprint p)

lookup-mark_alias_stale :
    (fingerprint k : ℕ) (ps : Profiles)
    → lookup k (mark_alias_stale fingerprint ps) ≡ stale_row fingerprint (lookup k ps)
unfolding lookup mark_alias_stale
lookup-mark_alias_stale fingerprint k [] = refl
lookup-mark_alias_stale fingerprint k ((j, q) ∷ ps) = elim (Bool-cases (j == k)) [
  | inl same ↦ rw same refl
  | inr other ↦ rw other (lookup-mark_alias_stale fingerprint k ps)
]

-- No profile of the route passes a query for routing.
abbrev IsStale : ℕ → Option CapabilityProfile → Type 0
IsStale fingerprint none = Unit
IsStale fingerprint (some p) =
    (p.route_fingerprint == fingerprint) ≡ true → is_withdrawn p.routing_state ≡ true

stale_row-IsStale :
    (fingerprint : ℕ) (o : Option CapabilityProfile) → IsStale fingerprint (stale_row fingerprint o)
stale_row-IsStale fingerprint none = tt
stale_row-IsStale fingerprint (some p) = elim (Bool-cases (p.route_fingerprint == fingerprint)) [
  | inl hit ↦ rw hit (λ r. refl)
  | inr miss ↦ rw miss (λ r. cc)
]

matches-IsStale :
    (fingerprint : ℕ) (family : Option ℕ) (least : Option RoutingState) (p : CapabilityProfile)
    → for_routing least ≡ true
    → IsStale fingerprint (some p)
    → matches family least p ≡ true
    → (p.route_fingerprint == fingerprint) ≡ false
matches-IsStale fingerprint family least p routing h m =
    elim (Bool-cases (p.route_fingerprint == fingerprint)) [
      | inr miss ↦ miss
      | inl hit ↦ let gone = h hit in ground (arith, m, gone, routing)
    ]

module _ (fingerprint : ℕ) (family : Option ℕ) (least : Option RoutingState)
    (routing : for_routing least ≡ true) where
  query_among-stale :
      (ks : List ℕ) (ps : Profiles)
      → ((k : ℕ) → IsStale fingerprint (lookup k ps))
      → All
          (λ row. (row.1.route_fingerprint == fingerprint) ≡ false)
          (keep (λ row. matches family least row.1) (rows_among ks ps))
  unfolding rows_among keep
  query_among-stale [] ps h = tt
  query_among-stale (k ∷ ks) ps h = elim (Option-cases (lookup k ps)) [
    | inl e ↦ rw (row-none k ks ps e) (query_among-stale ks ps h)
    | inr (p, e) ↦ rw (row-some k ks ps e) (elim (Bool-cases (matches family least p)) [
      | inl kept ↦
          rw (keep-true (λ row. matches family least row.1) (k, p) (rows_among ks ps) kept) (
            matches-IsStale fingerprint family least p routing (subst (IsStale fingerprint) e (h k))
                kept,
            query_among-stale ks ps h,
          )
      | inr dropped ↦
          rw (keep-false (λ row. matches family least row.1) (k, p) (rows_among ks ps) dropped)
            (query_among-stale ks ps h)
    ])
  ]

  -- Once the profiles of a route are marked as stale, no query for provisional or qualified profiles
  -- returns one of that route.
  pub query-mark_alias_stale :
      (ps : Profiles)
      → All
          (λ row. (row.1.route_fingerprint == fingerprint) ≡ false)
          (query family least (mark_alias_stale fingerprint ps))
  unfolding query rows
  query-mark_alias_stale ps =
      query_among-stale (keys (mark_alias_stale fingerprint ps)) (mark_alias_stale fingerprint ps)
        (λ k.
          rw (lookup-mark_alias_stale fingerprint k ps)
            (stale_row-IsStale fingerprint (lookup k ps)))
