-- ===== src/Broker/Tests.antt =====
-- Runs of the circuit breaker and of the policy, and the theorems on them.
use swarmai.Prelude.{
  ℕ, suc, ◌≡◌, ◌↔◌, refl, Bool, true, false, Option, none, some, List, [], ◌∷◌, arith, Result, ok,
}
use swarmai.Broker.Circuit.{ErrorClass, CircuitConfig, assert_closed, record_error}
use swarmai.Broker.Opening.{Event, asks, fails, after_events}
use swarmai.Broker.Policy.{
  AvailabilityStatus, BillingMode, PurposeEligibility, RequestPurpose, RoutePolicyContext,
  AdmissionPolicy, evaluate, Denial, assert_allowed,
}
use swarmai.Broker.Eligible.{Admissible, assert_allowed_iff}

abbrev config : CircuitConfig
config = record { failure_threshold = 3; open_for = 30 }

-- Two failures, and a question before each.
abbrev earlier : List Event
earlier = asks 99 ∷ fails ErrorClass.transient 100 ∷ asks 104 ∷ fails ErrorClass.rate_limit 105 ∷ []

-- They leave the route open to calls.
assert_closed-two : (assert_closed config 8 106 (after_events config 8 earlier [])).0 ≡ ok tt
unfolding assert_closed swarmai.Prelude.lookup record_error swarmai.Prelude.put
assert_closed-two = refl

abbrev policy : AdmissionPolicy
policy = record {
  allow_paid = false;
  allow_unknown_billing = false;
  require_privacy_ref_for_production = true;
}

abbrev route : RoutePolicyContext
route = record {
  availability_status = AvailabilityStatus.available;
  privacy_policy_ref = none;
  qualified = false;
  privacy_ok = true;
  deprecated = false;
  billing_mode = BillingMode.unknown_billing;
  purpose_eligibility = PurposeEligibility.unknown_use;
  charge_verified_free = true;
}

evaluate-probe : evaluate policy RequestPurpose.probe route ≡ none
unfolding evaluate swarmai.Broker.Policy.deny_if
evaluate-probe = refl

evaluate-mission : evaluate policy RequestPurpose.mission route ≡ some Denial.purpose_unknown
unfolding evaluate swarmai.Broker.Policy.deny_if
evaluate-mission = refl

assert_allowed_iff_example :
    (assert_allowed policy RequestPurpose.probe route ≡ ok tt)
    ↔ Admissible policy RequestPurpose.probe route
assert_allowed_iff_example = assert_allowed_iff policy RequestPurpose.probe route
