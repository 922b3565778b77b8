-- ===== src/Broker/Policy.antt =====
-- `AdmissionPolicy`: purpose, privacy, cost and qualification of a route.
use swarmai.Prelude.{
  ℕ, Bool, true, false, not, ◌&&◌, ◌||◌, Option, none, some, truthy, if◌then◌else◌, Result, ok, err,
}

pub data AvailabilityStatus : Type 0 where
  unknown : AvailabilityStatus
  available : AvailabilityStatus
  degraded : AvailabilityStatus
  unavailable : AvailabilityStatus
  disabled : AvailabilityStatus
  retired : AvailabilityStatus

pub data BillingMode : Type 0 where
  free : BillingMode
  trial : BillingMode
  paid : BillingMode
  unknown_billing : BillingMode
  no_billing : BillingMode

pub data PurposeEligibility : Type 0 where
  prototype : PurposeEligibility
  internal : PurposeEligibility
  production_use : PurposeEligibility
  unknown_use : PurposeEligibility

-- The purposes that the policy names, and any other text.
pub data RequestPurpose : Type 0 where
  production : RequestPurpose
  mission : RequestPurpose
  probe : RequestPurpose
  benchmark : RequestPurpose
  catalog : RequestPurpose
  planning : RequestPurpose
  other_purpose : ℕ → RequestPurpose

pub record RoutePolicyContext : Type 0 where
  pub availability_status : AvailabilityStatus
  pub privacy_policy_ref : Option ℕ
  pub qualified : Bool
  pub privacy_ok : Bool
  pub deprecated : Bool
  pub billing_mode : BillingMode
  pub purpose_eligibility : PurposeEligibility
  pub charge_verified_free : Bool

pub record AdmissionPolicy : Type 0 where
  pub allow_paid : Bool
  pub allow_unknown_billing : Bool
  pub require_privacy_ref_for_production : Bool

pub data Denial : Type 0 where
  model_deprecated : Denial
  route_unavailable : Denial
  purpose_unknown : Denial
  privacy_policy_missing : Denial
  spending_denied_before_network : Denial
  unknown_charge_exposure : Denial
  not_qualified : Denial

abbrev pub is_retired : AvailabilityStatus → Bool
is_retired AvailabilityStatus.retired = true
is_retired _ = false

abbrev pub is_down : AvailabilityStatus → Bool
is_down AvailabilityStatus.disabled = true
is_down AvailabilityStatus.unavailable = true
is_down _ = false

abbrev pub is_work : RequestPurpose → Bool
is_work RequestPurpose.production = true
is_work RequestPurpose.mission = true
is_work _ = false

abbrev pub is_unknown_use : PurposeEligibility → Bool
is_unknown_use PurposeEligibility.unknown_use = true
is_unknown_use _ = false

abbrev pub is_production : RequestPurpose → Bool
is_production RequestPurpose.production = true
is_production _ = false

abbrev pub is_paid : BillingMode → Bool
is_paid BillingMode.paid = true
is_paid _ = false

abbrev pub is_unknown_billing : BillingMode → Bool
is_unknown_billing BillingMode.unknown_billing = true
is_unknown_billing _ = false

abbrev pub is_trial_run : RequestPurpose → Bool
is_trial_run RequestPurpose.probe = true
is_trial_run RequestPurpose.benchmark = true
is_trial_run RequestPurpose.catalog = true
is_trial_run _ = false

abbrev pub is_planning : RequestPurpose → Bool
is_planning RequestPurpose.planning = true
is_planning _ = false

-- `if b: return PolicyDecision(False, why, ...)`
unfoldable pub deny_if : Bool → Denial → Option Denial → Option Denial
deny_if b why rest = if b then some why else rest

-- The reason why the route may not be used for the purpose, if there is one.
unfoldable pub evaluate : AdmissionPolicy → RequestPurpose → RoutePolicyContext → Option Denial
evaluate p purpose ctx =
    deny_if (ctx.deprecated || is_retired ctx.availability_status) Denial.model_deprecated (
      deny_if (is_down ctx.availability_status) Denial.route_unavailable (
        deny_if (is_work purpose && is_unknown_use ctx.purpose_eligibility) Denial.purpose_unknown (
          deny_if
            (is_production purpose
              && p.require_privacy_ref_for_production
              && not (truthy ctx.privacy_policy_ref)
              && not ctx.privacy_ok)
            Denial.privacy_policy_missing
            (deny_if (is_paid ctx.billing_mode && not p.allow_paid)
              Denial.spending_denied_before_network
              (deny_if
                (is_unknown_billing ctx.billing_mode
                  && not p.allow_unknown_billing
                  && not (ctx.charge_verified_free && is_trial_run purpose))
                Denial.unknown_charge_exposure
                (deny_if (not ctx.qualified && not (is_trial_run purpose || is_planning purpose))
                  Denial.not_qualified none))))))

pub data PolicyError : Type 0 where
  unknown_charge_denied : Denial → PolicyError
  policy_denied_error : Denial → PolicyError

abbrev denied_as : Denial → PolicyError
denied_as Denial.unknown_charge_exposure =
    PolicyError.unknown_charge_denied Denial.unknown_charge_exposure
denied_as Denial.spending_denied_before_network =
    PolicyError.unknown_charge_denied Denial.spending_denied_before_network
denied_as why = PolicyError.policy_denied_error why

abbrev pub as_raised : Option Denial → Result PolicyError (Unit {0})
as_raised none = ok tt
as_raised (some why) = err (denied_as why)

unfoldable pub assert_allowed :
    AdmissionPolicy → RequestPurpose → RoutePolicyContext → Result PolicyError (Unit {0})
unfolding evaluate
assert_allowed p purpose ctx = as_raised (evaluate p purpose ctx)
