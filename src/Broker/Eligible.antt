-- ===== src/Broker/Eligible.antt =====
-- About the routes that the policy allows.
use swarmai.Prelude.{
  ◌≡◌, ◌↔◌, refl, Bool, true, false, ◌&&◌, ◌||◌, Option, none, some, truthy, arith, ok,
}
use swarmai.Broker.Policy.{
  RequestPurpose, RoutePolicyContext, AdmissionPolicy, Denial, is_retired, is_down, is_work,
  is_unknown_use, is_production, is_paid, is_unknown_billing, is_trial_run, is_planning, deny_if,
  evaluate, as_raised, assert_allowed,
}

-- A route that may be used for a purpose.
pub record Admissible (p : AdmissionPolicy) (purpose : RequestPurpose) (ctx : RoutePolicyContext)
    : Type 0 where
  pub offered :
      (ctx.deprecated || is_retired ctx.availability_status || is_down ctx.availability_status)
      ≡ false
  pub for_work : is_work purpose ≡ true → is_unknown_use ctx.purpose_eligibility ≡ false
  pub private :
      is_production purpose ≡ true
      → p.require_privacy_ref_for_production ≡ true
      → (truthy ctx.privacy_policy_ref || ctx.privacy_ok) ≡ true
  pub within_budget : is_paid ctx.billing_mode ≡ true → p.allow_paid ≡ true
  pub known_charge :
      is_unknown_billing ctx.billing_mode ≡ true
      → p.allow_unknown_billing ≡ false
      → (ctx.charge_verified_free && is_trial_run purpose) ≡ true
  pub proven : (is_trial_run purpose || is_planning purpose) ≡ false → ctx.qualified ≡ true

deny_if-none :
    (b : Bool) (why : Denial) (rest : Option Denial)
    → (deny_if b why rest ≡ none) ↔ ((b ≡ false) × (rest ≡ none))
unfolding deny_if
deny_if-none true why rest = ((λ h. cc), (λ h. cc))
deny_if-none false why rest = ((λ h. (refl, h)), (λ h. h.1))

evaluate-Admissible :
    (p : AdmissionPolicy) (purpose : RequestPurpose) (ctx : RoutePolicyContext)
    → evaluate p purpose ctx ≡ none
    → Admissible p purpose ctx
unfolding evaluate
evaluate-Admissible p purpose ctx h =
    let a = (deny_if-none _ _ _).0 h in
    let b = (deny_if-none _ _ _).0 a.1 in
    let c = (deny_if-none _ _ _).0 b.1 in
    let d = (deny_if-none _ _ _).0 c.1 in
    let e = (deny_if-none _ _ _).0 d.1 in
    let f = (deny_if-none _ _ _).0 e.1 in
    let g = (deny_if-none _ _ _).0 f.1 in
    record {
      offered = ground (arith, a.0, b.0);
      for_work = λ w. ground (arith, c.0, w);
      private = λ w r. ground (arith, d.0, w, r);
      within_budget = λ w. ground (arith, e.0, w);
      known_charge = λ w r. ground (arith, f.0, w, r);
      proven = λ w. ground (arith, g.0, w);
    }

Admissible-evaluate :
    (p : AdmissionPolicy) (purpose : RequestPurpose) (ctx : RoutePolicyContext)
    → Admissible p purpose ctx
    → evaluate p purpose ctx ≡ none
unfolding evaluate
Admissible-evaluate p purpose ctx a = (deny_if-none _ _ _).1 (
  ground (arith, a.offered),
  (deny_if-none _ _ _).1 (
    ground (arith, a.offered),
    (deny_if-none _ _ _).1 (
      ground (arith, a.for_work),
      (deny_if-none _ _ _).1 (
        ground (arith, a.private),
        (deny_if-none _ _ _).1 (
          ground (arith, a.within_budget),
          (deny_if-none _ _ _).1 (
            ground (arith, a.known_charge),
            (deny_if-none _ _ _).1 (ground (arith, a.proven), refl),
          ),
        ),
      ),
    ),
  ),
)

as_raised-ok : (o : Option Denial) → (as_raised o ≡ ok tt) ↔ (o ≡ none)
as_raised-ok none = ((λ _. refl), (λ _. refl))
as_raised-ok (some why) = ((λ h. cc), (λ h. cc))

-- The policy lets a request use a route exactly when: the route is neither deprecated, nor retired,
-- nor down; for production and mission requests it is known what the route may be used for; for
-- production, where the policy requires a reference to a privacy policy, the route has one or its
-- privacy is otherwise in order; where the route is paid, paid use is allowed; where its billing is
-- not known, that is allowed, or the charge is verified to be none and the request is a trial run; and
-- the route is qualified, unless the request is a trial run or planning.
pub assert_allowed_iff :
    (p : AdmissionPolicy) (purpose : RequestPurpose) (ctx : RoutePolicyContext)
    → (assert_allowed p purpose ctx ≡ ok tt) ↔ Admissible p purpose ctx
unfolding assert_allowed
assert_allowed_iff p purpose ctx = (
  λ h. evaluate-Admissible p purpose ctx ((as_raised-ok (evaluate p purpose ctx)).0 h),
  λ a. (as_raised-ok (evaluate p purpose ctx)).1 (Admissible-evaluate p purpose ctx a),
)
