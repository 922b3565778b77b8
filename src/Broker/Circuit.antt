-- ===== src/Broker/Circuit.antt =====
-- `CircuitBreaker`: the health of each route, and the window in which it is not called.
use swarmai.Prelude.{
  ℕ, suc, ◌+◌, Bool, true, false, Option, none, some, ltb, leb, if◌then◌else◌, Table, lookup, put,
  ok, err, Exec,
}

pub data ErrorClass : Type 0 where
  rate_limit : ErrorClass
  authentication : ErrorClass
  quota_exhausted : ErrorClass
  transient : ErrorClass
  unsupported_capability : ErrorClass
  invalid_request : ErrorClass
  policy_denied : ErrorClass
  partial_stream : ErrorClass
  unknown_outcome : ErrorClass

pub record HealthObservation : Type 0 where
  pub successes : ℕ
  pub failures : ℕ
  pub auth_failures : ℕ
  pub overloads : ℕ
  pub unknown_outcomes : ℕ
  pub consecutive_failures : ℕ
  pub opened_at : Option ℕ
  pub last_error_class : Option ErrorClass
  pub pricing_fresh_at : Option ℕ
  pub allowance_fresh_at : Option ℕ

pub record CircuitConfig : Type 0 where
  pub failure_threshold : ℕ
  pub open_for : ℕ

abbrev pub HealthTable : Type 0
HealthTable = Table HealthObservation

pub data CircuitOpenError : Type 0 where
  circuit_open : ℕ → CircuitOpenError

abbrev pub fresh_health : HealthObservation
fresh_health = record {
  successes = 0;
  failures = 0;
  auth_failures = 0;
  overloads = 0;
  unknown_outcomes = 0;
  consecutive_failures = 0;
  opened_at = none;
  last_error_class = none;
  pricing_fresh_at = none;
  allowance_fresh_at = none;
}

abbrev health_or_new : Option HealthObservation → HealthObservation
health_or_new none = fresh_health
health_or_new (some h) = h

-- The observation of a route, a fresh one if there is none.
unfoldable pub health : ℕ → HealthTable → HealthObservation
health route_id t = health_or_new (lookup route_id t)

-- Is the window still running?
abbrev pub is_open : CircuitConfig → ℕ → Option ℕ → Bool
is_open c now none = false
is_open c now (some opened) = ltb now (opened + c.open_for)

abbrev pub after_window : Option ℕ → HealthObservation → HealthObservation
after_window none h = h
after_window (some opened) h = record h { opened_at = none; consecutive_failures = 0 }

unfoldable pub assert_closed : CircuitConfig → ℕ → ℕ → Exec HealthTable CircuitOpenError (Unit {0})
unfolding health
assert_closed c route_id now t =
    let h = health route_id t in
    if is_open c now h.opened_at
    then (err (CircuitOpenError.circuit_open route_id), put route_id h t)
    else (ok tt, put route_id (after_window h.opened_at h) t)

unfoldable pub record_success : ℕ → ℕ → HealthTable → HealthTable
unfolding health
record_success route_id now t =
    let h = health route_id t in
    put route_id
      (record h {
        successes = suc h.successes;
        consecutive_failures = 0;
        opened_at = none;
        allowance_fresh_at = some now;
      })
      t

abbrev pub is_authentication : ErrorClass → Bool
is_authentication ErrorClass.authentication = true
is_authentication _ = false

abbrev pub counted : ErrorClass → HealthObservation → HealthObservation
counted ErrorClass.rate_limit h = record h { overloads = suc h.overloads }
counted ErrorClass.unknown_outcome h = record h { unknown_outcomes = suc h.unknown_outcomes }
counted _ h = h

abbrev failed_once : ErrorClass → HealthObservation → HealthObservation
failed_once code h = record h { last_error_class = some code; failures = suc h.failures }

abbrev auth_failed : ℕ → HealthObservation → HealthObservation
auth_failed now h = record h {
  auth_failures = suc h.auth_failures;
  opened_at = some now;
  consecutive_failures = suc h.consecutive_failures;
}

-- The route is closed off from the threshold on.
abbrev tripped : CircuitConfig → ℕ → HealthObservation → HealthObservation
tripped c now h =
    if leb c.failure_threshold (suc h.consecutive_failures)
    then record h { consecutive_failures = suc h.consecutive_failures; opened_at = some now }
    else record h { consecutive_failures = suc h.consecutive_failures }

abbrev pub observe_error : CircuitConfig → ErrorClass → ℕ → HealthObservation → HealthObservation
observe_error c code now h =
    if is_authentication code
    then auth_failed now (failed_once code h)
    else tripped c now (counted code (failed_once code h))

unfoldable pub record_error : CircuitConfig → ℕ → ErrorClass → ℕ → HealthTable → HealthTable
unfolding health
record_error c route_id code now t = put route_id (observe_error c code now (health route_id t)) t

unfoldable pub mark_pricing_fresh : ℕ → ℕ → HealthTable → HealthTable
unfolding health
mark_pricing_fresh route_id now t =
    put route_id (record (health route_id t) { pricing_fresh_at = some now }) t
