-- ===== src/Broker/Opening.antt =====
-- About a route whose calls fail again and again.
use swarmai.Prelude.{ℕ, suc, ◌+◌, ◌≤◌, ◌≡◌, Bool, true, not, ◌&&◌, none, some, List, [], ◌∷◌}
use swarmai.Broker.Circuit.{
  ErrorClass, HealthObservation, CircuitConfig, HealthTable, assert_closed, record_error,
  is_authentication,
}

-- What the broker does on one route, with the time: it asks whether the route may be called, or a
-- call has failed.
pub data Event : Type 0 where
  asks : ℕ → Event
  fails : ErrorClass → ℕ → Event

abbrev after_event : CircuitConfig → ℕ → Event → HealthTable → HealthTable
after_event c route_id (asks now) t = (assert_closed c route_id now t).1
after_event c route_id (fails code now) t = record_error c route_id code now t

abbrev pub after_events : CircuitConfig → ℕ → List Event → HealthTable → HealthTable
after_events c route_id [] t = t
after_events c route_id (e ∷ es) t = after_events c route_id es (after_event c route_id e t)

-- The number of failures, and whether none of them is for authentication.
abbrev pub failures : List Event → ℕ
failures [] = 0
failures (asks _ ∷ es) = failures es
failures (fails _ _ ∷ es) = suc (failures es)

abbrev pub is_mild : List Event → Bool
is_mild [] = true
is_mild (asks _ ∷ es) = is_mild es
is_mild (fails code _ ∷ es) = not (is_authentication code) && is_mild es

-- What an error does to a route.
record Worse (c : CircuitConfig) (now : ℕ) (h k : HealthObservation) : Type 0 where
  more : k.consecutive_failures ≡ suc h.consecutive_failures
  opens : c.failure_threshold ≤ suc h.consecutive_failures → k.opened_at ≡ some now

-- A route that has failed less often than the threshold says, after questions and `n` failures.
record Failing (n : ℕ) (h k : HealthObservation) : Type 0 where
  not_opened : k.opened_at ≡ none
  number : k.consecutive_failures ≡ h.consecutive_failures + n

-- The next failure of the route is the last that the threshold allows: the route is not closed off
-- at first, none of the failures since is for authentication, and with those that its health counts
-- already they are one fewer than the threshold.
pub record LastAllowed (c : CircuitConfig) (h : HealthObservation) (es : List Event) : Type 0 where
  pub not_opened : h.opened_at ≡ none
  pub mild : is_mild es ≡ true
  pub number : suc (h.consecutive_failures + failures es) ≡ c.failure_threshold
