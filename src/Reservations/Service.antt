-- ===== src/Reservations/Service.antt =====
-- `ReservationService`. A resource is named by its kind and identifier, together one number. Units and
-- capacities are Python's floating point numbers: a type and its arithmetic, of which nothing is known.
use swarmai.Prelude.{
  ℕ, Bool, true, false, Option, none, some, List, [], ◌∷◌, ◌!=◌, is_some, if◌then◌else◌, Table,
  lookup, put, Result, ok, err, raise_if, Exec,
}
use swarmai.Prelude.Act.{pure, reads, modify, ◌>>◌}

-- What the code does with the numbers `U`: `0.0`, `+`, `-` and `<`.
pub record Arithmetic (U : Type 0) : Type 0 where
  pub zero : U
  pub add : U → U → U
  pub sub : U → U → U
  pub is_below : U → U → Bool

pub record ReservationComponent (U : Type 0) : Type 0 where
  pub resource : ℕ
  pub units : U

pub data IntentState : Type 0 where
  reserved : IntentState
  committed : IntentState
  released : IntentState
  failed : IntentState

pub record ReservationIntent (U : Type 0) : Type 0 where
  pub intent_id : ℕ
  pub project_id : ℕ
  pub mission_id : ℕ
  pub attempt_id : ℕ
  pub site_epoch : ℕ
  pub components : List (ReservationComponent U)
  pub state : IntentState

pub record Reservations (U : Type 0) : Type 0 where
  pub current_epoch : ℕ
  pub backpressure_floor : U
  pub by_attempt : Table (ReservationIntent U)
  pub capacity : Table U
  pub draining : Bool

pub data ReservationError : Type 0 where
  stale_epoch : ℕ → ReservationError
  drain_active : ReservationError
  duplicate_attempt : ℕ → ReservationError
  unknown_resource : ℕ → ReservationError
  insufficient_capacity : ℕ → ReservationError
  backpressure : ℕ → ReservationError
  intent_missing : ReservationError

unfoldable pub set_capacity : {U : Type 0} → ℕ → U → Reservations U → Reservations U
set_capacity resource units s = record s { capacity = put resource units s.capacity }

unfoldable pub begin_drain : {U : Type 0} → Reservations U → Reservations U
begin_drain s = record s { draining = true }

unfoldable pub end_drain : {U : Type 0} → Reservations U → Reservations U
end_drain s = record s { draining = false }

abbrev pub check_available :
    {U : Type 0}
    → Arithmetic U
    → U
    → ReservationComponent U
    → Option U
    → Result ReservationError (Unit {0})
check_available f floor c none = err (ReservationError.unknown_resource c.resource)
check_available f floor c (some available) =
    if f.is_below available c.units
    then err (ReservationError.insufficient_capacity c.resource)
    else if f.is_below (f.sub available c.units) floor
    then err (ReservationError.backpressure c.resource)
    else ok tt

abbrev pub and_then :
    Result ReservationError (Unit {0})
    → Result ReservationError (Unit {0})
    → Result ReservationError (Unit {0})
and_then (ok _) later = later
and_then (err e) later = err e

-- The first loop: each component by itself, against the capacity before the reservation.
unfoldable pub check_all :
    {U : Type 0}
    → Arithmetic U
    → U
    → Table U
    → List (ReservationComponent U)
    → Result ReservationError (Unit {0})
check_all f floor t [] = ok tt
check_all f floor t (c ∷ cs) =
    and_then (check_available f floor c (lookup c.resource t)) (check_all f floor t cs)

abbrev pub take_one :
    {U : Type 0} → Arithmetic U → ReservationComponent U → Option U → Table U → Table U
take_one f c none t = t
take_one f c (some x) t = put c.resource (f.sub x c.units) t

-- The second loop. The components have been found by the first.
unfoldable pub take_all :
    {U : Type 0} → Arithmetic U → List (ReservationComponent U) → Table U → Table U
take_all f [] t = t
take_all f (c ∷ cs) t = take_all f cs (take_one f c (lookup c.resource t) t)

pub record ReserveCall (U : Type 0) : Type 0 where
  pub project_id : ℕ
  pub mission_id : ℕ
  pub attempt_id : ℕ
  pub site_epoch : ℕ
  pub components : List (ReservationComponent U)

abbrev pub new_intent : {U : Type 0} → ℕ → ReserveCall U → ReservationIntent U
new_intent intent_id call = record {
  intent_id = intent_id;
  project_id = call.project_id;
  mission_id = call.mission_id;
  attempt_id = call.attempt_id;
  site_epoch = call.site_epoch;
  components = call.components;
  state = IntentState.reserved;
}

abbrev pub book :
    {U : Type 0}
    → Arithmetic U
    → ReserveCall U
    → ReservationIntent U
    → Reservations U
    → Reservations U
book f call intent s = record s {
  capacity = take_all f call.components s.capacity;
  by_attempt = put call.attempt_id intent s.by_attempt;
}

-- `intent_id` is a fresh identifier.
unfoldable pub reserve :
    {U : Type 0}
    → Arithmetic U
    → ℕ
    → ReserveCall U
    → Exec (Reservations U) ReservationError (ReservationIntent U)
unfolding check_all take_all
reserve f intent_id call = do
  reads (λ s.
      raise_if (call.site_epoch != s.current_epoch) (ReservationError.stale_epoch call.site_epoch))
  reads (λ s. raise_if s.draining ReservationError.drain_active)
  reads (λ s.
      raise_if (is_some (lookup call.attempt_id s.by_attempt))
        (ReservationError.duplicate_attempt call.attempt_id))
  reads (λ s. check_all f s.backpressure_floor s.capacity call.components)
  modify (book f call (new_intent intent_id call))
  pure (new_intent intent_id call)

abbrev pub capacity_or_zero : {U : Type 0} → Arithmetic U → Option U → U
capacity_or_zero f none = f.zero
capacity_or_zero f (some x) = x

abbrev pub give_one :
    {U : Type 0} → Arithmetic U → ReservationComponent U → Option U → Table U → Table U
give_one f c o t = put c.resource (f.add (capacity_or_zero f o) c.units) t

unfoldable pub give_all :
    {U : Type 0} → Arithmetic U → List (ReservationComponent U) → Table U → Table U
give_all f [] t = t
give_all f (c ∷ cs) t = give_all f cs (give_one f c (lookup c.resource t) t)

abbrev pub is_released : IntentState → Bool
is_released IntentState.released = true
is_released _ = false

abbrev pub released_intent : {U : Type 0} → ReservationIntent U → ReservationIntent U
released_intent i = record i { state = IntentState.released }

abbrev pub give_back :
    {U : Type 0} → Arithmetic U → ℕ → ReservationIntent U → Reservations U → Reservations U
give_back f attempt_id i s = record s {
  capacity = give_all f i.components s.capacity;
  by_attempt = put attempt_id (released_intent i) s.by_attempt;
}

abbrev pub release_found :
    {U : Type 0}
    → Arithmetic U
    → ℕ
    → Option (ReservationIntent U)
    → Exec (Reservations U) ReservationError (ReservationIntent U)
release_found f attempt_id none s = (err ReservationError.intent_missing, s)
release_found f attempt_id (some i) s =
    if is_released i.state then (ok i, s) else (ok (released_intent i), give_back f attempt_id i s)

unfoldable pub release :
    {U : Type 0} → Arithmetic U → ℕ → Exec (Reservations U) ReservationError (ReservationIntent U)
unfolding give_all
release f attempt_id s = release_found f attempt_id (lookup attempt_id s.by_attempt) s

-- Only the current epoch may release.
unfoldable pub cancel :
    {U : Type 0}
    → Arithmetic U
    → ℕ
    → ℕ
    → Exec (Reservations U) ReservationError (ReservationIntent U)
unfolding release
cancel f attempt_id site_epoch = do
  reads (λ s. raise_if (site_epoch != s.current_epoch) (ReservationError.stale_epoch site_epoch))
  release f attempt_id
