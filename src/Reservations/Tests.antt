-- ===== src/Reservations/Tests.antt =====
-- A reservation that names one resource twice, and the theorem on it.
use swarmai.Prelude.{
  ℕ, suc, ◌+◌, ◌≡◌, refl, Bool, true, false, List, [], ◌∷◌, lookup, some, Result, ok,
}
use swarmai.Scheduler.Integers.{ℤ, minus, below}
use swarmai.Reservations.Service.{
  Arithmetic, ReservationComponent, Reservations, ReserveCall, reserve,
}
use swarmai.Reservations.Returned.{GrantedOrRefused, reserve-Undone}

-- Units that are whole numbers.
abbrev add : ℤ → ℤ → ℤ
add (ℤ.pos a) (ℤ.pos b) = ℤ.pos (a + b)
add (ℤ.pos a) (ℤ.negsuc b) = minus a (suc b)
add (ℤ.negsuc a) (ℤ.pos b) = minus b (suc a)
add (ℤ.negsuc a) (ℤ.negsuc b) = ℤ.negsuc (suc (a + b))

abbrev sub : ℤ → ℤ → ℤ
sub (ℤ.pos a) (ℤ.pos b) = minus a b
sub (ℤ.pos a) (ℤ.negsuc b) = ℤ.pos (suc (a + b))
sub (ℤ.negsuc a) (ℤ.pos b) = ℤ.negsuc (a + b)
sub (ℤ.negsuc a) (ℤ.negsuc b) = minus b a

abbrev whole : Arithmetic ℤ
whole = record { zero = ℤ.pos 0; add = add; sub = sub; is_below = below }

abbrev service : Reservations ℤ
service = record {
  current_epoch = 2;
  backpressure_floor = ℤ.pos 1;
  by_attempt = [];
  capacity = (4, ℤ.pos 3) ∷ (5, ℤ.pos 9) ∷ [];
  draining = false;
}

abbrev component : ℕ → ℕ → ReservationComponent ℤ
component resource units = record { resource = resource; units = ℤ.pos units }

abbrev call : ReserveCall ℤ
call = record {
  project_id = 1;
  mission_id = 1;
  attempt_id = 70;
  site_epoch = 2;
  components = component 4 2 ∷ component 5 1 ∷ component 4 2 ∷ [];
}

-- Each component fits by itself; together they take more than there is.
reserve-twice : lookup 4 (reserve whole 33 call service).1.capacity ≡ some (ℤ.negsuc 0)
unfolding reserve lookup minus swarmai.Prelude.put
reserve-twice = refl

reserve-Undone_example : GrantedOrRefused whole call service (reserve whole 33 call service)
reserve-Undone_example = reserve-Undone whole 33 call service
