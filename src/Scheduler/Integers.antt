-- ===== src/Scheduler/Integers.antt =====
-- Python's integers, where a subtraction may lead below 0.
use swarmai.Prelude.{ℕ, suc, ◌-◌, Bool, true, false, ltb, leb, ◌&&◌, if◌then◌else◌}

pub data ℤ : Type 0 where
  pos : ℕ → ℤ
  negsuc : ℕ → ℤ

-- `a - b`
unfoldable pub minus : ℕ → ℕ → ℤ
minus a b = if leb b a then ℤ.pos (a - b) else ℤ.negsuc (b - suc a)

abbrev pub below : ℤ → ℤ → Bool
below (ℤ.pos m) (ℤ.pos n) = ltb m n
below (ℤ.negsuc _) (ℤ.pos _) = true
below (ℤ.pos _) (ℤ.negsuc _) = false
below (ℤ.negsuc m) (ℤ.negsuc n) = ltb n m

abbrev pub equal : ℤ → ℤ → Bool
equal (ℤ.pos m) (ℤ.pos n) = leb m n && leb n m
equal (ℤ.negsuc m) (ℤ.negsuc n) = leb m n && leb n m
equal _ _ = false
