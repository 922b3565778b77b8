-- ===== src/Prelude/Check.antt =====
-- `do` blocks of tests that may raise.
use mathlib.Core.Path.{◌≡◌, refl}
use swarmai.Prelude.Raising.{Result, ok, err, then_result}

infixl 5 ◌>>=◌ ◌>>◌
abbrev pub ◌>>=◌ {ℓ κ ν} :
    {E : Type ℓ} {A : Type κ} {B : Type ν} → Result E A → (A → Result E B) → Result E B
m >>= f = then_result m f

abbrev pub ◌>>◌ {ℓ κ} : {E : Type ℓ} {B : Type κ} → Result E (Unit {0}) → Result E B → Result E B
m >> k = then_result m (λ _. k)

-- A block that returns has passed its first test, and has returned from the rest.
pub then_result-eq-ok {ℓ κ ν} :
    {E : Type ν} {A : Type ℓ} {B : Type κ} (test : Result E A) (rest : A → Result E B) {value : B}
    → then_result test rest ≡ ok value
    → (a : A) × (test ≡ ok a) × (rest a ≡ ok value)
then_result-eq-ok (err why) rest returned = cc
then_result-eq-ok (ok a) rest returned = (a, refl, returned)
