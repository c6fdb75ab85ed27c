-- ===== src/Prelude/Results.antt =====
-- A call that returns or throws, and the HTTP exceptions that the services throw.
use mathlib.Core.Path.{◌≡◌, refl}

-- `err` carries what was thrown, `ok` what was returned.
pub data Result (Thrown Returned : Type 0) : Type 0 where
  err : Thrown → Result Thrown Returned
  ok : Returned → Result Thrown Returned

module _ {E A B : Type 0} where
  infixl 5 ◌>>=◌
  abbrev pub ◌>>=◌ : Result E A → (A → Result E B) → Result E B
  err thrown >>= next = err thrown
  ok answer >>= next = next answer

  pub >>=-eq-ok :
      (first : Result E A) (next : A → Result E B) {b : B}
      → (first >>= next) ≡ ok b
      → (answer : A) × (first ≡ ok answer) × (next answer ≡ ok b)
  >>=-eq-ok (err thrown) next h = cc
  >>=-eq-ok (ok answer) next h = (answer, refl, h)

pub ok-injective : {E A : Type 0} {a b : A} → ◌≡◌ {A = Result E A} (ok a) (ok b) → a ≡ b
ok-injective h = cc
