-- ===== src/Base/Exceptions.antt =====
-- Python exceptions as values, and the monad of code that may raise.
use Prim.Native.String.{String}
use mathlib.Core.Path.{◌≡◌, refl}
use mathlib.Core.Logic.{◌⊎◌, inl, inr}
use mathlib.Core.Option.{Option, none, some}

-- `ill_typed`: a value outside the annotated type of the field that it would fill.
pub data Exception : Type 0 where
  assertion_error : Exception
  key_error : String → Exception
  value_error : String → Exception
  ill_typed : String → Exception
  runtime_error : String → Exception

pub data Except {ℓ} (A : Type ℓ) : Type ℓ where
  ok : A → Except A
  raised : Exception → Except A

infixl 5 ◌>>=◌ ◌>>◌
abbrev pub ◌>>=◌ {ℓ κ} : {A : Type ℓ} {B : Type κ} → Except A → (A → Except B) → Except B
ok a >>= f = f a
raised e >>= f = raised e

abbrev pub ◌>>◌ {ℓ} : {B : Type ℓ} → Except (Unit {0}) → Except B → Except B
m >> k = m >>= λ _. k

-- `assert x is not None`.
abbrev pub assert_some {ℓ} : {A : Type ℓ} → Option A → Except A
assert_some none = raised assertion_error
assert_some (some a) = ok a

pub Except-cases {ℓ} :
    {A : Type ℓ} (m : Except A) → ((a : A) × (m ≡ ok a)) ⊎ ((e : Exception) × (m ≡ raised e))
Except-cases (ok a) = inl (a, refl)
Except-cases (raised e) = inr (e, refl)
