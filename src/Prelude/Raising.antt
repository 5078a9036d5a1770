-- ===== src/Prelude/Raising.antt =====
-- Exceptions as values: the class of an error with its message, the bind of `do` blocks, and the
-- inversion of a successful call.
use Prim.Native.String.{String}
use mathlib.Core.Path.{◌≡◌, refl}
use mathlib.Core.Logic.{◌⊎◌, inl, inr}
use mathlib.Core.Bool.{Bool, true, false}
use mathlib.Core.Option.{Option, none, some}

pub data Error : Type 0 where
  value_error : String → Error
  lookup_error : String → Error
  delivery_error : String → Error
  planning_error : String → Error
  git_error : String → Error
  integrity_error : String → Error
  runtime_error : String → Error
  fence_error : String → Error
  timeout_error : String → Error
  stop_iteration : Error

-- `str(error)`.
unfoldable pub error_message : Error → String
error_message (value_error m) = m
error_message (lookup_error m) = m
error_message (delivery_error m) = m
error_message (planning_error m) = m
error_message (git_error m) = m
error_message (integrity_error m) = m
error_message (runtime_error m) = m
error_message (fence_error m) = m
error_message (timeout_error m) = m
error_message stop_iteration = ""

pub data Result {ℓ} (A : Type ℓ) : Type ℓ where
  ok : A → Result A
  err : Error → Result A

infixl 5 ◌>>=◌ ◌>>◌
unfoldable pub ◌>>=◌ {ℓ κ} : {A : Type ℓ} {B : Type κ} → Result A → (A → Result B) → Result B
ok a >>= f = f a
err e >>= f = err e

unfoldable pub ◌>>◌ {ℓ} : {B : Type ℓ} → Result (Unit {0}) → Result B → Result B
unfolding ◌>>=◌
m >> k = m >>= λ _. k

-- `if test: raise error`.
unfoldable pub raise_if : Bool → Error → Result (Unit {0})
raise_if true e = err e
raise_if false e = ok tt

-- `if value is None: raise error`.
unfoldable pub or_raise {ℓ} : {A : Type ℓ} → Option A → Error → Result A
or_raise none e = err e
or_raise (some a) e = ok a

-- Opens the steps of a `do` block in a proof that computes through them.
unfoldable pub raising : Unit {0}
unfolding ◌>>=◌ ◌>>◌ raise_if or_raise
raising = tt

pub Result-cases {ℓ} :
    {A : Type ℓ} (r : Result A) → ((a : A) × (r ≡ ok a)) ⊎ ((e : Error) × (r ≡ err e))
Result-cases (ok a) = inl (a, refl)
Result-cases (err e) = inr (e, refl)
