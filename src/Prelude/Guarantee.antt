-- ===== src/Prelude/Guarantee.antt =====
-- What a call guarantees of its result where it succeeds, with one rule for each way to build a `do`
-- block: the rest of the block may use that the steps before it did not raise.
use mathlib.Core.Path.{◌≡◌, refl, subst}
use mathlib.Core.Bool.{Bool, true, false}
use mathlib.Core.Option.{Option, none, some}
use agent_panel_x.Prelude.Raising.{Error, Result, ok, err, ◌>>=◌, ◌>>◌, raise_if, or_raise, raising}

pub record Ensures {ℓ κ} {A : Type ℓ} (m : Result A) (P : A → Type κ) : Type (ℓ ⊔ κ) where
  pub at : (a : A) → m ≡ ok a → P a

pub Ensures-bind {ℓ κ μ} :
    {A : Type ℓ} {B : Type κ} {P : B → Type μ} (m : Result A) (f : A → Result B)
    → ((a : A) → m ≡ ok a → Ensures (f a) P)
    → Ensures (m >>= f) P
unfolding raising
Ensures-bind (ok a) f k = k a refl
Ensures-bind (err e) f k = record { at = λ a h. cc }

pub Ensures-guard {κ μ} :
    {B : Type κ} {P : B → Type μ} (b : Bool) (e : Error) (m : Result B)
    → (b ≡ false → Ensures m P)
    → Ensures (raise_if b e >> m) P
unfolding raising
Ensures-guard true e m k = record { at = λ a h. cc }
Ensures-guard false e m k = k refl

pub Ensures-or_raise {ℓ κ μ} :
    {A : Type ℓ} {B : Type κ} {P : B → Type μ} (o : Option A) (e : Error) (f : A → Result B)
    → ((a : A) → o ≡ some a → Ensures (f a) P)
    → Ensures (or_raise o e >>= f) P
unfolding raising
Ensures-or_raise none e f k = record { at = λ a h. cc }
Ensures-or_raise (some a) e f k = k a refl

pub Ensures-then {κ μ} :
    {B : Type κ} {P : B → Type μ} (m : Result (Unit {0})) (n : Result B)
    → (m ≡ ok tt → Ensures n P)
    → Ensures (m >> n) P
unfolding raising
Ensures-then (ok u) n k = k refl
Ensures-then (err e) n k = record { at = λ a h. cc }

pub Ensures-ok {ℓ κ} : {A : Type ℓ} (P : A → Type κ) (a : A) → P a → Ensures (ok a) P
Ensures-ok P a h = record { at = λ b e. subst P (cc) h }
