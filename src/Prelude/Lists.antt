-- ===== src/Prelude/Lists.antt =====
-- Lists measured by native numbers, searches with a Boolean test, and predicates by recursion.
use Prim.Native.Nat.{ℕ, suc, ◌+◌}
use mathlib.Core.Path.{◌≡◌, refl}
use mathlib.Core.Bool.{Bool, true, false, ◌&&◌, ◌||◌}
use mathlib.Core.Option.{Option, none, some}
use mathlib.Core.List.{[], List, ◌∷◌, ◌++◌}
use native.Mathlib.Omega.{arith}
use mathlib.Core.Logic.{inl, inr}
use agent_panel_x.Prelude.Tests.{Option-cases, if◌then◌else◌, Bool-cases}

module _ {ℓ} {A : Type ℓ} where
  abbrev pub length : List A → ℕ
  length [] = 0
  length (x ∷ xs) = suc (length xs)

  -- `xs[0]` and `xs[-1]`, with `none` for an empty sequence.
  abbrev pub head? : List A → Option A
  head? [] = none
  head? (x ∷ xs) = some x

  abbrev pub last? : List A → Option A
  last? [] = none
  last? (x ∷ []) = some x
  last? (x ∷ y ∷ xs) = last? (y ∷ xs)

  -- `tuple(x for x in xs if p(x))`, `any` and `all`.
  abbrev pub filter : (A → Bool) → List A → List A
  filter p [] = []
  filter p (x ∷ xs) = let rest = filter p xs in if p x then x ∷ rest else rest

  abbrev pub any : (A → Bool) → List A → Bool
  any p [] = false
  any p (x ∷ xs) = p x || any p xs

  abbrev pub all : (A → Bool) → List A → Bool
  all p [] = true
  all p (x ∷ xs) = p x && all p xs

  -- `next((x for x in xs if p(x)), None)`.
  abbrev pub find : (A → Bool) → List A → Option A
  find p [] = none
  find p (x ∷ xs) = if p x then some x else find p xs

  abbrev pub count : (A → Bool) → List A → ℕ
  count p [] = 0
  count p (x ∷ xs) = let rest = count p xs in if p x then suc rest else rest

abbrev pub All {ℓ κ} : {A : Type ℓ} → (A → Type κ) → List A → Type κ
All P [] = Unit
All P (x ∷ xs) = P x × All P xs

pub All-append {ℓ κ} :
    {A : Type ℓ} (P : A → Type κ) (xs ys : List A) → All P xs → All P ys → All P (xs ++ ys)
All-append P [] ys hx hy = hy
All-append P (x ∷ xs) ys hx hy = (hx.0, All-append P xs ys hx.1 hy)

module _ {ℓ} {A : Type ℓ} (p : A → Bool) where
  pub count-append : (xs ys : List A) → count p (xs ++ ys) ≡ count p xs + count p ys
  count-append [] ys = omega arith
  count-append (x ∷ xs) ys = ground (arith, count-append xs ys)

  pub count-filter_all : (xs : List A) → count p (filter p xs) ≡ count p xs
  count-filter_all [] = refl
  count-filter_all (x ∷ xs) = ground (arith, count-filter_all xs)

  pub all-append : (xs ys : List A) → all p (xs ++ ys) ≡ (all p xs && all p ys)
  all-append [] ys = refl
  all-append (x ∷ xs) ys = ground (arith, all-append xs ys)

  pub any-append : (xs ys : List A) → any p (xs ++ ys) ≡ (any p xs || any p ys)
  any-append [] ys = refl
  any-append (x ∷ xs) ys = ground (arith, any-append xs ys)

  pub filter-append : (xs ys : List A) → filter p (xs ++ ys) ≡ filter p xs ++ filter p ys
  filter-append [] ys = refl
  filter-append (x ∷ xs) ys = ground (arith, filter-append xs ys)

  pub all-filter : (xs : List A) → all p (filter p xs) ≡ true
  all-filter [] = refl
  all-filter (x ∷ xs) = ground (arith, all-filter xs)

  pub find-holds : (xs : List A) (a : A) → find p xs ≡ some a → p a ≡ true
  find-holds [] a h = cc
  find-holds (x ∷ xs) a h = ground (arith, find-holds xs a)

  pub last?-snoc : (xs : List A) (a : A) → last? (xs ++ a ∷ []) ≡ some a
  last?-snoc [] a = refl
  last?-snoc (x ∷ []) a = refl
  last?-snoc (x ∷ y ∷ xs) a = last?-snoc (y ∷ xs) a

module _ {ℓ} {A : Type ℓ} where
  abbrev pub or_else : Option A → A → A
  or_else none a = a
  or_else (some b) a = b

  pub last?-cons : (x : A) (xs : List A) → last? (x ∷ xs) ≡ some (or_else (last? xs) x)
  last?-cons x [] = refl
  last?-cons x (y ∷ []) = refl
  last?-cons x (y ∷ z ∷ xs) = rw (last?-cons y (z ∷ xs))

  pub last?-filter-none :
      (p q : A → Bool) (xs : List A) (a : A)
      → count p xs ≡ 0
      → last? (filter q xs) ≡ some a
      → p a ≡ false
  last?-filter-none p q [] a h e = cc
  last?-filter-none p q (x ∷ xs) a h e = elim (Bool-cases (q x)) [
    | inl kept ↦ elim (Option-cases (last? (filter q xs))) [
      | inl nothing ↦ ground (arith, last?-cons x (filter q xs))
      | inr (b, found) ↦ ground (arith, last?-cons x (filter q xs), last?-filter-none p q xs b)
    ]
    | inr dropped ↦ ground (arith, last?-filter-none p q xs a)
  ]

  pub last?-filter-holds :
      (q : A → Bool) (xs : List A) (a : A) → last? (filter q xs) ≡ some a → q a ≡ true
  last?-filter-holds q [] a e = cc
  last?-filter-holds q (x ∷ xs) a e = elim (Bool-cases (q x)) [
    | inl kept ↦ elim (Option-cases (last? (filter q xs))) [
      | inl nothing ↦ ground (arith, last?-cons x (filter q xs))
      | inr (b, found) ↦ ground (arith, last?-cons x (filter q xs), last?-filter-holds q xs b)
    ]
    | inr dropped ↦ ground (arith, last?-filter-holds q xs a)
  ]
