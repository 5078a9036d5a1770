-- ===== src/Delivery/Snapshot/Keys.antt =====
-- Laws of key lists: `_require_unique` over an appended View.
use mathlib.Core.List.{map-append}
use agent_panel_x.Prelude.{
  [], String, ◌≡◌, refl, Bool, true, false, not, ◌&&◌, List, ◌∷◌, ◌++◌, arith, ◌==◌, eq_iff,
  &&-true, any, any-append,
}
use agent_panel_x.Delivery.Models.{Milestone, occurs, unique, milestone_keys}

pub unique-append :
    (xs ys : List String)
    → unique (xs ++ ys) ≡ (unique xs && unique ys && not (any (λ k. occurs k ys) xs))
unique-append [] ys = ground arith
unique-append (x ∷ xs) ys =
    rw (any-append (λ other. other == x) xs ys, unique-append xs ys) (ground arith)

pub milestone_keys-append :
    (xs ys : List Milestone) → milestone_keys (xs ++ ys) ≡ milestone_keys xs ++ milestone_keys ys
milestone_keys-append xs ys = map-append (λ m. m.key) xs ys

pub occurs_self : (k : String) (keys : List String) → occurs k (k ∷ keys) ≡ true
occurs_self k keys = ground (arith, eq_iff k k)

any_mono :
    (keys : List String) (p q : String → Bool)
    → ((k : String) → q k ≡ true → p k ≡ true)
    → any p keys ≡ false
    → any q keys ≡ false
any_mono [] p q h e = refl
any_mono (k ∷ keys) p q h e = ground (arith, h k, any_mono keys p q h)

unique-tail :
    (x : String) (before after : List String) (k : String)
    → unique (x ∷ before ++ k ∷ after) ≡ true
    → unique (before ++ k ∷ after) ≡ true
unique-tail x before after k u = (&&-true _ _ u).1

unique-split_step :
    (x : String) (before after : List String) (k : String)
    → unique (x ∷ before ++ k ∷ after) ≡ true
    → (occurs k before ≡ false) × (occurs k after ≡ false)
    → (occurs k (x ∷ before) ≡ false) × (occurs k after ≡ false)
unique-split_step x before after k u split = (
  ground (arith, any-append (λ other. other == x) before (k ∷ after), eq_iff x k, eq_iff k x),
  split.1,
)

-- In a list without duplicates, the key of one element is on neither side of it.
pub unique-split :
    (before after : List String) (k : String)
    → unique (before ++ k ∷ after) ≡ true
    → (occurs k before ≡ false) × (occurs k after ≡ false)
unique-split [] after k u = (refl, ground arith)
unique-split (x ∷ before) after k u =
    unique-split_step x before after k u
      (unique-split before after k (unique-tail x before after k u))
