-- ===== src/Table/Amending.antt =====
-- Updates of the row with a key: what becomes of the rows that a test counts.
use mathlib.Core.Path.{subst}
use agent_panel_x.Prelude.{
  [], raising, ◌≡◌, ◌≤◌, refl, inl, inr, Bool, true, false, some, List, ◌∷◌, map, arith, Bool-cases,
  Option-cases, find, count, All, sym,
}
use agent_panel_x.Table.{update_first, amend}
use agent_panel_x.Table.Updates.{count-amend_le}

module _ {ℓ} {A : Type ℓ} where
  -- The only row of a kind is of that kind no more.
  pub amend-drops :
      (p picks : A → Bool) (change : A → A)
      → ((r : A) → picks r ≡ true → p (change r) ≡ false)
      → (rows : List A) (a : A) → count p rows ≤ 1
      → find p rows ≡ some a
      → picks a ≡ true
      → count p (map (amend picks change) rows) ≡ 0
  amend-drops p picks change drop [] a one e h = refl
  amend-drops p picks change drop (x ∷ xs) a one e h = ground (
    arith,
    drop x,
    amend-drops p picks change drop xs a,
    count-amend_le p picks change (λ r yes_r active. ground (arith, drop r)) xs,
  )

  pub amend-none :
      (q picks : A → Bool) (change : A → A)
      → ((r : A) → picks r ≡ true → q r ≡ true)
      → (rows : List A) → count q rows ≡ 0
      → map (amend picks change) rows ≡ rows
  amend-none q picks change narrow [] z = refl
  amend-none q picks change narrow (x ∷ xs) z =
      let no_x : picks x ≡ false = ground (arith, narrow x) in
      let rest = amend-none q picks change narrow xs (ground arith) in rw (no_x, rest) refl

  -- An update of the row with a key counts for a test as the old row did.
  pub count-amend_key :
      (p q picks : A → Bool) (change : A → A)
      → ((r : A) → picks r ≡ true → q r ≡ true)
      → (rows : List A) (a : A) → count q rows ≤ 1
      → find q rows ≡ some a
      → p (change a) ≡ p a
      → count p (map (amend picks change) rows) ≡ count p rows
  count-amend_key p q picks change narrow [] a one e h = refl
  count-amend_key p q picks change narrow (x ∷ xs) a one e h = elim (Bool-cases (q x)) [
    | inl yes_x ↦
        (let same = amend-none q picks change narrow xs (ground arith) in
          let is_a : x ≡ a = ground arith in
          let kept : p (change x) ≡ p x = subst (λ (r : A). p (change r) ≡ p r) (sym is_a) h in
          rw same (elim (Bool-cases (picks x)) [
            | inl picked ↦ rw (picked, kept) refl
            | inr other ↦ rw other refl
          ]))
    | inr no_x ↦
        (let unpicked : picks x ≡ false = ground (arith, narrow x) in
          let rest = count-amend_key p q picks change narrow xs a (ground arith) (ground arith) h in
          rw (unpicked, rest) refl)
  ]

  pub All-amended {κ} :
      (P : A → Type κ) (picks : A → Bool) (change : A → A)
      → ((r : A) → P r → P (change r))
      → (rows : List A) → All P rows
      → All P (map (amend picks change) rows)
  All-amended P picks change keep [] hs = tt
  All-amended P picks change keep (x ∷ xs) hs = elim (Bool-cases (picks x)) [
    | inl picked ↦ rw picked (keep x hs.0, All-amended P picks change keep xs hs.1)
    | inr other ↦ rw other (hs.0, All-amended P picks change keep xs hs.1)
  ]

  pub All-updated {κ} :
      (P : A → Type κ) (picks : A → Bool) (change : A → A)
      → ((r : A) → P r → P (change r))
      → (rows rows' : List A) (a : A) → update_first picks change rows ≡ some (a, rows')
      → All P rows
      → All P rows'
  unfolding raising update_first
  All-updated P picks change keep [] rows' a e hs = cc
  All-updated P picks change keep (x ∷ xs) rows' a e hs = elim (Bool-cases (picks x)) [
    | inl picked ↦
        (let same : change x ∷ xs ≡ rows' = ground arith in subst (All P) same (keep x hs.0, hs.1))
    | inr other ↦ elim (Option-cases (update_first picks change xs)) [
      | inl nothing ↦ absurd (ground arith)
      | inr ((s, rest), found) ↦
          (let same : x ∷ rest ≡ rows' = ground (arith, found) in
            subst (All P) same (hs.0, All-updated P picks change keep xs rest s found hs.1))
    ]
  ]
