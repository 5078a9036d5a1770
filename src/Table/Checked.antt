-- ===== src/Table/Checked.antt =====
-- The rows of a table keep the checks of their class, where a check gives its own value back.
use agent_panel_x.Prelude.{
  [], raising, ◌≡◌, sym, ap, ◌∙◌, inl, inr, Bool, Option, none, some, List, ◌∷◌, map, arith,
  Bool-cases, Option-cases, filter, find, All, ◌>>=◌, or_raise, Error, Result, ok, Result-cases,
}
use mathlib.Core.Path.{subst}
use agent_panel_x.Table.{place, update_first, amend, checked, check_rows}

or_raise-some {ℓ} :
    {A : Type ℓ} (o : Option A) (e : Error) (a : A) → or_raise o e ≡ ok a → o ≡ some a
unfolding raising
or_raise-some none e a h = absurd (ground arith)
or_raise-some (some b) e a h = ground arith

pub find-All {ℓ κ} :
    {A : Type ℓ} (P : A → Type κ) (p : A → Bool) (rows : List A) (a : A)
    → All P rows
    → find p rows ≡ some a
    → P a
find-All P p [] a hs e = absurd (ground arith)
find-All P p (x ∷ xs) a hs e = elim (Bool-cases (p x)) [
  | inl yes_x ↦ subst P (ground arith) hs.0
  | inr no_x ↦ find-All P p xs a hs.1 (ground arith)
]

module _ {ℓ} {A : Type ℓ} (check : A → Result A) where
  abbrev pub Passes : A → Type ℓ
  Passes r = check r ≡ ok r

  pub All-place :
      (before : A → A → Bool) (r : A) (rows : List A)
      → Passes r
      → All Passes rows
      → All Passes (place before r rows)
  unfolding place
  All-place before r [] h hs = (h, tt)
  All-place before r (x ∷ xs) h hs = elim (Bool-cases (before r x)) [
    | inl first ↦ rw first (h, (hs.0, hs.1))
    | inr after ↦ rw after (hs.0, All-place before r xs h hs.1)
  ]

  pub All-update_first :
      (picks : A → Bool) (change : A → A) (rows rows' : List A) (r : A)
      → update_first picks change rows ≡ some (r, rows')
      → Passes r
      → All Passes rows
      → All Passes rows'
  unfolding raising update_first
  All-update_first picks change [] rows' r e h hs = cc
  All-update_first picks change (x ∷ xs) rows' r e h hs = elim (Bool-cases (picks x)) [
    | inl yes_x ↦
        (let same : change x ∷ xs ≡ rows' = ground arith in
          let at_r : r ≡ change x = ground arith in
          subst (All Passes) same (subst Passes at_r h, hs.1))
    | inr no_x ↦ elim (Option-cases (update_first picks change xs)) [
      | inl nothing ↦ absurd (ground arith)
      | inr ((s, rest), found) ↦
          (let same : x ∷ rest ≡ rows' = ground (arith, found) in
            let at_r : r ≡ s = ground (arith, found) in
            subst (All Passes) same
              (hs.0, All-update_first picks change xs rest s found (subst Passes at_r h) hs.1))
    ]
  ]

  pub All-amend :
      (picks : A → Bool) (change : A → A) (rows : List A)
      → All Passes rows
      → All Passes (map (amend picks change) (filter picks rows))
      → All Passes (map (amend picks change) rows)
  All-amend picks change [] hs fs = tt
  All-amend picks change (x ∷ xs) hs fs = elim (Bool-cases (picks x)) [
    | inl picked ↦
        (let f : All Passes (map (amend picks change) (x ∷ filter picks xs)) = rw picked at fs in
          (f.0, All-amend picks change xs hs.1 f.1))
    | inr other ↦
        (let f : All Passes (map (amend picks change) (filter picks xs)) = rw other at fs in
          (rw other hs.0, All-amend picks change xs hs.1 f))
  ]

  module _ (identity : (a b : A) → check a ≡ ok b → b ≡ a) where
    pub checked-some :
        (row : Option (A × List A)) (r : A) (rows' : List A)
        → checked check row ≡ ok (some (r, rows'))
        → (row ≡ some (r, rows')) × Passes r
    unfolding raising checked
    checked-some none r rows' h = absurd (ground arith)
    checked-some (some (s, rest)) r rows' h = elim (Result-cases (check s)) [
      | inl (s', e) ↦
          (let same : s' ≡ s = identity s s' e in
            let at_r : s' ≡ r = ground (arith, e) in
            let at_rows : rest ≡ rows' = ground (arith, e) in
            ((λ i. some ((sym same ∙ at_r) i, at_rows i)), subst Passes at_r (ap check same ∙ e)))
      | inr (x, e) ↦ absurd (ground (arith, e))
    ]

    -- The same where no row is an error.
    pub checked-raised :
        (row : Option (A × List A)) (e : Error) (r : A) (rows' : List A)
        → (checked check row >>= λ found. or_raise found e) ≡ ok (r, rows')
        → (row ≡ some (r, rows')) × Passes r
    unfolding raising
    checked-raised row e r rows' h = elim (Result-cases (checked check row)) [
      | inl (o, q) ↦
          checked-some row r rows' (q ∙ ap ok (or_raise-some o e (r, rows') (ground (arith, q))))
      | inr (x, q) ↦ absurd (ground (arith, q))
    ]

    pub check_rows-All :
        (rows checked_rows : List A)
        → check_rows check rows ≡ ok checked_rows
        → (checked_rows ≡ rows) × All Passes rows
    unfolding raising check_rows
    check_rows-All [] checked_rows h = (ground arith, tt)
    check_rows-All (r ∷ rs) checked_rows h = elim (Result-cases (check r)) [
      | inl (r', e) ↦ elim (Result-cases (check_rows check rs)) [
        | inl (rest, es) ↦
            (let same : r' ≡ r = identity r r' e in
              let (sames, alls) = check_rows-All rs rest es in
              let whole : checked_rows ≡ r' ∷ rest = ground (arith, e, es) in
              (whole ∙ (λ i. same i ∷ sames i), (e ∙ ap ok same, alls)))
        | inr (x, es) ↦ absurd (ground (arith, e, es))
      ]
      | inr (x, e) ↦ absurd (ground (arith, e))
    ]
