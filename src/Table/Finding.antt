-- ===== src/Table/Finding.antt =====
-- Which row a search finds where at most one row fits its test, before and after an update.
use agent_panel_x.Prelude.{
  [], raising, ◌≤◌, ◌≡◌, refl, inl, inr, Bool, true, false, none, some, List, ◌∷◌, arith,
  Bool-cases, Option-cases, find, count,
}
use agent_panel_x.Table.{place, update_first}

module _ {ℓ} {A : Type ℓ} where
  pub find-le-count :
      (p q : A → Bool) (rows : List A) (a : A)
      → find q rows ≡ some a
      → p a ≡ true
      → 1 ≤ count p rows
  find-le-count p q [] a e h = cc
  find-le-count p q (x ∷ xs) a e h = ground (arith, find-le-count p q xs a)

  -- A row that fits the test is the one that is found, if there is one at most.
  pub find-only :
      (p q : A → Bool) (rows : List A) (a : A)
      → count p rows ≤ 1
      → find q rows ≡ some a
      → p a ≡ true
      → find p rows ≡ some a
  find-only p q [] a one e h = cc
  find-only p q (x ∷ xs) a one e h = ground (arith, find-only p q xs a, find-le-count p q xs a)

  -- The first row of a kind is the first of a narrower kind that it belongs to.
  pub find-narrow :
      (p q : A → Bool) (rows : List A) (a : A)
      → ((r : A) → q r ≡ true → p r ≡ true)
      → find p rows ≡ some a
      → q a ≡ true
      → find q rows ≡ some a
  find-narrow p q [] a narrow e h = cc
  find-narrow p q (x ∷ xs) a narrow e h = ground (arith, narrow x, find-narrow p q xs a narrow)

  pub find-place :
      (before : A → A → Bool) (p : A → Bool) (a : A) (rows : List A)
      → find p rows ≡ none
      → p a ≡ true
      → find p (place before a rows) ≡ some a
  unfolding place
  find-place before p a [] none_yet h = ground arith
  find-place before p a (x ∷ xs) none_yet h = ground (arith, find-place before p a xs)

  update_first-le-count :
      (p picks : A → Bool) (change : A → A) (rows rows' : List A) (a : A)
      → update_first picks change rows ≡ some (a, rows')
      → p a ≡ true
      → 1 ≤ count p rows'
  unfolding raising update_first
  update_first-le-count p picks change [] rows' a e h = cc
  update_first-le-count p picks change (x ∷ xs) rows' a e h = elim (Bool-cases (picks x)) [
    | inl yes_x ↦ ground arith
    | inr no_x ↦ elim (Option-cases (update_first picks change xs)) [
      | inl nothing ↦ absurd (ground arith)
      | inr ((s, rest), found) ↦
          ground (arith, found, update_first-le-count p picks change xs rest s found)
    ]
  ]

  -- The updated row is the one that is found, if it fits and one row at most does.
  pub update_first-only :
      (p picks : A → Bool) (change : A → A) (rows rows' : List A) (a : A)
      → update_first picks change rows ≡ some (a, rows')
      → count p rows' ≤ 1
      → p a ≡ true
      → find p rows' ≡ some a
  unfolding raising update_first
  update_first-only p picks change [] rows' a e one h = cc
  update_first-only p picks change (x ∷ xs) rows' a e one h = elim (Bool-cases (picks x)) [
    | inl yes_x ↦ ground arith
    | inr no_x ↦ elim (Option-cases (update_first picks change xs)) [
      | inl nothing ↦ absurd (ground arith)
      | inr ((s, rest), found) ↦ ground (
        arith,
        found,
        update_first-le-count p picks change xs rest s found,
        update_first-only p picks change xs rest s found,
      )
    ]
  ]

  -- The only row that fits is found no more once an update makes it fit no more.
  pub update_first-drops :
      (p picks : A → Bool) (change : A → A) (rows rows' : List A) (old a : A)
      → update_first picks change rows ≡ some (a, rows')
      → find picks rows ≡ some old
      → count p rows ≤ 1
      → p old ≡ true
      → p a ≡ false
      → count p rows' ≡ 0
  unfolding raising update_first
  update_first-drops p picks change [] rows' old a e f one h gone = cc
  update_first-drops p picks change (x ∷ xs) rows' old a e f one h gone =
      elim (Bool-cases (picks x)) [
        | inl yes_x ↦ ground arith
        | inr no_x ↦ elim (Option-cases (update_first picks change xs)) [
          | inl nothing ↦ absurd (ground arith)
          | inr ((s, rest), found) ↦ ground (
            arith,
            found,
            find-le-count p picks xs old,
            update_first-drops p picks change xs rest old s found,
          )
        ]
      ]

  -- An update finds a row to change where the search does.
  pub update_first-total :
      (picks : A → Bool) (change : A → A) (rows : List A) (old : A)
      → find picks rows ≡ some old
      → (rows' : List A) × (update_first picks change rows ≡ some (change old, rows'))
  unfolding raising update_first
  update_first-total picks change [] old e = cc
  update_first-total picks change (x ∷ xs) old e = elim (Bool-cases (picks x)) [
    | inl yes_x ↦ (change x ∷ xs, ground arith)
    | inr no_x ↦
        (let (rest, found) = update_first-total picks change xs old (ground arith) in
          (x ∷ rest, rw (no_x, found) refl))
  ]
