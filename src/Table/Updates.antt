-- ===== src/Table/Updates.antt =====
-- What a statement on a table does to the rows that a test counts or finds.
use agent_panel_x.Prelude.{
  [], raising, ◌≤◌, ◌≡◌, refl, ap, ◌∙◌, inl, inr, Bool, true, false, none, some, List, ◌∷◌, map,
  arith, Bool-cases, Option-cases, length, last?, filter, find, count, last?-cons,
  last?-filter-none,
}
use agent_panel_x.Table.{place, update_first, amend}

module _ {ℓ} {A : Type ℓ} where
  pub count-place :
      (before : A → A → Bool) (p : A → Bool) (r : A) (rows : List A)
      → count p (place before r rows) ≡ count p (r ∷ rows)
  unfolding place
  count-place before p r [] = refl
  count-place before p r (x ∷ xs) = ground (arith, count-place before p r xs)

  pub find-none-count : (p : A → Bool) (rows : List A) → find p rows ≡ none → count p rows ≡ 0
  find-none-count p [] h = refl
  find-none-count p (x ∷ xs) h = ground (arith, find-none-count p xs)

  pub count-zero-find : (p : A → Bool) (rows : List A) → count p rows ≡ 0 → find p rows ≡ none
  count-zero-find p [] h = refl
  count-zero-find p (x ∷ xs) h = ground (arith, count-zero-find p xs)

  pub count-narrow :
      (p q : A → Bool) (rows : List A)
      → ((r : A) → q r ≡ true → p r ≡ true)
      → count q rows ≤ count p rows
  count-narrow p q [] narrow = omega arith
  count-narrow p q (x ∷ xs) narrow = ground (arith, narrow x, count-narrow p q xs narrow)

  -- An update that makes no row fit a test adds none that does.
  pub update_first-count :
      (p picks : A → Bool) (change : A → A)
      → ((r : A) → picks r ≡ true → p (change r) ≡ true → p r ≡ true)
      → (rows rows' : List A) (r : A) → update_first picks change rows ≡ some (r, rows')
      → count p rows' ≤ count p rows
  unfolding raising update_first
  update_first-count p picks change keep [] rows' r e = cc
  update_first-count p picks change keep (x ∷ xs) rows' r e = elim (Bool-cases (picks x)) [
    | inl yes_x ↦ ground (arith, keep x)
    | inr no_x ↦ elim (Option-cases (update_first picks change xs)) [
      | inl nothing ↦ absurd (ground arith)
      | inr ((s, rest), found) ↦ ground (arith, update_first-count p picks change keep xs rest s)
    ]
  ]

  -- An update that leaves a test as it is leaves as many rows that fit it.
  pub count-update_first :
      (p picks : A → Bool) (change : A → A)
      → ((r : A) → picks r ≡ true → p (change r) ≡ p r)
      → (rows rows' : List A) (r : A) → update_first picks change rows ≡ some (r, rows')
      → count p rows' ≡ count p rows
  unfolding raising update_first
  count-update_first p picks change keep [] rows' r e = cc
  count-update_first p picks change keep (x ∷ xs) rows' r e = elim (Bool-cases (picks x)) [
    | inl yes_x ↦ ground (arith, keep x)
    | inr no_x ↦ elim (Option-cases (update_first picks change xs)) [
      | inl nothing ↦ absurd (ground arith)
      | inr ((s, rest), found) ↦
          ground (arith, count-update_first p picks change keep xs rest s found)
    ]
  ]

  pub update_first-found :
      (picks : A → Bool) (change : A → A) (rows rows' : List A) (r : A)
      → update_first picks change rows ≡ some (r, rows')
      → (old : A) × (find picks rows ≡ some old) × (r ≡ change old)
  unfolding raising update_first
  update_first-found picks change [] rows' r e = cc
  update_first-found picks change (x ∷ xs) rows' r e = elim (Bool-cases (picks x)) [
    | inl yes_x ↦ (x, ground arith, ground arith)
    | inr no_x ↦ elim (Option-cases (update_first picks change xs)) [
      | inl nothing ↦ absurd (ground arith)
      | inr ((s, rest), found) ↦
          (let (old, f, c) = update_first-found picks change xs rest s found in
            (old, ground (arith, f), ground (arith, c)))
    ]
  ]

  -- Where one row at most is picked and it is the last one of its kind, its new version is the last one.
  pub update_first-last :
      (picks kind : A → Bool) (change : A → A)
      → ((r : A) → kind (change r) ≡ kind r)
      → (rows rows' : List A) (r old : A) → count picks rows ≤ 1
      → last? (filter kind rows) ≡ some old
      → picks old ≡ true
      → update_first picks change rows ≡ some (r, rows')
      → last? (filter kind rows') ≡ some (change old)
  unfolding raising update_first
  update_first-last picks kind change keep [] rows' r old one l p e = cc
  update_first-last picks kind change keep (x ∷ xs) rows' r old one l p e =
      elim (Bool-cases (picks x)) [
        | inl yes_x ↦ elim (Option-cases (last? (filter kind xs))) [
          | inl nothing ↦
              ground (
                arith,
                keep x,
                last?-cons x (filter kind xs),
                last?-cons (change x) (filter kind xs),
              )
          | inr (b, found) ↦
              absurd
                (ground (arith, last?-cons x (filter kind xs), last?-filter-none picks kind xs b))
        ]
        | inr no_x ↦ elim (Option-cases (update_first picks change xs)) [
          | inl nothing ↦ absurd (ground arith)
          | inr ((s, rest), found) ↦ elim (Option-cases (last? (filter kind xs))) [
            | inl nothing ↦ absurd (ground (arith, last?-cons x (filter kind xs)))
            | inr (b, last_b) ↦
                (let same : b ≡ old = ground (arith, last?-cons x (filter kind xs)) in
                  let ih =
                    update_first-last picks kind change keep xs rest s old (ground arith)
                      (last_b ∙ ap some same) p found in
                  ground (arith, ih, last?-cons x (filter kind rest)))
          ]
        ]
      ]

  -- A row that the test of a full update picks and that fits no more is found by it no more.
  pub amend-clears :
      (p : A → Bool) (change : A → A)
      → ((r : A) → p r ≡ true → p (change r) ≡ false)
      → (rows : List A) → find p (map (amend p change) rows) ≡ none
  amend-clears p change drop [] = refl
  amend-clears p change drop (x ∷ xs) = ground (arith, drop x, amend-clears p change drop xs)

  pub count-amend_le :
      (p picks : A → Bool) (change : A → A)
      → ((r : A) → picks r ≡ true → p (change r) ≡ true → p r ≡ true)
      → (rows : List A) → count p (map (amend picks change) rows) ≤ count p rows
  count-amend_le p picks change keep [] = omega arith
  count-amend_le p picks change keep (x ∷ xs) =
      ground (arith, keep x, count-amend_le p picks change keep xs)

  pub count-amend :
      (p picks : A → Bool) (change : A → A)
      → ((r : A) → picks r ≡ true → p (change r) ≡ p r)
      → (rows : List A) → count p (map (amend picks change) rows) ≡ count p rows
  count-amend p picks change keep [] = refl
  count-amend p picks change keep (x ∷ xs) =
      ground (arith, keep x, count-amend p picks change keep xs)

  pub length-amended :
      (p : A → Bool) (f : A → A) (rows : List A) → length (map f (filter p rows)) ≡ count p rows
  length-amended p f [] = refl
  length-amended p f (x ∷ xs) = ground (arith, length-amended p f xs)
