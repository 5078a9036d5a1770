-- ===== src/Table/Keeping.antt =====
-- A search that a statement on a table leaves as it was.
use mathlib.Core.Path.{subst}
use agent_panel_x.Prelude.{
  [], raising, ◌≡◌, ◌≤◌, refl, inl, inr, Bool, true, false, none, some, List, ◌∷◌, ◌++◌, map, arith,
  Bool-cases, Option-cases, find, count, sym,
}
use agent_panel_x.Table.{update_first, amend}
use agent_panel_x.Table.Amending.{amend-none}

module _ {ℓ} {A : Type ℓ} (p : A → Bool) where
  pub find-append_none : (xs ys : List A) → find p xs ≡ none → find p (xs ++ ys) ≡ find p ys
  find-append_none [] ys e = refl
  find-append_none (x ∷ xs) ys e = ground (arith, find-append_none xs ys)

  pub find-append_last : (xs : List A) (a : A) → p a ≡ false → find p (xs ++ a ∷ []) ≡ find p xs
  find-append_last [] a e = ground arith
  find-append_last (x ∷ xs) a e = ground (arith, find-append_last xs a)

  -- The update of the row with a key, which does not fit the test before or afterwards.
  pub find-amend_key :
      (q picks : A → Bool) (change : A → A)
      → ((r : A) → picks r ≡ true → q r ≡ true)
      → (rows : List A) (a : A) → count q rows ≤ 1
      → find q rows ≡ some a
      → p a ≡ false
      → p (change a) ≡ false
      → find p (map (amend picks change) rows) ≡ find p rows
  find-amend_key q picks change narrow [] a one e before after = refl
  find-amend_key q picks change narrow (x ∷ xs) a one e before after = elim (Bool-cases (q x)) [
    | inl yes_x ↦
        (let same = amend-none q picks change narrow xs (ground arith) in
          let is_a : x ≡ a = ground arith in
          let no_x : p x ≡ false = ground arith in
          let no_change : p (change x) ≡ false =
            subst (λ (r : A). p (change r) ≡ false) (sym is_a) after in
          rw same (elim (Bool-cases (picks x)) [
            | inl picked ↦ rw (picked, no_change, no_x) refl
            | inr other ↦ rw other refl
          ]))
    | inr no_x ↦
        (let unpicked : picks x ≡ false = ground (arith, narrow x) in
          let rest =
            find-amend_key q picks change narrow xs a (ground arith) (ground arith) before after in
          rw (unpicked, rest) refl)
  ]

  pub find-update_first :
      (picks : A → Bool) (change : A → A) (rows rows' : List A) (old r : A)
      → find picks rows ≡ some old
      → update_first picks change rows ≡ some (r, rows')
      → p old ≡ false
      → p (change old) ≡ false
      → find p rows' ≡ find p rows
  unfolding raising update_first
  find-update_first picks change [] rows' old r f e before after = cc
  find-update_first picks change (x ∷ xs) rows' old r f e before after =
      elim (Bool-cases (picks x)) [
        | inl yes_x ↦
            (let is_old : x ≡ old = ground arith in
              let no_x : p x ≡ false = ground arith in
              let no_change : p (change x) ≡ false =
                subst (λ (s : A). p (change s) ≡ false) (sym is_old) after in
              let made : rows' ≡ change x ∷ xs = ground arith in rw (made, no_change, no_x) refl)
        | inr no_x ↦ elim (Option-cases (update_first picks change xs)) [
          | inl nothing ↦ absurd (ground arith)
          | inr ((s, rest), found) ↦
              (let made : rows' ≡ x ∷ rest = ground (arith, found) in
                let same =
                  find-update_first picks change xs rest old s (ground arith) found before after in
                rw (made, same) refl)
        ]
      ]
