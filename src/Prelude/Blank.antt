-- ===== src/Prelude/Blank.antt =====
-- Stripping a text keeps what it holds.
use Prim.Native.Char.{Char}
use Prim.Native.String.{String}
use mathlib.Core.Path.{◌≡◌, refl, sym, ap, ◌∙◌}
use mathlib.Core.Logic.{inl, inr}
use mathlib.Core.Bool.{Bool, true, ◌&&◌}
use native.Mathlib.Omega.{arith}
use agent_panel_x.Prelude.Tests.{Bool-cases}
use agent_panel_x.Prelude.Text.{is_space, is_blank, drop_end, drop_start, strip}

is_blank-drop_start : (s : String) → is_blank (drop_start s) ≡ is_blank s
unfolding is_blank drop_start
is_blank-drop_start String.[] = refl
is_blank-drop_start (String.◌∷◌ c s) = elim (Bool-cases (is_space c)) [
  | inl white ↦ ground (arith, is_blank-drop_start s)
  | inr ink ↦ ground arith
]

is_blank-cons : (c : Char) (s : String) → is_blank (String.◌∷◌ c s) ≡ (is_space c && is_blank s)
unfolding is_blank
is_blank-cons c s = refl

is_blank-nil : is_blank String.[] ≡ true
unfolding is_blank
is_blank-nil = refl

is_blank-drop_end : (s : String) → is_blank (drop_end s) ≡ is_blank s
unfolding drop_end
is_blank-drop_end String.[] = refl
is_blank-drop_end (String.◌∷◌ c s) = elim (Bool-cases (is_blank (String.◌∷◌ c s))) [
  | inl blank ↦ rw (blank, drop_end) is_blank-nil
  | inr ink ↦
      rw (ink, drop_end)
        (is_blank-cons c (drop_end s)
          ∙ ap (λ (b : Bool). is_space c && b) (is_blank-drop_end s)
          ∙ sym (is_blank-cons c s)
          ∙ ink)
]

-- `s.strip()` is empty, or blank, exactly when `s` is blank.
pub is_blank-strip : (s : String) → is_blank (strip s) ≡ is_blank s
unfolding strip
is_blank-strip s = is_blank-drop_end (drop_start s) ∙ is_blank-drop_start s
