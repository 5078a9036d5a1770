-- ===== src/Prelude/Text.antt =====
-- Python text: white space, `strip`, `" ".join(s.split())`, and the order of texts.
use Prim.Native.Nat.{ℕ}
use Prim.Native.Char.{Char, code}
use Prim.Native.String.{String}
use mathlib.Core.Bool.{Bool, true, false, ◌&&◌, ◌||◌}
use agent_panel_x.Prelude.Tests.{leb}

within : ℕ → ℕ → ℕ → Bool
within lo hi n = leb lo n && leb n hi

-- `str.isspace` for one character.
unfoldable pub is_space : Char → Bool
unfolding within
is_space c =
    let n = code c in
    within 9 13 n
    || within 28 32 n
    || within 133 133 n
    || within 160 160 n
    || within 5760 5760 n
    || within 8192 8202 n
    || within 8232 8233 n
    || within 8239 8239 n
    || within 8287 8287 n
    || within 12288 12288 n

-- `not s.strip()`.
unfoldable pub is_blank : String → Bool
unfolding is_space
is_blank String.[] = true
is_blank (String.◌∷◌ c s) = is_space c && is_blank s

abbrev space : Char
space = " "

-- `" ".join(s.split())`: `pending` says that a word stands before and white space after it.
normalize_from : Bool → Bool → String → String
normalize_from seen pending String.[] = String.[]
normalize_from seen pending (String.◌∷◌ c s) = elim (is_space c) [
  | true ↦ normalize_from seen seen s
  | false ↦
      (let rest = String.◌∷◌ c (normalize_from true false s) in
        elim pending [ true ↦ String.◌∷◌ space rest | false ↦ rest ])
]

unfoldable pub normalize : String → String
unfolding normalize_from is_space
normalize s = normalize_from false false s

-- `str.strip`: white space dropped on both sides.
unfoldable pub drop_end : String → String
drop_end String.[] = String.[]
drop_end (String.◌∷◌ c s) = elim (is_blank (String.◌∷◌ c s)) [
  | true ↦ String.[]
  | false ↦ String.◌∷◌ c (drop_end s)
]

unfoldable pub drop_start : String → String
drop_start String.[] = String.[]
drop_start (String.◌∷◌ c s) = elim (is_space c) [ true ↦ drop_start s | false ↦ String.◌∷◌ c s ]

unfoldable pub strip : String → String
unfolding drop_end drop_start is_space is_blank
strip s = drop_end (drop_start s)
