-- ===== src/Prelude/Texts.antt =====
-- Texts by the numbers of their characters.
use Prim.Native.Nat.{ℕ, ◌≤◌}
use Prim.Native.Char.{code}
use Prim.Native.String.{String, len, ◌++◌}
use mathlib.Core.Path.{◌≡◌, ap, ◌∙◌, sym}
use mathlib.Core.Bool.{false}
use mathlib.Core.Logic.{inl, inr}
use mathlib.Core.List.{List}
use native.Mathlib.Omega.{arith}
use text.Mathlib.Text.{◌==◌ as str_eq}
use text.Mathlib.TextEquality.{eq_iff}
use text.Mathlib.TextPositions.{len-append}
use zhiwei_backend.Prelude.Tests.{Bool-cases}

-- the code points of a text
abbrev pub codes : String → List ℕ
codes String.[] = List.[]
codes (String.◌∷◌ c s) = List.◌∷◌ (code c) (codes s)

-- A text with a start that is not empty is not empty.
pub append-nonempty : (s t : String) → 1 ≤ len s → str_eq (s ++ t) "" ≡ false
append-nonempty s t h = elim (Bool-cases (str_eq (s ++ t) "")) [
  | inr e ↦ e
  | inl e ↦ absurd (omega (arith, h, sym (len-append s t) ∙ ap len ((eq_iff (s ++ t) "").0 e)))
]
