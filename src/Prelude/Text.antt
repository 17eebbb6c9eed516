-- ===== src/Prelude/Text.antt =====
-- Whole texts, which the source compares with `strcmp`, and the bytes of a text.
use Prim.Native.Nat.{ℕ}
use Prim.Native.Char.{code}
use Prim.Native.String.{String}
use text.Mathlib.Text.{◌==◌}
use text.Mathlib.TextEquality.{eq_iff}
use mathlib.Core.Path.{◌≡◌}
use mathlib.Core.Logic.{◌↔◌}
use mathlib.Core.Bool.{Bool, true}
use mathlib.Core.List.{List, [], ◌∷◌}

abbrev pub equals : String → String → Bool
equals s t = s == t

pub equals_iff : (s t : String) → (equals s t ≡ true) ↔ (s ≡ t)
equals_iff s t = eq_iff s t

-- The bytes of an ASCII text.
abbrev pub codes : String → List ℕ
codes String.[] = []
codes (String.◌∷◌ c s) = code c ∷ codes s
