-- ===== src/Prelude/Text.antt =====
-- C strings: the characters of a literal, the part before the terminator, and the bounded copy.
use Prim.Native.Nat.{ℕ}
use mathlib.Core.List.{List, [], ◌∷◌}
use Prim.Native.String.{String}
use Prim.Native.Char.{code}
use teg.Prelude.Tests.{◌==◌}
use mathlib.Core.Bool.{Bool, true, false, ◌&&◌}

abbrev pub codes : String → List ℕ
codes String.[] = []
codes (String.◌∷◌ c s) = code c ∷ codes s

-- `strcmp(a, b) == 0` on strings without a terminator inside.
abbrev pub text_equal : List ℕ → List ℕ → Bool
text_equal [] [] = true
text_equal [] (_ ∷ _) = false
text_equal (_ ∷ _) [] = false
text_equal (x ∷ xs) (y ∷ ys) = (x == y) && text_equal xs ys
