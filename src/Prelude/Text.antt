-- ===== src/Prelude/Text.antt =====
-- Strings as lists of bytes, with the comparisons of `std::string` and `std::vector<std::string>`.
use Prim.Native.Char.{code}
use Prim.Native.String.{String}
use Prim.Native.Nat.{ℕ}
use mathlib.Core.Path.{◌≡◌}
use mathlib.Core.Logic.{◌↔◌}
use mathlib.Core.Bool.{Bool, true, false, ◌&&◌}
use mathlib.Core.List.{List, [], ◌∷◌}
use native.Mathlib.Omega.{arith}
use forktrace.Prelude.Tests.{◌==◌}

abbrev pub Str : Type 0
Str = List ℕ

-- The bytes of a literal of the source.
abbrev pub codes : String → Str
codes String.[] = []
codes (String.◌∷◌ c s) = code c ∷ codes s

unfoldable pub str_eq : Str → Str → Bool
str_eq [] [] = true
str_eq [] (d ∷ t) = false
str_eq (c ∷ s) [] = false
str_eq (c ∷ s) (d ∷ t) = c == d && str_eq s t

unfoldable pub strs_eq : List Str → List Str → Bool
strs_eq [] [] = true
strs_eq [] (t ∷ ts) = false
strs_eq (s ∷ ss) [] = false
strs_eq (s ∷ ss) (t ∷ ts) = str_eq s t && strs_eq ss ts

pub str_eq_iff : (s t : Str) → (str_eq s t ≡ true) ↔ (s ≡ t)
unfolding str_eq
str_eq_iff [] [] = ground arith
str_eq_iff [] (d ∷ t) = ground arith
str_eq_iff (c ∷ s) [] = ground arith
str_eq_iff (c ∷ s) (d ∷ t) = ground (arith, str_eq_iff s t)

pub strs_eq_iff : (s t : List Str) → (strs_eq s t ≡ true) ↔ (s ≡ t)
unfolding strs_eq
strs_eq_iff [] [] = ground arith
strs_eq_iff [] (t ∷ ts) = ground arith
strs_eq_iff (s ∷ ss) [] = ground arith
strs_eq_iff (s ∷ ss) (t ∷ ts) = ground (arith, str_eq_iff s t, strs_eq_iff ss ts)
