-- ===== src/Util/Chars.antt =====
-- The character classes of <cctype> in the "C" locale, over bytes.
use forktrace.Prelude.{ℕ, Bool, not, ◌&&◌, ◌||◌, ◌==◌, leb}

abbrev pub in_range : ℕ → ℕ → ℕ → Bool
in_range lo hi c = leb lo c && leb c hi

abbrev pub is_space : ℕ → Bool
is_space c = c == b' ' || in_range 9 13 c

abbrev pub is_print : ℕ → Bool
is_print = in_range 32 126

abbrev pub is_digit : ℕ → Bool
is_digit = in_range b'0' b'9'

abbrev pub is_xdigit : ℕ → Bool
is_xdigit c = is_digit c || in_range b'A' b'F' c || in_range b'a' b'f' c

abbrev pub is_alnum : ℕ → Bool
is_alnum c = is_digit c || in_range b'A' b'Z' c || in_range b'a' b'z' c

-- `is_weird_char` of src/tracer/util.cpp.
abbrev pub is_weird_char : ℕ → Bool
is_weird_char c = not (is_print c) || is_space c
