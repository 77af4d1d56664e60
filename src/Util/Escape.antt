-- ===== src/Util/Escape.antt =====
-- `escaped_string` and the helpers of src/tracer/util.cpp that it uses.
use forktrace.Prelude.{
  ℕ, ◌+◌, ◌-◌, ◌/◌, ◌%◌, Bool, false, ◌||◌, ◌==◌, ltb, if◌then◌else◌, [], ◌∷◌, ◌++◌, Str,
}
use forktrace.Util.Chars.{is_print, is_weird_char}

unfoldable pub hex_digit : ℕ → ℕ
hex_digit num = if ltb num 10 then b'0' + num else b'A' + num - 10

-- The body of the loop of `escaped_string`: what it appends for a byte.
unfoldable pub escape_char : ℕ → Str
escape_char c =
    if c == 10
    then b'\\' ∷ b'n' ∷ []
    else if c == 13
    then b'\\' ∷ b'r' ∷ []
    else if c == b'\\'
    then b'\\' ∷ b'\\' ∷ []
    else if c == 0
    then b'\\' ∷ b'0' ∷ []
    else if c == 11
    then b'\\' ∷ b'v' ∷ []
    else if c == 8
    then b'\\' ∷ b'b' ∷ []
    else if c == 12
    then b'\\' ∷ b'f' ∷ []
    else if c == 34
    then b'\\' ∷ 34 ∷ []
    else if c == b'?'
    then b'\\' ∷ b'?' ∷ []
    else if is_print c
    then c ∷ []
    else b'\\' ∷ b'x' ∷ hex_digit (c / 16) ∷ hex_digit (c % 16) ∷ []

abbrev pub has_weird : Str → Bool
has_weird [] = false
has_weird (c ∷ s) = is_weird_char c || has_weird s

unfoldable pub escape_all : Str → Str
unfolding escape_char hex_digit
escape_all [] = []
escape_all (c ∷ s) = escape_char c ++ escape_all s

-- `escaped_string`.
unfoldable pub escaped_string : Str → Str
escaped_string s = if has_weird s then 34 ∷ (escape_all s ++ 34 ∷ []) else s
