-- ===== src/Command/RoundTrip.antt =====
-- What `escaped_string` writes is read back as one token.
use forktrace.Prelude.{
  ℕ, zero, suc, ◌/◌, ◌%◌, ◌<◌, ◌≤◌, ◌≡◌, refl, ap, true, some, [], ◌∷◌, ◌++◌, append_assoc,
  append-nil, length, length-append, Str, arith,
}
use forktrace.Util.Chars.{is_xdigit}
use forktrace.Util.Escape.{hex_digit, escape_char, escape_all, has_weird, escaped_string}
use forktrace.Command.{
  hex_to_int, simple_escape, read_hex, extract_escape, token, extract, extract_string, tokens_from,
  tokenise,
}

hex_to_int-hex_digit : (d : ℕ) → d < 16 → hex_to_int (hex_digit d) ≡ d
unfolding hex_to_int hex_digit
hex_to_int-hex_digit d h = ground arith

is_xdigit-hex_digit : (d : ℕ) → d < 16 → is_xdigit (hex_digit d) ≡ true
unfolding hex_digit
is_xdigit-hex_digit d h = ground arith

extract_escape-hex :
    (c : ℕ) (t : Str)
    → c < 256
    → extract_escape (b'x' ∷ hex_digit (c / 16) ∷ hex_digit (c % 16) ∷ t) ≡ some (c, t)
unfolding extract_escape simple_escape read_hex
extract_escape-hex c t h =
    rw
      (
        is_xdigit-hex_digit (c / 16) (omega arith),
        is_xdigit-hex_digit (c % 16) (omega arith),
        hex_to_int-hex_digit (c / 16) (omega arith),
        hex_to_int-hex_digit (c % 16) (omega arith),
      )
      (ap (λ x. some (x, t)) (omega arith))

-- The bytes of a text, without the NUL.
abbrev pub AllBytes : Str → Type 0
AllBytes [] = Unit {0}
AllBytes (c ∷ s) = (0 < c) × (c < 256) × AllBytes s

extract-escape_char :
    (fuel c : ℕ) (read t : Str)
    → 0 < c
    → c < 256
    → extract (suc fuel) 34 read (escape_char c ++ t) ≡ extract fuel 34 (read ++ c ∷ []) t
unfolding extract escape_char extract_escape simple_escape
extract-escape_char fuel c read t low high = ground (arith, extract_escape-hex c t high)

length-escape_char : (c : ℕ) → 0 < length (escape_char c)
unfolding escape_char
length-escape_char c = ground arith

length-escape_all : (s : Str) → length s ≤ length (escape_all s)
unfolding escape_all
length-escape_all [] = omega arith
length-escape_all (c ∷ s) =
    rw (length-append (escape_char c) (escape_all s))
      (omega (arith, length-escape_char c, length-escape_all s))

extract-escape_all :
    (fuel : ℕ) (read s rest : Str)
    → AllBytes s
    → length s < fuel
    → extract fuel 34 read (escape_all s ++ 34 ∷ rest) ≡ token (read ++ s) rest
unfolding escape_all
extract-escape_all zero read s rest bytes h = absurd (omega arith)
extract-escape_all (suc fuel) read [] rest bytes h = rw (append-nil read) (unfold extract in refl)
extract-escape_all (suc fuel) read (c ∷ s) rest bytes h =
    rw
      (
        append_assoc (escape_char c) (escape_all s) (34 ∷ rest),
        extract-escape_char fuel c read (escape_all s ++ 34 ∷ rest) bytes.0 bytes.1,
        extract-escape_all fuel (read ++ c ∷ []) s rest bytes.2 (omega arith),
        append_assoc read (c ∷ []) s,
      )
      refl

extract_string-escape_all :
    (s rest : Str) → AllBytes s → extract_string (34 ∷ (escape_all s ++ 34 ∷ rest)) ≡ token s rest
unfolding extract_string
extract_string-escape_all s rest bytes =
    extract-escape_all _ [] s rest bytes
      (rw (length-append (escape_all s) (34 ∷ rest)) (omega (arith, length-escape_all s)))

tokenise-escape_all : (s : Str) → AllBytes s → tokenise (34 ∷ (escape_all s ++ 34 ∷ [])) ≡ s ∷ []
unfolding tokenise tokens_from
tokenise-escape_all s bytes = rw (tokenise, extract_string-escape_all s [] bytes) refl

escaped_string-weird :
    (s : Str) → has_weird s ≡ true → escaped_string s ≡ 34 ∷ (escape_all s ++ 34 ∷ [])
unfolding escaped_string
escaped_string-weird s weird = rw weird refl

-- A text that `escaped_string` puts in quotes is read back from the command line as that one token,
-- if no byte of it is a NUL.
pub tokenise-escaped_string :
    (s : Str) → AllBytes s → has_weird s ≡ true → tokenise (escaped_string s) ≡ s ∷ []
tokenise-escaped_string s bytes weird =
    rw (escaped_string-weird s weird) (tokenise-escape_all s bytes)
