-- ===== src/Command.antt =====
-- The command line of the interactive mode (src/tracer/command.hpp, src/tracer/command.cpp):
-- the tokens of a line.
pub mod Fuel
pub mod Table
pub mod Repeat
pub mod Lookup
pub mod RoundTrip
use forktrace.Prelude.{
  ℕ, zero, suc, ◌+◌, ◌-◌, ◌*◌, Bool, true, false, ◌&&◌, ◌||◌, ◌==◌, ltb, leb, if◌then◌else◌, Option,
  none, some, List, [], ◌∷◌, ◌++◌, length, Str,
}
use forktrace.Util.Chars.{is_digit, is_xdigit, is_space, in_range}

-- `hex_to_int`, on hexadecimal digits.
unfoldable pub hex_to_int : ℕ → ℕ
hex_to_int c =
    if in_range b'A' b'F' c
    then c - b'A' + 10
    else if in_range b'a' b'f' c
    then c - b'a' + 10
    else c - b'0'

-- The single-character escapes of `extract_escape`.
unfoldable pub simple_escape : ℕ → Option ℕ
simple_escape c =
    if c == b'n'
    then some 10
    else if c == b'r'
    then some 13
    else if c == b't'
    then some 9
    else if c == b'b'
    then some 8
    else if c == b'f'
    then some 12
    else if c == b'v'
    then some 11
    else if c == b'\\'
    then some b'\\'
    else if c == 39
    then some 39
    else if c == b'?'
    then some b'?'
    else if c == 34
    then some 34
    else none

-- The loops over digits: at most `n` more of them are read.
unfoldable pub read_octal : ℕ → ℕ → Str → ℕ × Str
read_octal zero value s = (value, s)
read_octal (suc n) value [] = (value, [])
read_octal (suc n) value (c ∷ s) =
    let more = read_octal n (value * 8 + (c - b'0')) s in
    if is_digit c then more else (value, c ∷ s)

unfoldable pub read_hex : ℕ → ℕ → Str → ℕ × Str
unfolding hex_to_int
read_hex zero value s = (value, s)
read_hex (suc n) value [] = (value, [])
read_hex (suc n) value (c ∷ s) =
    let more = read_hex n (value * 16 + hex_to_int c) s in
    if is_xdigit c then more else (value, c ∷ s)

abbrev pub in_byte : ℕ × Str → Option (ℕ × Str)
in_byte (value, s) = if ltb 255 value then none else some (value, s)

abbrev pub starts_hex : Str → Bool
starts_hex [] = false
starts_hex (c ∷ s) = is_xdigit c

-- `extract_escape`: the byte that the sequence stands for and the rest of the line; `none` where an
-- error is printed.
unfoldable pub extract_escape : Str → Option (ℕ × Str)
extract_escape [] = none
extract_escape (c ∷ s) = elim (simple_escape c) [
  | some x ↦ some (x, s)
  | none ↦
      if is_digit c
      then in_byte (read_octal 2 (c - b'0') s)
      else if c == b'x'
      then (if starts_hex s then some (read_hex 2 0 s) else none)
      else none
]

-- What a scan of the line gives: a token and the rest of the line, an error, or the end of the fuel.
pub data Scan : Type 0 where
  token : Str → Str → Scan
  bad starved : Scan

-- The loop of `extract_string` behind the delimiter, a byte in each round.
unfoldable pub extract : ℕ → ℕ → Str → Str → Scan
extract zero delim read line = starved
extract (suc fuel) delim read [] = bad
extract (suc fuel) delim read (c ∷ s) =
    let escaped : Scan = elim (extract_escape s) [
      | none ↦ bad
      | some (x, rest) ↦ extract fuel delim (read ++ x ∷ []) rest
    ] in
    let plain = extract fuel delim (read ++ c ∷ []) s in
    if c == delim then token read s else if c == b'\\' then escaped else plain

-- `extract_string` on a line that begins with the delimiter.
unfoldable pub extract_string : Str → Scan
extract_string [] = bad
extract_string (delim ∷ line) = extract (suc (length line)) delim [] line

abbrev pub is_quote : ℕ → Bool
is_quote c = c == 34 || c == 39

-- The end of an unquoted token.
unfoldable pub read_word : Str → Str × Str
read_word [] = ([], [])
read_word (c ∷ s) = let (w, rest) = read_word s in if is_space c then ([], c ∷ s) else (c ∷ w, rest)

-- What the loop of `tokenise` gives: the tokens, an error, or the end of the fuel.
pub data Tokens : Type 0 where
  tokens : List Str → Tokens
  bad_line no_fuel : Tokens

-- `tokens.push_back(t)`, before those of the rest of the line.
abbrev pub add_token : Str → Tokens → Tokens
add_token t (tokens ts) = tokens (t ∷ ts)
add_token t bad_line = bad_line
add_token t no_fuel = no_fuel

abbrev pub after_scan : Scan → (Str → Tokens) → Tokens
after_scan (token t rest) next = add_token t (next rest)
after_scan bad next = bad_line
after_scan starved next = no_fuel

-- The loop of `tokenise`.
unfoldable pub tokens_from : ℕ → Str → Tokens
tokens_from zero line = no_fuel
tokens_from (suc fuel) [] = tokens []
tokens_from (suc fuel) (c ∷ s) = elim (is_space c) [
  | true ↦ tokens_from fuel s
  | false ↦ elim (is_quote c) [
    | true ↦ after_scan (extract_string (c ∷ s)) (tokens_from fuel)
    | false ↦ add_token (read_word (c ∷ s)).0 (tokens_from fuel (read_word (c ∷ s)).1)
  ]
]

-- `tokenise`: an error gives no token at all.
unfoldable pub tokenise : Str → List Str
tokenise line = elim (tokens_from (suc (length line)) line) [
  | tokens ts ↦ ts
  | bad_line ↦ []
  | no_fuel ↦ []
]
