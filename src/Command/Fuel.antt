-- ===== src/Command/Fuel.antt =====
-- The scans of the command line end: their fuel, the length of the line, is enough.
use forktrace.Prelude.{
  ℕ, zero, suc, ◌+◌, ◌-◌, ◌*◌, ◌≤◌, ◌<◌, ◌≡◌, ◌≢◌, refl, false, ◌==◌, Bool-cases, inl, inr, some,
  Option-cases, [], ◌∷◌, ◌++◌, length, Str, arith,
}
use forktrace.Util.Chars.{is_xdigit, is_space}
use forktrace.Command.{
  hex_to_int, read_octal, read_hex, extract_escape, Scan, token, bad, starved, extract,
  extract_string, is_quote, read_word, Tokens, tokens, bad_line, no_fuel, tokens_from, add_token,
  after_scan,
}

read_octal-le : (n value : ℕ) (s : Str) → length (read_octal n value s).1 ≤ length s
unfolding read_octal
read_octal-le zero value s = omega arith
read_octal-le (suc n) value [] = omega arith
read_octal-le (suc n) value (c ∷ s) = ground (arith, read_octal-le n (value * 8 + (c - b'0')) s)

read_hex-le : (n value : ℕ) (s : Str) → length (read_hex n value s).1 ≤ length s
unfolding read_hex
read_hex-le zero value s = omega arith
read_hex-le (suc n) value [] = omega arith
read_hex-le (suc n) value (c ∷ s) = elim (Bool-cases (is_xdigit c)) [
  | inl digit ↦ rw digit (omega (arith, read_hex-le n (value * 16 + hex_to_int c) s))
  | inr other ↦ rw other (omega arith)
]

-- An escape sequence that is read takes at least one byte off the line.
pub extract_escape-lt :
    (s : Str) (x : ℕ) (rest : Str) → extract_escape s ≡ some (x, rest) → length rest < length s
unfolding extract_escape
extract_escape-lt [] x rest e = cc
extract_escape-lt (c ∷ s) x rest e = ground (arith, read_octal-le 2 (c - b'0') s, read_hex-le 2 0 s)

read_word-le : (s : Str) → length (read_word s).1 ≤ length s
unfolding read_word
read_word-le [] = omega arith
read_word-le (c ∷ s) = elim (Bool-cases (is_space c)) [
  | inl end' ↦ rw end' (omega arith)
  | inr more ↦ rw more (omega (arith, read_word-le s))
]

-- With more fuel than bytes the scan of a string finds a token, with a shorter rest, or an error.
abbrev Scanned : ℕ → Scan → Type 0
Scanned n (token t rest) = length rest < n
Scanned n bad = Unit {0}
Scanned n starved = ⊥

Scanned-mono : (m n : ℕ) (r : Scan) → m ≤ n → Scanned m r → Scanned n r
Scanned-mono m n (token t rest) h k = omega arith
Scanned-mono m n bad h k = tt
Scanned-mono m n starved h k = k

extract-Scanned :
    (fuel delim : ℕ) (read line : Str)
    → length line < fuel
    → Scanned (suc (length line)) (extract fuel delim read line)
unfolding extract
extract-Scanned zero delim read line h = absurd (omega arith)
extract-Scanned (suc fuel) delim read [] h = tt
extract-Scanned (suc fuel) delim read (c ∷ s) h = elim (Bool-cases (c == delim)) [
  | inl end' ↦ rw end' (omega arith)
  | inr inside ↦ elim (Bool-cases (c == b'\\')) [
    | inl escape ↦ elim (Option-cases (extract_escape s)) [
      | inl failed ↦ rw (inside, escape, failed) tt
      | inr ((x, rest), found) ↦
          let shorter : length rest < length s = extract_escape-lt s x rest found in
          rw (inside, escape, found)
            (Scanned-mono (suc (length rest)) (suc (suc (length s))) _ (omega arith)
              (extract-Scanned fuel delim (read ++ x ∷ []) rest (omega arith)))
    ]
    | inr plain ↦
        rw (inside, plain)
          (Scanned-mono (suc (length s)) (suc (suc (length s))) _ (omega arith)
            (extract-Scanned fuel delim (read ++ c ∷ []) s (omega arith)))
  ]
]

extract_string-Scanned : (c : ℕ) (s : Str) → Scanned (suc (length s)) (extract_string (c ∷ s))
unfolding extract_string
extract_string-Scanned c s = extract-Scanned (suc (length s)) c [] s (omega arith)

read_word-lt : (c : ℕ) (s : Str) → is_space c ≡ false → length (read_word (c ∷ s)).1 ≤ length s
unfolding read_word
read_word-lt c s start = rw start (read_word-le s)

add_token-ne : (t : Str) (r : Tokens) → r ≢ no_fuel → add_token t r ≢ no_fuel
add_token-ne t (tokens ts) h = ground arith
add_token-ne t bad_line h = ground arith
add_token-ne t no_fuel h = absurd (h refl)

after_scan-ne :
    (n : ℕ) (r : Scan) (next : Str → Tokens)
    → Scanned n r
    → ((rest : Str) → length rest < n → next rest ≢ no_fuel)
    → after_scan r next ≢ no_fuel
after_scan-ne n (token t rest) next h k = add_token-ne t (next rest) (k rest h)
after_scan-ne n bad next h k = ground arith
after_scan-ne n starved next h k = absurd h

-- With more fuel than the line has bytes, `tokenise` ends with tokens or an error.
pub tokens_from-ne-no_fuel :
    (fuel : ℕ) (line : Str) → length line < fuel → tokens_from fuel line ≢ no_fuel
unfolding tokens_from
tokens_from-ne-no_fuel zero line h = absurd (omega arith)
tokens_from-ne-no_fuel (suc fuel) [] h = ground arith
tokens_from-ne-no_fuel (suc fuel) (c ∷ s) h = elim (Bool-cases (is_space c)) [
  | inl blank ↦ rw (blank, tokens_from) (tokens_from-ne-no_fuel fuel s (omega arith))
  | inr start ↦ elim (Bool-cases (is_quote c)) [
    | inl quote ↦
        rw (start, tokens_from, quote)
          (after_scan-ne (suc (length s)) (extract_string (c ∷ s)) (tokens_from fuel)
            (extract_string-Scanned c s) (λ rest k. tokens_from-ne-no_fuel fuel rest (omega arith)))
    | inr word ↦
        rw (start, tokens_from, word)
          (add_token-ne _ _ (
            tokens_from-ne-no_fuel fuel (read_word (c ∷ s)).1 (
              let k : length (read_word (c ∷ s)).1 ≤ length s = read_word-lt c s start in
              omega arith)))
  ]
]
