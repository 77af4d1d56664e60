-- ===== src/Parse.antt =====
-- The readers of option values (src/tracer/parse.hpp, src/tracer/parse.cpp).
use forktrace.Prelude.{
  ℕ, ◌+◌, ◌-◌, ◌*◌, ◌^◌, Bool, true, false, ◌||◌, ◌==◌, ltb, if◌then◌else◌, Option, none, some,
  List, [], ◌∷◌, map, Str, codes, str_eq, ℤ, pos, neg_ℤ,
}
use forktrace.Util.Chars.{is_digit, in_range}

-- `tolower` in the C locale.
unfoldable pub to_lower : ℕ → ℕ
to_lower c = if in_range b'A' b'Z' c then c + 32 else c

abbrev pub is_one_of : Str → List Str → Bool
is_one_of s [] = false
is_one_of s (t ∷ ts) = str_eq s t || is_one_of s ts

abbrev pub yes_words : List Str
yes_words =
    codes "yes" ∷ codes "1" ∷ codes "on" ∷ codes "enabled" ∷ codes "enable" ∷ codes "true" ∷ []

abbrev pub no_words : List Str
no_words =
    codes "no" ∷ codes "0" ∷ codes "off" ∷ codes "disabled" ∷ codes "disable" ∷ codes "false" ∷ []

-- `parse_bool`; `none` is the exception.
unfoldable pub parse_bool : Str → Option Bool
unfolding str_eq to_lower
parse_bool input =
    let str = map to_lower input in
    if is_one_of str yes_words
    then some true
    else if is_one_of str no_words
    then some false
    else none

-- What `std::from_chars` makes of a text that is decimal digits to its end; `none` at another byte.
unfoldable pub from_digits : ℕ → Str → Option ℕ
from_digits value [] = some value
from_digits value (c ∷ s) =
    let more = from_digits (value * 10 + (c - b'0')) s in if is_digit c then more else none

abbrev pub up_to : ℕ → Option ℕ → Option ℕ
up_to bound none = none
up_to bound (some n) = if ltb n bound then some n else none

-- `parse_number` of an unsigned type below `bound`: the whole text, at least a digit, no sign; a value
-- out of range is an error.
unfoldable pub parse_below : ℕ → Str → Option ℕ
unfolding from_digits
parse_below bound [] = none
parse_below bound (c ∷ s) = up_to bound (from_digits 0 (c ∷ s))

abbrev pub parse_size : Str → Option ℕ
parse_size s = parse_below (2 ^ 64) s

-- `parse_number<int>`.
unfoldable pub parse_int : Str → Option ℤ
unfolding parse_below
parse_int [] = none
parse_int (c ∷ s) =
    if c == b'-'
    then elim (parse_below (2 ^ 31 + 1) s) [ none ↦ none | some n ↦ some (neg_ℤ (pos n)) ]
    else elim (parse_below (2 ^ 31) (c ∷ s)) [ none ↦ none | some n ↦ some (pos n) ]
