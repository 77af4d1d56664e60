-- ===== src/TextWrap.antt =====
-- Line wrapping (src/tracer/text-wrap.cpp).
pub mod Greedy
pub mod Justify
pub mod Total
use forktrace.Prelude.{
  ℕ, zero, suc, ◌+◌, ◌-◌, ◌/◌, ◌%◌, max, Bool, true, false, not, ◌==◌, ltb, if◌then◌else◌, Option,
  none, some, List, [], ◌∷◌, ◌++◌, map, length, take, drop, replicate, Str,
}
use forktrace.Util.{join, split}

-- `Line`: the indices of the first and the last word.
pub record Line : Type 0 where
  pub first_word : ℕ
  pub last_word : ℕ

-- The words of a paragraph that a line holds.
abbrev pub words_of : List Str → Line → List Str
words_of words l = take (l.last_word + 1 - l.first_word) (drop l.first_word words)

-- The loop of `assign_lines_greedily`: the current line has the words `first` to `last` and takes
-- `len` columns; the list holds the words after `last`.
unfoldable pub fill : ℕ → ℕ → ℕ → ℕ → List Str → List Line
fill width len first last [] = record { first_word = first; last_word = last } ∷ []
fill width len first last (w ∷ ws) =
    let i = last + 1 in
    let new_len = len + 1 + length w in
    let next = record { first_word = first; last_word = last } ∷ fill width (length w) i i ws in
    let same = fill width new_len first i ws in if ltb width new_len then next else same

-- `assign_lines_greedily`, and `assign_lines`, which only calls it.
unfoldable pub assign_lines : List Str → ℕ → List Line
unfolding fill
assign_lines [] width = []
assign_lines (w ∷ ws) width = fill width (length w) 0 0 ws

abbrev pub total : List Str → ℕ
total [] = 0
total (w ∷ ws) = length w + total ws

abbrev pub spaces : ℕ → Str
spaces n = replicate n b' '

-- The loop of `render_line_of_paragraph` over the words: `per` spaces after each but the last, and
-- one more while there are any left over.
unfoldable pub spread : ℕ → ℕ → List Str → Str
spread per left [] = []
spread per left (w ∷ []) = w
spread per left (w ∷ v ∷ ws) =
    w ++ spaces per ++ (if ltb 0 left then spaces 1 else []) ++ spread per (left - 1) (v ∷ ws)

-- `render_line_of_paragraph` on the words of the line; `is_last` tells that it ends the paragraph.
-- `none` is a failed assertion.
unfoldable pub render : List Str → Bool → ℕ → Option Str
render words is_last width =
    let len = total words in
    let gaps = length words - 1 in
    if length words == 0
    then none
    else if ltb width (len + gaps)
    then (if gaps == 0 then (if ltb width len then some (spread 0 0 words) else none) else none)
    else if gaps == 0
    then some (spread 0 0 words)
    else if is_last
    then some (spread 1 0 words)
    else some (spread ((width - len) / gaps) ((width - len) % gaps) words)

-- The body of the loop of `wrap_text` over a paragraph's lines.
abbrev pub show_line : List Str → ℕ → ℕ → Bool → Line → Option Str
show_line words width indent justify l =
    elim (if justify
      then render (words_of words l) (not (ltb (l.last_word + 1) (length words))) width
      else some (join b' ' (words_of words l))) [
        | none ↦ none
        | some text ↦ some (spaces indent ++ text ++ b'\n' ∷ [])
      ]

-- Concatenates what a loop appends to the output, unless an assertion failed.
unfoldable pub collect : List (Option Str) → Option Str
collect [] = some []
collect (none ∷ os) = none
collect (some s ∷ os) = elim (collect os) [ none ↦ none | some t ↦ some (s ++ t) ]

unfoldable pub show_paragraph : ℕ → ℕ → Bool → Str → Option Str
show_paragraph width indent justify text =
    let words = split text b' ' true in
    elim words [
      | [] ↦ some (b'\n' ∷ [])
      | w ∷ ws ↦
          collect (map (show_line (w ∷ ws) width indent justify) (assign_lines (w ∷ ws) width))
    ]

-- `wrap_text`.
unfoldable pub wrap_text : Str → ℕ → ℕ → Bool → Option Str
wrap_text text width indent justify =
    collect
      (map (show_paragraph (max width indent - indent) indent justify) (split text b'\n' false))
