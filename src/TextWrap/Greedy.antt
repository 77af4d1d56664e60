-- ===== src/TextWrap/Greedy.antt =====
-- The greedy assignment of words to lines.
use forktrace.Prelude.{
  ℕ, ◌+◌, ◌-◌, ◌≤◌, ◌<◌, ◌≡◌, refl, sym, ◌∙◌, ap, ap₂, ◌⊎◌, inl, inr, Bool-cases, ltb,
  if◌then◌else◌, List, [], ◌∷◌, ◌++◌, append_assoc, map, length, length-append, take, drop, Str,
  arith, dec_lt,
}
use forktrace.TextWrap.{words_of, fill, assign_lines, total}

abbrev pub concat : List (List Str) → List Str
concat [] = []
concat (ws ∷ wss) = ws ++ concat wss

-- The lines as lists of words: `cur` is the current line, which takes `len` columns.
abbrev pub chunks : ℕ → ℕ → List Str → List Str → List (List Str)
chunks width len cur [] = cur ∷ []
chunks width len cur (w ∷ ws) =
    let next = cur ∷ chunks width (length w) (w ∷ []) ws in
    let same = chunks width (len + 1 + length w) (cur ++ w ∷ []) ws in
    if ltb width (len + 1 + length w) then next else same

drop-append : (pre rest : List Str) → drop (length pre) (pre ++ rest) ≡ rest
drop-append [] rest = refl
drop-append (p ∷ pre) rest = drop-append pre rest

take-append : (cur rest : List Str) → take (length cur) (cur ++ rest) ≡ cur
take-append [] rest = refl
take-append (c ∷ cur) rest = ap (λ xs. c ∷ xs) (take-append cur rest)

words_of-append :
    (all pre cur rest : List Str) (first last : ℕ)
    → all ≡ pre ++ (cur ++ rest)
    → first ≡ length pre
    → last + 1 ≡ length pre + length cur
    → words_of all (record { first_word = first; last_word = last }) ≡ cur
words_of-append all pre cur rest first last a f l =
    let n : last + 1 - first ≡ length cur = omega arith in
    rw (n, f, a, drop-append pre (cur ++ rest)) (take-append cur rest)

-- The lines hold the chunks, by their indices into all the words.
fill-chunks :
    (width len first last : ℕ) (all pre cur ws : List Str)
    → all ≡ pre ++ (cur ++ ws)
    → first ≡ length pre
    → last + 1 ≡ length pre + length cur
    → map (words_of all) (fill width len first last ws) ≡ chunks width len cur ws
unfolding fill
fill-chunks width len first last all pre cur [] a f l =
    ap (λ c. c ∷ []) (words_of-append all pre cur [] first last a f l)
fill-chunks width len first last all pre cur (w ∷ ws) a f l =
    elim (Bool-cases (ltb width (len + 1 + length w))) [
      | inl full ↦ rw full (
          ap₂ (λ (x : List Str) (xs : List (List Str)). x ∷ xs)
            (words_of-append all pre cur (w ∷ ws) first last a f l)
            (fill-chunks width (length w) (last + 1) (last + 1) all (pre ++ cur) (w ∷ []) ws
              (a ∙ sym (append_assoc pre cur (w ∷ ws))) (omega (arith, length-append pre cur))
              (omega (arith, length-append pre cur))))
      | inr room ↦ rw room (
          fill-chunks width (len + 1 + length w) first (last + 1) all pre (cur ++ w ∷ []) ws
            (a ∙ ap (λ (xs : List Str). pre ++ xs) (sym (append_assoc cur (w ∷ []) ws))) f
            (omega (arith, length-append cur (w ∷ []))))
    ]

assign_lines-chunks :
    (w : Str) (ws : List Str) (width : ℕ)
    → map (words_of (w ∷ ws)) (assign_lines (w ∷ ws) width) ≡ chunks width (length w) (w ∷ []) ws
unfolding assign_lines
assign_lines-chunks w ws width =
    fill-chunks width (length w) 0 0 (w ∷ ws) [] (w ∷ []) ws refl refl (omega arith)

chunks-concat : (width len : ℕ) (cur ws : List Str) → concat (chunks width len cur ws) ≡ cur ++ ws
chunks-concat width len cur [] = refl
chunks-concat width len cur (w ∷ ws) = elim (Bool-cases (ltb width (len + 1 + length w))) [
  | inl full ↦
      rw full (ap (λ (xs : List Str). cur ++ xs) (chunks-concat width (length w) (w ∷ []) ws))
  | inr room ↦
      rw room
        (chunks-concat width (len + 1 + length w) (cur ++ w ∷ []) ws ∙ append_assoc cur (w ∷ []) ws)
]

-- The lines of a paragraph hold all its words, in order, each once.
pub assign_lines-concat :
    (words : List Str) (width : ℕ)
    → concat (map (words_of words) (assign_lines words width)) ≡ words
assign_lines-concat [] width = unfold assign_lines in refl
assign_lines-concat (w ∷ ws) width =
    ap concat (assign_lines-chunks w ws width) ∙ chunks-concat width (length w) (w ∷ []) ws

-- The columns that a line takes with one space in each gap.
abbrev pub columns : List Str → ℕ
columns ws = total ws + (length ws - 1)

-- A line has a word, and fits unless that word is alone and too long.
abbrev pub Fits : ℕ → List Str → Type 0
Fits width ws = (0 < length ws) × ((columns ws ≤ width) ⊎ ((length ws ≡ 1) × (width < total ws)))

abbrev head_length : List Str → ℕ
head_length [] = 0
head_length (w ∷ ws) = length w

-- Every line fits, and none could have taken the first word of the next one too.
abbrev pub AllFit : ℕ → List (List Str) → Type 0
AllFit width [] = Unit {0}
AllFit width (ws ∷ []) = Fits width ws
AllFit width (ws ∷ vs ∷ wss) =
    Fits width ws × (width < columns ws + 1 + head_length vs) × AllFit width (vs ∷ wss)

total-append : (xs ys : List Str) → total (xs ++ ys) ≡ total xs + total ys
total-append [] ys = omega arith
total-append (x ∷ xs) ys = omega (arith, total-append xs ys)

-- The first chunk begins with the words of the current line.
chunks-head :
    (width len : ℕ) (c : Str) (cur ws : List Str)
    → (vs : List Str) × (wss : List (List Str)) × (chunks width len (c ∷ cur) ws ≡ (c ∷ vs) ∷ wss)
chunks-head width len c cur [] = (cur, [], refl)
chunks-head width len c cur (w ∷ ws) = elim (Bool-cases (ltb width (len + 1 + length w))) [
  | inl full ↦ (cur, chunks width (length w) (w ∷ []) ws, rw full)
  | inr room ↦
      let (vs, wss, e) = chunks-head width (len + 1 + length w) c (cur ++ w ∷ []) ws in
      (vs, wss, rw room e)
]

Fits-alone : (width : ℕ) (w : Str) → Fits width (w ∷ [])
Fits-alone width w = elim (dec_lt width (length w)) [
  | yes long ↦ (omega arith, inr (refl, omega arith))
  | no short ↦ (omega arith, inl (omega arith))
]

chunks-AllFit :
    (width len : ℕ) (cur ws : List Str)
    → len ≡ columns cur
    → Fits width cur
    → AllFit width (chunks width len cur ws)
chunks-AllFit width len cur [] l fits = fits
chunks-AllFit width len cur (w ∷ ws) l fits = elim (Bool-cases (ltb width (len + 1 + length w))) [
  | inl full ↦
      let (vs, wss, e) = chunks-head width (length w) w [] ws in
      let rest : AllFit width (chunks width (length w) (w ∷ []) ws) =
        chunks-AllFit width (length w) (w ∷ []) ws (omega arith) (Fits-alone width w) in
      rw (full, e) (fits, ground (arith, full), rw e at rest)
  | inr room ↦ rw room (
      chunks-AllFit width (len + 1 + length w) (cur ++ w ∷ []) ws
        (omega (arith, fits.0, total-append cur (w ∷ []), length-append cur (w ∷ [])))
        (
          omega (arith, length-append cur (w ∷ [])),
          inl (
              ground
                (arith, room, l, fits.0, total-append cur (w ∷ []), length-append cur (w ∷ []))),
        ))
]

-- Every line of a paragraph fits into the width, but for a word too long for it, which stands alone;
-- and no line has room for the first word of the next.
pub assign_lines-AllFit :
    (words : List Str) (width : ℕ) → AllFit width (map (words_of words) (assign_lines words width))
assign_lines-AllFit [] width = unfold assign_lines in tt
assign_lines-AllFit (w ∷ ws) width =
    rw (assign_lines-chunks w ws width)
      (chunks-AllFit width (length w) (w ∷ []) ws (omega arith) (Fits-alone width w))
