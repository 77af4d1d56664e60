-- ===== src/TextWrap/Total.antt =====
-- What `wrap_text` does to a whole text.
use forktrace.Prelude.{
  ℕ, zero, suc, ◌+◌, ◌-◌, ◌≡◌, refl, sym, ◌∙◌, ap, ap₂, Bool, true, false, not, ◌||◌, ◌==◌,
  Bool-cases, inl, inr, max, ltb, if◌then◌else◌, Option, none, some, List, [], ◌∷◌, ◌++◌,
  append_assoc, append-nil, map, length, Str, arith,
}
use forktrace.Util.{join, keep, split_from, split}
use forktrace.TextWrap.{
  Line, words_of, assign_lines, spaces, spread, render, show_line, collect, show_paragraph,
  wrap_text,
}
use forktrace.TextWrap.Greedy.{concat, Fits, AllFit, assign_lines-concat, assign_lines-AllFit}
use forktrace.TextWrap.Justify.{render-Fits}

abbrev pub is_blank : ℕ → Bool
is_blank c = c == b' ' || c == b'\n'

-- A text without its spaces and newlines.
abbrev pub ink : Str → Str
ink [] = []
ink (c ∷ s) = if is_blank c then ink s else c ∷ ink s

abbrev inks : List Str → Str
inks [] = []
inks (w ∷ ws) = ink w ++ inks ws

ink-append : (s t : Str) → ink (s ++ t) ≡ ink s ++ ink t
ink-append [] t = refl
ink-append (c ∷ s) t = elim (Bool-cases (is_blank c)) [
  | inl blank ↦ rw blank (ink-append s t)
  | inr letter ↦ rw letter (ap (λ x. c ∷ x) (ink-append s t))
]

inks-append : (xs ys : List Str) → inks (xs ++ ys) ≡ inks xs ++ inks ys
inks-append [] ys = refl
inks-append (x ∷ xs) ys =
    ap (λ z. ink x ++ z) (inks-append xs ys) ∙ sym (append_assoc (ink x) (inks xs) (inks ys))

ink-spaces : (n : ℕ) → ink (spaces n) ≡ []
ink-spaces zero = refl
ink-spaces (suc n) = ink-spaces n

ink-blank : (d : ℕ) (s : Str) → is_blank d ≡ true → ink (d ∷ s) ≡ ink s
ink-blank d s b = rw b

ink-join : (d : ℕ) (ws : List Str) → is_blank d ≡ true → ink (join d ws) ≡ inks ws
unfolding join
ink-join d [] b = refl
ink-join d (w ∷ []) b = sym (append-nil (ink w))
ink-join d (w ∷ v ∷ ws) b =
    ink-append w (d ∷ join d (v ∷ ws))
    ∙ ap (λ z. ink w ++ z) (ink-blank d (join d (v ∷ ws)) b ∙ ink-join d (v ∷ ws) b)

ink-extra : (left : ℕ) → ink (if ltb 0 left then spaces 1 else []) ≡ []
ink-extra left = elim (Bool-cases (ltb 0 left)) [ inl y ↦ rw y | inr n ↦ rw n ]

ink-spread : (per left : ℕ) (ws : List Str) → ink (spread per left ws) ≡ inks ws
unfolding spread
ink-spread per left [] = refl
ink-spread per left (w ∷ []) = sym (append-nil (ink w))
ink-spread per left (w ∷ v ∷ ws) =
    simp (ink-append, ink-spaces, ink-extra, append-nil, ink-spread per (left - 1) (v ∷ ws))

keep-inks : (ignore : Bool) (t : Str) (ts : List Str) → inks (keep ignore t ts) ≡ ink t ++ inks ts
keep-inks ignore [] ts = elim (Bool-cases ignore) [ inl y ↦ rw y | inr n ↦ rw n ]
keep-inks ignore (c ∷ t) ts = refl

split_from-inks :
    (d : ℕ) (ignore : Bool) (token s : Str)
    → is_blank d ≡ true
    → inks (split_from d ignore token s) ≡ ink token ++ ink s
unfolding split_from
split_from-inks d ignore token [] b = keep-inks ignore token []
split_from-inks d ignore token (c ∷ s) b = elim (Bool-cases (c == d)) [
  | inl delim ↦
      let same : is_blank c ≡ true = ground (arith, delim, b) in
      rw (delim, keep-inks ignore token (split_from d ignore [] s), split_from-inks d ignore [] s b)
        (ap (λ z. ink token ++ z) (sym (ink-blank c s same)))
  | inr other ↦
      rw (other, split_from-inks d ignore (token ++ c ∷ []) s b)
        (ap (λ z. z ++ ink s) (ink-append token (c ∷ []))
          ∙ append_assoc (ink token) (ink (c ∷ [])) (ink s)
          ∙ ap (λ z. ink token ++ z) (sym (ink-append (c ∷ []) s)))
]

split-inks : (s : Str) (d : ℕ) (ignore : Bool) → is_blank d ≡ true → inks (split s d ignore) ≡ ink s
unfolding split
split-inks s d ignore b = split_from-inks d ignore [] s b

-- No assertion fails, and the letters of the output are as given.
abbrev pub Shows : Option Str → Str → Type 0
Shows o s = (out : Str) × (o ≡ some out) × (ink out ≡ s)

collect-Shows :
    (o : Option Str) (os : List (Option Str)) (s t : Str)
    → Shows o s
    → Shows (collect os) t
    → Shows (collect (o ∷ os)) (s ++ t)
unfolding collect
collect-Shows o os s t (x, e, i) (y, f, j) =
    (x ++ y, rw (e, collect, f), ink-append x y ∙ ap₂ (λ a b. a ++ b) i j)

render-ink :
    (words : List Str) (is_last : Bool) (width : ℕ) (text : Str)
    → render words is_last width ≡ some text
    → ink text ≡ inks words
unfolding render
render-ink words is_last width text e = grind (arith, ink-spread)

-- What `wrap_text` writes around the text of a line.
framed-Shows :
    (o : Option Str) (indent : ℕ) (s : Str)
    → Shows o s
    → Shows (elim o [ none ↦ none | some text ↦ some (spaces indent ++ text ++ b'\n' ∷ []) ]) s
framed-Shows o indent s (text, e, i) =
    rw e (spaces indent ++ text ++ b'\n' ∷ [], refl, simp (ink-append, ink-spaces, append-nil) i)

module _ (words : List Str) (width indent : ℕ) (justify : Bool) where
  show_line-Shows :
      (l : Line)
      → Fits width (words_of words l)
      → Shows (show_line words width indent justify l) (inks (words_of words l))
  show_line-Shows l fits = framed-Shows _ indent _ text
    where
      is_last : Bool
      is_last = not (ltb (l.last_word + 1) (length words))

      text :
          Shows
            (if justify
              then render (words_of words l) is_last width
              else some (join b' ' (words_of words l)))
            (inks (words_of words l))
      text = elim (Bool-cases justify) [
        | inl on ↦
            let (out, e, _) = render-Fits (words_of words l) is_last width fits in
            rw on (out, e, render-ink (words_of words l) is_last width out e)
        | inr off ↦
            rw off (join b' ' (words_of words l), refl, ink-join b' ' (words_of words l) refl)
      ]

  AllFit-split :
      (ws : List Str) (wss : List (List Str))
      → AllFit width (ws ∷ wss)
      → Fits width ws × AllFit width wss
  AllFit-split ws [] fit = (fit, tt)
  AllFit-split ws (vs ∷ wss) fit = (fit.0, fit.2)

  show_lines-Shows :
      (ls : List Line)
      → AllFit width (map (words_of words) ls)
      → Shows
          (collect (map (show_line words width indent justify) ls))
          (inks (concat (map (words_of words) ls)))
  show_lines-Shows [] fit = unfold collect in ([], refl, refl)
  show_lines-Shows (l ∷ ls) fit =
      let (first, rest) = AllFit-split (words_of words l) (map (words_of words) ls) fit in
      rw (inks-append (words_of words l) (concat (map (words_of words) ls))) (
        collect-Shows (show_line words width indent justify l) _ _ _ (show_line-Shows l first)
          (show_lines-Shows ls rest))

module _ (width indent : ℕ) (justify : Bool) where
  words-Shows :
      (w : Str) (ws : List Str)
      → Shows
          (collect (map (show_line (w ∷ ws) width indent justify) (assign_lines (w ∷ ws) width)))
          (inks (w ∷ ws))
  words-Shows w ws =
      let (out, e, i) =
        show_lines-Shows (w ∷ ws) width indent justify (assign_lines (w ∷ ws) width)
          (assign_lines-AllFit (w ∷ ws) width) in
      (out, e, i ∙ ap inks (assign_lines-concat (w ∷ ws) width))

  show_paragraph-Shows : (text : Str) → Shows (show_paragraph width indent justify text) (ink text)
  unfolding show_paragraph
  show_paragraph-Shows text = rw (← split-inks text b' ' true refl) (go (split text b' ' true))
    where
      go :
          (words : List Str)
          → Shows
              (elim words [
                | [] ↦ some (b'\n' ∷ [])
                | w ∷ ws ↦
                    collect
                      (map (show_line (w ∷ ws) width indent justify) (assign_lines (w ∷ ws) width))
              ])
              (inks words)
      go [] = (b'\n' ∷ [], refl, refl)
      go (w ∷ ws) = words-Shows w ws

  show_paragraphs-Shows :
      (ps : List Str) → Shows (collect (map (show_paragraph width indent justify) ps)) (inks ps)
  show_paragraphs-Shows [] = unfold collect in ([], refl, refl)
  show_paragraphs-Shows (p ∷ ps) =
      collect-Shows (show_paragraph width indent justify p) _ (ink p) (inks ps)
        (show_paragraph-Shows p) (show_paragraphs-Shows ps)

-- Wrapping any text at any width succeeds, with no failed assertion, and changes nothing but its
-- spaces and newlines.
pub wrap_text-ink :
    (text : Str) (width indent : ℕ) (justify : Bool)
    → (out : Str) × (wrap_text text width indent justify ≡ some out) × (ink out ≡ ink text)
unfolding wrap_text
wrap_text-ink text width indent justify =
    let (out, e, i) =
      show_paragraphs-Shows (max width indent - indent) indent justify (split text b'\n' false) in
    (out, e, i ∙ split-inks text b'\n' false refl)
