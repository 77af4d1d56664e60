-- ===== src/TextWrap/Justify.antt =====
-- The text of a line.
use forktrace.Prelude.{
  ℕ, suc, ◌+◌, ◌-◌, ◌*◌, ◌/◌, ◌%◌, ◌≤◌, ◌≡◌, refl, ◌∙◌, min, Bool, true, false, ◌||◌, ltb,
  if◌then◌else◌, some, List, [], ◌∷◌, ◌++◌, length, length-append, length-replicate, Str, arith,
}
use native.Mathlib.Nat.{mod-lt, div-add-mod}
use forktrace.TextWrap.{total, spaces, spread, render}
use forktrace.TextWrap.Greedy.{columns, Fits}

abbrev extra : ℕ → Str
extra left = if ltb 0 left then spaces 1 else []

length-extra : (left : ℕ) → length (extra left) ≡ min 1 left
length-extra left = ground arith

length-spread :
    (per left : ℕ) (w : Str) (ws : List Str)
    → length (spread per left (w ∷ ws)) ≡ total (w ∷ ws) + per * length ws + min left (length ws)
unfolding spread
length-spread per left w [] = omega arith
length-spread per left w (v ∷ ws) =
    let rest = spread per (left - 1) (v ∷ ws) in
    omega (
      arith,
      length-append (w ++ spaces per ++ extra left) rest,
      length-append (w ++ spaces per) (extra left),
      length-append w (spaces per),
      length-replicate {A = ℕ} per b' ',
      length-extra left,
      length-spread per (left - 1) v ws,
    )

spread_one : (w : Str) → spread 0 0 (w ∷ []) ≡ w
unfolding spread
spread_one w = refl

Fits-le :
    (w v : Str) (ws : List Str) (width : ℕ) → Fits width (w ∷ v ∷ ws) → columns (w ∷ v ∷ ws) ≤ width
Fits-le w v ws width fits = ground (arith, fits.1)

-- The spaces of a justified line add up to what the words leave of the width.
length-justified :
    (w v : Str) (ws : List Str) (width : ℕ)
    → columns (w ∷ v ∷ ws) ≤ width
    → let gaps = suc (length ws) in
      let left = width - total (w ∷ v ∷ ws) in
      length (spread (left / gaps) (left % gaps) (w ∷ v ∷ ws)) ≡ width
length-justified w v ws width fit =
    let gaps : ℕ = suc (length ws) in
    let left : ℕ = width - total (w ∷ v ∷ ws) in
    length-spread (left / gaps) (left % gaps) w (v ∷ ws)
    ∙ omega (arith, mod-lt left {m = gaps} (omega arith), div-add-mod left gaps)

-- On a line that fits, no assertion fails. The text takes the columns of the words with one space in
-- each gap on the last line of a paragraph, and fills the width exactly on any other line with two
-- words or more.
pub render-Fits :
    (words : List Str) (is_last : Bool) (width : ℕ)
    → Fits width words
    → (text : Str) × (render words is_last width ≡ some text)
      × (length text ≡ (
          if is_last || ltb (length words) 2 || ltb width (columns words)
          then columns words
          else width))
unfolding render
render-Fits [] is_last width fits = absurd (omega (arith, fits.0))
render-Fits (w ∷ []) is_last width fits =
    (w, ground (arith, fits.1, spread_one w), ground (arith, fits.1))
render-Fits (w ∷ v ∷ ws) true width fits = (
  spread 1 0 (w ∷ v ∷ ws),
  ground (arith, Fits-le w v ws width fits),
  length-spread 1 0 w (v ∷ ws) ∙ omega arith,
)
render-Fits (w ∷ v ∷ ws) false width fits = (
  spread (left / gaps) (left % gaps) (w ∷ v ∷ ws),
  ground (arith, Fits-le w v ws width fits),
  ground
      (arith, Fits-le w v ws width fits, length-justified w v ws width (Fits-le w v ws width fits)),
)
  where
    gaps : ℕ
    gaps = suc (length ws)

    left : ℕ
    left = width - total (w ∷ v ∷ ws)
