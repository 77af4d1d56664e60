-- ===== src/Canvas/Cells.antt =====
-- The cells of a window after drawing.
use forktrace.Prelude.{
  ℕ, zero, suc, ◌+◌, ◌-◌, ◌*◌, ◌≤◌, ◌<◌, ◌≡◌, refl, Bool, ◌&&◌, ◌==◌, ltb, leb, if◌then◌else◌,
  Bool-cases, inl, inr, [], ◌∷◌, get_or, length, Str, arith,
}
use forktrace.Canvas.{Cell, Window, get_cell, put_cell, draw_each}

-- Different places are different cells of the buffer.
place_inj : (w x y x' y' : ℕ) → x < w → x' < w → y * w + x ≡ y' * w + x' → (x ≡ x') × (y ≡ y')
place_inj w x zero x' zero h k e = (omega arith, refl)
place_inj w x zero x' (suc y') h k e = absurd (omega arith)
place_inj w x (suc y) x' zero h k e = absurd (omega arith)
place_inj w x (suc y) x' (suc y') h k e =
    let (a, b) = place_inj w x y x' y' h k (omega arith) in (a, omega arith)

-- Is the place among the `n` from `x` on in row `y`?
abbrev pub covers : ℕ → ℕ → ℕ → ℕ → ℕ → Bool
covers x y n x' y' = y' == y && leb x x' && ltb x' (x + n)

-- The cell at a place after a text of one colour has been drawn from `x` on in row `y`.
abbrev pub shows : Window → ℕ → ℕ → Str → ℕ → ℕ → Cell
shows w x y s x' y' =
    if covers x y (length s) x' y'
    then record { colour = w.current; ch = get_or s (x' - x) 0 }
    else get_cell w x' y'

get_cell-put_cell :
    (w : Window) (x y c x' y' : ℕ)
    → x < w.width
    → x' < w.width
    → get_cell (put_cell w x y c) x' y' ≡ shows w x y (c ∷ []) x' y'
get_cell-put_cell w x y c x' y' h k = elim (Bool-cases ((y' * w.width + x') == (y * w.width + x))) [
  | inl hit ↦
      let (a, b) = place_inj w.width x' y' x y k h (ground (arith, hit)) in
      rw (hit, a, b) (ground (arith))
  | inr miss ↦ elim (Bool-cases (covers x y 1 x' y')) [
    | inl inside ↦
        let a : x' ≡ x = ground (arith, inside) in
        let b : y' ≡ y = ground (arith, inside) in absurd (ground (arith, rw (a, b) at miss))
    | inr outside ↦ rw (miss, outside) refl
  ]
]

pub get_cell-draw_each :
    (w : Window) (x y : ℕ) (s : Str) (x' y' : ℕ)
    → x + length s ≤ w.width
    → x' < w.width
    → get_cell (draw_each w x y s) x' y' ≡ shows w x y s x' y'
unfolding draw_each
get_cell-draw_each w x y [] x' y' h k = ground arith
get_cell-draw_each w x y (c ∷ s) x' y' h k = ground (
  arith,
  get_cell-draw_each (put_cell w x y c) (x + 1) y s x' y',
  get_cell-put_cell w x y c x' y',
)

-- Drawing keeps the size of the window.
pub draw_each-size :
    (w : Window) (x y : ℕ) (s : Str)
    → ((draw_each w x y s).width ≡ w.width) × ((draw_each w x y s).height ≡ w.height)
unfolding draw_each
draw_each-size w x y [] = (refl, refl)
draw_each-size w x y (c ∷ s) = draw_each-size (put_cell w x y c) (x + 1) y s
