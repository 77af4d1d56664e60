-- ===== src/Canvas/Strings.antt =====
-- Texts drawn by an event are clipped at the right edge.
use forktrace.Prelude.{
  ℕ, zero, suc, ◌+◌, ◌-◌, ◌≤◌, ◌<◌, ◌≡◌, refl, ◌∙◌, ap, min, true, Bool-cases, inl, inr, ltb,
  if◌then◌else◌, some, [], ◌∷◌, get_or, length, length-take, take, Str, arith,
}
use forktrace.Canvas.{Colour, Window, get_cell, set_colour, draw_each, draw_string}
use forktrace.Canvas.Cells.{shows, get_cell-draw_each}
use forktrace.Canvas.Drawer.{Drawer, with_colour, draw_event_string}

take-all : (n : ℕ) (s : Str) → length s ≤ n → take n s ≡ s
take-all zero [] h = refl
take-all zero (c ∷ s) h = absurd (omega arith)
take-all (suc n) [] h = refl
take-all (suc n) (c ∷ s) h = ap (λ t. c ∷ t) (take-all n s (omega arith))

get_or-take : (n i : ℕ) (s : Str) → i < n → get_or (take n s) i 0 ≡ get_or s i 0
get_or-take zero i s h = absurd (omega arith)
get_or-take (suc n) i [] h = refl
get_or-take (suc n) zero (c ∷ s) h = refl
get_or-take (suc n) (suc i) (c ∷ s) h = get_or-take n i s (omega arith)

-- The part of a text that fits, and the window with it.
abbrev pub fitting : Drawer → Window → Str → Str
fitting d w s = take (w.width - d.x) s

abbrev pub written : Drawer → Window → Colour → Str → Window
written d w c s = set_colour (draw_each (set_colour w c) d.x d.y (fitting d w s)) w.current

draw_string-fitting :
    (d : Drawer) (w : Window) (c : Colour) (s : Str)
    → d.y < w.height
    → d.x ≤ w.width
    → with_colour w c (λ v. draw_string v d.x d.y (fitting d w s)) ≡ some (written d w c s)
unfolding draw_string
draw_string-fitting d w c s low inside = ground (arith, length-take (w.width - d.x) s)

-- The drawer after a text from inside the window.
abbrev pub past : Drawer → Window → Str → Window → Drawer
past d w s w' = record d {
  win = some w';
  x = min (d.x + length s) w.width;
  x_extent = min (d.x + length s) w.width;
  is_truncated = if ltb w.width (d.x + length s) then true else d.is_truncated;
}

pub draw_event_string-fitting :
    (d : Drawer) (w : Window) (c : Colour) (s : Str)
    → d.win ≡ some w
    → d.y < w.height
    → d.x ≤ w.width
    → draw_event_string d c s ≡ some (past d w s (written d w c s))
unfolding draw_event_string
draw_event_string-fitting d w c s there low inside =
    elim (Bool-cases (ltb w.width (d.x + length s))) [
      | inl over ↦ ground (
        arith,
        over,
        there,
        draw_string-fitting d w c s low inside,
        length-take (w.width - d.x) s,
      )
      | inr fits ↦
          ground
            (arith, fits, there, draw_string-fitting d w c s low inside, take-all (w.width - d.x) s)
    ]

written-shows :
    (d : Drawer) (w : Window) (c : Colour) (s : Str) (x' y' : ℕ)
    → d.x ≤ w.width
    → x' < w.width
    → get_cell (written d w c s) x' y' ≡ shows (set_colour w c) d.x d.y s x' y'
written-shows d w c s x' y' inside k =
    get_cell-draw_each (set_colour w c) d.x d.y (fitting d w s) x' y'
      (omega (arith, length-take (w.width - d.x) s)) k
    ∙ ground (arith, length-take (w.width - d.x) s, get_or-take (w.width - d.x) (x' - d.x) s)

-- A text drawn from inside the window never fails an assertion. Each cell of its row from there on
-- shows its character of the text, in the text's colour, up to the edge of the window; no other cell
-- changes, nor does the window's colour. The drawer stands behind the text, or at the edge, and
-- marks the diagram as truncated if the text went past the edge.
pub draw_event_string_clips :
    (d : Drawer) (w : Window) (c : Colour) (s : Str) (x' y' : ℕ)
    → d.win ≡ some w
    → d.y < w.height
    → d.x ≤ w.width
    → x' < w.width
    → (w' : Window) × (draw_event_string d c s ≡ some (past d w s w'))
      × (get_cell w' x' y' ≡ shows (set_colour w c) d.x d.y s x' y')
      × (w'.current ≡ w.current)
draw_event_string_clips d w c s x' y' there low inside k = (
  written d w c s,
  draw_event_string-fitting d w c s there low inside,
  written-shows d w c s x' y' inside k,
  refl,
)
