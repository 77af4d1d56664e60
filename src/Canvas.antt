-- ===== src/Canvas.antt =====
-- The grid of characters that the diagram is drawn on (`Window` in src/tracer/terminal.hpp and
-- src/tracer/terminal.cpp).
pub mod Cells
pub mod Drawer
pub mod Strings
use forktrace.Prelude.{
  ℕ, ◌+◌, ◌*◌, Bool, ◌&&◌, ◌==◌, ltb, leb, if◌then◌else◌, Option, none, some, List, [], ◌∷◌, length,
  wrap_add, replicate, Str,
}

-- `Colour`, as its number.
abbrev pub Colour : Type 0
Colour = ℕ

pub record Cell : Type 0 where
  pub colour : Colour
  pub ch : ℕ

-- The buffer is a sequence of rows; what it holds out of bounds is not used.
pub record Window : Type 0 where
  pub current : Colour
  pub default_colour : Colour
  pub width : ℕ
  pub height : ℕ
  pub buf : ℕ → Cell

unfoldable pub new_window : ℕ → ℕ → Colour → Window
new_window width height c = record {
  current = c;
  default_colour = c;
  width = width;
  height = height;
  buf = λ k. record { colour = 0; ch = b' ' };
}

-- `set_colour`, which also gives the colour before.
abbrev pub set_colour : Window → Colour → Window
set_colour w c = record w { current = c }

-- `get_cell`, and a write through `_at`.
abbrev pub get_cell : Window → ℕ → ℕ → Cell
get_cell w x y = w.buf (y * w.width + x)

abbrev pub put_cell : Window → ℕ → ℕ → ℕ → Window
put_cell w x y c = record w {
  buf = λ k. if k == y * w.width + x then record { colour = w.current; ch = c } else w.buf k;
}

-- The loops of `draw_char` and `draw_string`, from the cell at `x` on.
unfoldable pub draw_each : Window → ℕ → ℕ → Str → Window
draw_each w x y [] = w
draw_each w x y (c ∷ s) = draw_each (put_cell w x y c) (x + 1) y s

-- `none` is a failed assertion.
unfoldable pub draw_string : Window → ℕ → ℕ → Str → Option Window
draw_string w x y s =
    if ltb y w.height && leb (x + length s) w.width then some (draw_each w x y s) else none

unfoldable pub draw_char : Window → ℕ → ℕ → ℕ → ℕ → Option Window
draw_char w x y c count =
    if ltb y w.height && leb (wrap_add x count) w.width
    then some (draw_each w x y (replicate count c))
    else none
