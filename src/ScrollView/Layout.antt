-- ===== src/ScrollView/Layout.antt =====
-- The cursor stays in sight, and what is cleared is what the picture does not reach.
use forktrace.Prelude.{ℕ, ◌+◌, ◌^◌, ◌<◌, ◌≤◌, ◌≡◌, ◌↔◌, some, arith}
use forktrace.ScrollView.{
  View, set_cursor, pad_offset, overhang, bottom_start, bottom_end, cursor_row, cursor_column,
}

-- A position on the picture that `set_cursor` accepts is shown between the two lines at the top and the
-- one at the bottom, on a screen of at least seven rows and one column. The sizes are those of an `int`.
pub set_cursor-cursor_row :
    (v v' : View) (x y width height : ℕ)
    → set_cursor v x y ≡ some v'
    → v.pad_width < 2 ^ 31
    → v.pad_height < 2 ^ 31
    → 1 ≤ width
    → width < 2 ^ 31
    → 7 ≤ height
    → height < 2 ^ 31
    → (2 ≤ cursor_row v' height)
      × (cursor_row v' height + 1 < height)
      × (cursor_column v' width < width)
unfolding set_cursor cursor_row cursor_column pad_offset
set_cursor-cursor_row v v' x y width height e pw ph w w' h h' = ground arith

-- The rows that are cleared below the picture are those of its area, behind the two lines at the top,
-- that lie below the picture's last row, also where the picture is larger than the screen. The
-- cursor lies on the picture, and the sizes are those of an `int`.
pub bottom_rows :
    (v : View) (height y : ℕ)
    → v.cursor_y < v.pad_height
    → v.pad_height < 2 ^ 31
    → 3 ≤ height
    → height < 2 ^ 31
    → ((bottom_start v height ≤ y) × (y < bottom_end height))
      ↔ ((v.pad_height + 2 ≤ y + pad_offset v.cursor_y height) × (y + 1 < height))
unfolding bottom_start bottom_end overhang pad_offset
bottom_rows v height y c p h h' = ground arith
