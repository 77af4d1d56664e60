-- ===== src/Tests/View.antt =====
-- The scrolling view on a screen of 80 columns and 24 rows.
use forktrace.Prelude.{ℕ, ◌+◌, ◌-◌, ◌^◌, ◌<◌, ◌≤◌, ◌≡◌, refl, ◌↔◌, true, some, codes, arith}
use forktrace.ScrollView.{
  View, set_cursor, pad_offset, overhang, bottom_start, bottom_end, cursor_row, cursor_column,
}
use forktrace.ScrollView.Layout.{set_cursor-cursor_row, bottom_rows}

abbrev view : ℕ → ℕ → View
view x y = record {
  pad_width = 100;
  pad_height = 50;
  cursor_x = x;
  cursor_y = y;
  is_running = true;
  line_0 = codes "one";
  line_1 = codes "two";
  help_message = codes "help";
}

accepted : set_cursor (view 0 0) 60 45 ≡ some (view 60 45)
unfolding set_cursor
accepted = refl

set_cursor-cursor_row_example :
    (2 ≤ cursor_row (view 60 45) 24)
    × (cursor_row (view 60 45) 24 + 1 < 24)
    × (cursor_column (view 60 45) 80 < 80)
set_cursor-cursor_row_example =
    set_cursor-cursor_row (view 0 0) (view 60 45) 60 45 80 24 accepted (omega arith) (omega arith)
      (omega arith) (omega arith) (omega arith) (omega arith)

-- The picture ends above the row 19 of the screen, 33 rows into the picture.
bottom_rows_example :
    ((bottom_start (view 60 45) 24 ≤ 19) × (19 < bottom_end 24))
    ↔ ((50 + 2 ≤ 19 + pad_offset 45 24) × (19 + 1 < 24))
bottom_rows_example =
    bottom_rows (view 60 45) 24 19 (omega arith) (omega arith) (omega arith) (omega arith)

-- Where the picture is larger than the screen, the overhang is not 0.
overhang_wraps : overhang 0 21 50 ≡ 2 ^ 64 - 29
unfolding overhang
overhang_wraps = refl
