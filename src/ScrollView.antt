-- ===== src/ScrollView.antt =====
-- The scrolling view of the diagram (src/tracer/scroll-view.cpp): the cursor, and where the parts of the
-- picture come to stand on the screen. Curses draws them.
pub mod Layout
use forktrace.Prelude.{
  ℕ, ◌+◌, ◌-◌, ◌/◌, ◌%◌, ◌^◌, ◌&&◌, ◌==◌, ltb, Bool, true, false, if◌then◌else◌, Option, none, some,
  Str,
}

-- The members of `ScrollView`, without the pad and the callback.
pub record View : Type 0 where
  pub pad_width : ℕ
  pub pad_height : ℕ
  pub cursor_x : ℕ
  pub cursor_y : ℕ
  pub is_running : Bool
  pub line_0 : Str
  pub line_1 : Str
  pub help_message : Str

-- `set_line` and `set_cursor`: `none` is a failed assertion.
unfoldable pub set_line : View → Str → ℕ → Option View
set_line v line y =
    if y == 0
    then some (record v { line_0 = line })
    else if y == 1
    then some (record v { line_1 = line })
    else none

unfoldable pub set_cursor : View → ℕ → ℕ → Option View
set_cursor v x y =
    if ltb x v.pad_width && ltb y v.pad_height
    then some (record v { cursor_x = x; cursor_y = y })
    else none

unfoldable pub quit : View → View
quit v = record v { is_running = false }

-- The difference of two `size_t`.
abbrev pub minus : ℕ → ℕ → ℕ
minus a b = (a + 2 ^ 64 - b) % 2 ^ 64

-- `padOffsetX` and `padOffsetY`, of a cursor's coordinate and the screen's size.
unfoldable pub pad_offset : ℕ → ℕ → ℕ
pad_offset cursor size = if ltb (size / 2) cursor then minus cursor (size / 2) else 0

-- `padPosY`; `padPosX` is 0.
abbrev pub pad_row : ℕ
pad_row = 2

-- `availableHeight`, and `overhangX` or `overhangY`: the `max` with 0 of an unsigned number.
abbrev pub available_height : ℕ → ℕ
available_height height = minus height 3

unfoldable pub overhang : ℕ → ℕ → ℕ → ℕ
overhang offset available pad = minus ((offset + available) % 2 ^ 64) pad

-- The rows of the BOTTOM section: the first, and the one behind the last.
unfoldable pub bottom_start : View → ℕ → ℕ
bottom_start v height =
    minus (pad_row + available_height height)
      (overhang (pad_offset v.cursor_y height) (available_height height) v.pad_height)

unfoldable pub bottom_end : ℕ → ℕ
bottom_end height = pad_row + available_height height

-- Where the cursor is shown: the arguments of the last `move`.
unfoldable pub cursor_row : View → ℕ → ℕ
cursor_row v height = minus (v.cursor_y + pad_row) (pad_offset v.cursor_y height)

unfoldable pub cursor_column : View → ℕ → ℕ
cursor_column v width = minus v.cursor_x (pad_offset v.cursor_x width)
