-- ===== src/Canvas/Drawer.antt =====
-- `Drawer` of src/tracer/diagram.cpp, which puts the events of a line into their lanes.
use forktrace.Prelude.{
  ℕ, ◌+◌, ◌-◌, ◌/◌, wrap_add, wrap_mul, wrap_sub, Bool, true, false, ◌==◌, ltb, leb, if◌then◌else◌,
  Option, none, some, length, take, Str,
}
use forktrace.Canvas.{Colour, Window, new_window, set_colour, draw_char, draw_string}

pub record Drawer : Type 0 where
  pub lane_width : ℕ
  pub x_extent : ℕ
  pub x : ℕ
  pub y : ℕ
  pub is_truncated : Bool
  pub win : Option Window

-- `LSHIFT`.
abbrev pub lshift : ℕ
lshift = 1

unfoldable pub new_drawer : ℕ → Drawer
new_drawer lane_width = record {
  lane_width = lane_width;
  x_extent = 0;
  x = 0;
  y = 0;
  is_truncated = false;
  win = none;
}

-- The first column of a lane.
abbrev pub column_of : ℕ → ℕ → ℕ
column_of lane_width lane = wrap_add (wrap_mul lane lane_width) lshift

-- `start`, with the default colour of a window, white.
unfoldable pub start : Drawer → ℕ → ℕ → Drawer
start d lanes lines = record d {
  win = some (new_window (column_of d.lane_width lanes) (wrap_mul lines 2) 0);
}

-- `_x = x`, and the flag where that is left of what has been drawn.
abbrev move_to : Drawer → ℕ → Drawer
move_to d x = record d { x = x; is_truncated = if ltb x d.x_extent then true else d.is_truncated }

unfoldable pub start_lane : Drawer → ℕ → Drawer
start_lane d lane = move_to d (column_of d.lane_width lane)

unfoldable pub start_line : Drawer → ℕ → Drawer
start_line d line = record d { x_extent = 0; x = 0; y = wrap_mul line 2 }

unfoldable pub backtrack : Drawer → ℕ → Drawer
backtrack d steps = move_to d (wrap_sub d.x steps)

-- The window after drawing, with the colour that it had before; `none` is a failed assertion, or a
-- drawer that was not started.
abbrev pub with_colour : Window → Colour → (Window → Option Window) → Option Window
with_colour w c draw = elim (draw (set_colour w c)) [
  | none ↦ none
  | some w' ↦ some (set_colour w' w.current)
]

-- `draw_link`, for an event's link colour and link character. A lane without columns is a division
-- by zero.
unfoldable pub draw_link : Drawer → Colour → ℕ → Option Drawer
draw_link d c ch = elim d.win [
  | none ↦ none
  | some w ↦
      let lane_start = column_of d.lane_width (wrap_sub d.x lshift / d.lane_width) in
      let padding = wrap_sub (wrap_add lane_start d.lane_width) d.x in
      if d.lane_width == 0
      then none
      else elim (with_colour w c (λ v. draw_char v d.x d.y ch padding)) [
        | none ↦ none
        | some w' ↦ some (record d { win = some w'; x = wrap_add d.x padding })
      ]
]

unfoldable pub draw_continuation : Drawer → ℕ → Colour → ℕ → Option Drawer
draw_continuation d lane c ch = elim d.win [
  | none ↦ none
  | some w ↦
      elim (with_colour w c
        (λ v. draw_char v (column_of d.lane_width lane) (wrap_add d.y 1) ch 1)) [
          | none ↦ none
          | some w' ↦ some (record d { win = some w' })
        ]
]

-- `_x = _xExtent = x` behind what was drawn.
abbrev drawn_to : Drawer → ℕ → Option Window → Option Drawer
drawn_to d x none = none
drawn_to d x (some w) = some (record d { win = some w; x = x; x_extent = x })

-- The virtual `draw_char` and `draw_string`: what does not fit into the window is cut off.
unfoldable pub draw_event_char : Drawer → Colour → ℕ → ℕ → Option Drawer
draw_event_char d c ch count = elim d.win [
  | none ↦ none
  | some w ↦
      if leb w.width d.x
      then some (record d { is_truncated = true })
      else drawn_to d (wrap_add d.x count) (with_colour w c (λ v. draw_char v d.x d.y ch count))
]

-- `remove_suffix` takes no more bytes than there are.
unfoldable pub draw_event_string : Drawer → Colour → Str → Option Drawer
draw_event_string d c s = elim d.win [
  | none ↦ none
  | some w ↦
      if ltb w.width (d.x + length s)
      then (if ltb w.width d.x
          then none
          else drawn_to (record d { is_truncated = true }) (d.x + length (take (w.width - d.x) s))
              (with_colour w c (λ v. draw_string v d.x d.y (take (w.width - d.x) s))))
      else drawn_to d (d.x + length s) (with_colour w c (λ v. draw_string v d.x d.y s))
]
