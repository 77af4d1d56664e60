-- ===== src/Interface/Inside.antt =====
-- The cursor of the scroll view stays on the picture.
use forktrace.Prelude.{
  ℕ, ◌+◌, ◌*◌, ◌^◌, ◌<◌, ◌≡◌, refl, ℤ, Bool, true, false, if◌then◌else◌, Option-cases, inl, inr,
  none, some, List, [], ◌∷◌, length, get_elem?, Str, arith, ap, ◌∙◌, sym, subst, ◌%◌, wrap_mul,
}
use forktrace.Diagram.Lines.{Line}
use forktrace.Diagram.Cursor.{
  Selection, find, get_coords, AllPlaced, node_in_lane, select_node, find_in_line_lem,
}
use forktrace.Canvas.Drawer.{column_of}
use forktrace.ScrollView.{View, set_line, set_cursor, quit}
use forktrace.Interface.Scroll.{
  Seen, shown, failed, no_process_text, no_event_text, get_process_info, get_event_info,
  process_line, event_line, ◌>>=◌, Picture, Key, Scroll, update_diagram_location, show_selection,
  place_cursor, on_arrow, on_key_press, run_view, view, key_left, key_right, key_up, key_down,
  key_q, other_key,
}

-- A picture with at least one lane and one line, lanes of at least one column, and a lane for every
-- node. Sizes are those of a `size_t`.
pub record IsPicture (d : Picture) : Type 0 where
  pub some_lanes : 0 < d.lane_count
  pub lanes_fit : d.lane_count < 2 ^ 64
  pub some_lines : 0 < length d.lines
  pub lines_fit : length d.lines < 2 ^ 64
  pub columns : 0 < d.lane_width
  pub placed : (line : ℕ) (ns : Line) → get_elem? d.lines line ≡ some ns → AllPlaced d.paths ns

-- A window of the size that `Drawer::start` gives the picture, which fits a `size_t`.
pub record IsSized (d : Picture) (v : View) : Type 0 where
  pub wide : v.pad_width ≡ column_of d.lane_width d.lane_count
  pub high : v.pad_height ≡ wrap_mul (length d.lines) 2
  pub wide_fits : d.lane_count * d.lane_width + 1 < 2 ^ 64
  pub high_fits : length d.lines * 2 < 2 ^ 64

-- The position is one of the picture's, the cursor stands there, and so inside the window.
pub record IsOn (d : Picture) (sc : Scroll) : Type 0 where
  pub lane_in : sc.lane < d.lane_count
  pub line_in : sc.line < length d.lines
  pub at_x : sc.window.cursor_x ≡ (get_coords d.lane_width sc.lane sc.line).0
  pub at_y : sc.window.cursor_y ≡ (get_coords d.lane_width sc.lane sc.line).1
  pub x_in : sc.window.cursor_x < sc.window.pad_width
  pub y_in : sc.window.cursor_y < sc.window.pad_height
  pub sized : IsSized d sc.window

lane_inside : (lane lanes w : ℕ) → lane < lanes → 0 < w → lane * w + 1 < lanes * w + 1
lane_inside lane lanes w h k = grind arith

-- The new position is one of the picture's.
pub update_diagram_location-bounds :
    (d : Picture) (k : Key) (lane line : ℕ)
    → IsPicture d
    → lane < d.lane_count
    → line < length d.lines
    → ((update_diagram_location d k lane line).1 < d.lane_count)
      × ((update_diagram_location d k lane line).2 < length d.lines)
unfolding update_diagram_location
update_diagram_location-bounds d k lane line p h j =
    let a = p.some_lanes in
    let b = p.lanes_fit in let c = p.some_lines in let e = p.lines_fit in ground (arith, a, b, c, e)

find-some :
    (d : Picture) (lane line : ℕ) (s : Selection)
    → IsPicture d
    → (s' : Selection) × (find d.heap d.paths d.lines lane line s ≡ some s')
unfolding find
find-some d lane line s p = elim (Option-cases (get_elem? d.lines line)) [
  | inl e ↦ rw (e, find) (record s { selected = none }, refl)
  | inr (ns, e) ↦
      rw (e, find)
        (
          select_node d.heap s (node_in_lane d.paths lane ns),
          find_in_line_lem d.heap d.paths lane ns s (p.placed line ns e),
        )
]

set_cursor-some :
    (v : View) (x y : ℕ)
    → x < v.pad_width
    → y < v.pad_height
    → set_cursor v x y ≡ some (record v { cursor_x = x; cursor_y = y })
unfolding set_cursor
set_cursor-some v x y h k = ground arith

wrapped_small : (n : ℕ) → n < 2 ^ 64 → n % 2 ^ 64 ≡ n
wrapped_small n h = omega arith

column_small : (lane w : ℕ) → lane * w + 1 < 2 ^ 64 → column_of w lane ≡ lane * w + 1
column_small lane w h =
    ap (λ n. (n + 1) % 2 ^ 64) (wrapped_small (lane * w) (omega arith))
    ∙ wrapped_small (lane * w + 1) h

-- The column of a lane is inside a window that is as wide as all lanes.
column_inside :
    (lane lanes w : ℕ)
    → lane < lanes
    → 0 < w
    → lanes * w + 1 < 2 ^ 64
    → column_of w lane < column_of w lanes
column_inside lane lanes w h k fits =
    let near = lane_inside lane lanes w h k in
    subst (λ m. m < column_of w lanes) (sym (column_small lane w (omega arith)))
      (subst (λ m. lane * w + 1 < m) (sym (column_small lanes w fits)) near)

module _ (strerror : ℤ → Str) (own_pid : ℤ) where
  -- No assertion of a query or of the view has failed, and the cursor is on the picture; or the view
  -- has ended at a selection of which a text cannot be made.
  abbrev pub IsInside : Picture → Seen Scroll → Type 0
  IsInside d failed = ⊥
  IsInside d (shown sc) = IsOn d sc
  IsInside d (no_process_text s) = get_process_info d s ≡ none
  IsInside d (no_event_text s) = get_event_info strerror own_pid d s ≡ none

  if-IsInside :
      (d : Picture) (b : Bool) (x y : Seen Scroll)
      → IsInside d x
      → IsInside d y
      → IsInside d (if b then x else y)
  if-IsInside d true x y h k = h
  if-IsInside d false x y h k = k

  bind-IsInside :
      (d : Picture) (r : Seen Scroll) (f : Scroll → Seen Scroll)
      → IsInside d r
      → ((sc : Scroll) → IsOn d sc → IsInside d (f sc))
      → IsInside d (r >>= f)
  bind-IsInside d failed f x h = elim x [ ]
  bind-IsInside d (shown sc) f x h = h sc x
  bind-IsInside d (no_process_text s) f x h = x
  bind-IsInside d (no_event_text s) f x h = x

  place_cursor-IsInside :
      (d : Picture) (lane line beeps : ℕ) (s : Selection) (v : View)
      → IsPicture d
      → IsSized d v
      → lane < d.lane_count
      → line < length d.lines
      → IsInside d (place_cursor strerror own_pid d lane line beeps s v)
  unfolding show_selection set_line get_coords
  place_cursor-IsInside d lane line beeps s v p z h k =
      let x : ℕ = column_of d.lane_width lane in
      let y : ℕ = wrap_mul line 2 in
      let x_in : x < v.pad_width =
        subst (λ m. x < m) (sym z.wide)
          (column_inside lane d.lane_count d.lane_width h p.columns z.wide_fits) in
      let y_in : y < v.pad_height = omega (arith, z.high, z.high_fits) in
      elim (Option-cases (get_process_info d s)) [
        | inl gone ↦ rw (gone, show_selection, process_line) gone
        | inr (upper, made) ↦ elim (Option-cases (get_event_info strerror own_pid d s)) [
          | inl gone ↦ rw (made, gone, show_selection, process_line, event_line) gone
          | inr (lower, made') ↦
              let v' : View = record v { line_0 = upper; line_1 = lower } in
              rw
                (
                  made,
                  made',
                  set_cursor-some v' x y x_in y_in,
                  show_selection,
                  process_line,
                  event_line,
                )
                record {
                  lane_in = h;
                  line_in = k;
                  at_x = refl;
                  at_y = refl;
                  x_in = x_in;
                  y_in = y_in;
                  sized = record {
                    wide = z.wide;
                    high = z.high;
                    wide_fits = z.wide_fits;
                    high_fits = z.high_fits;
                  };
                }
        ]
      ]

  on_arrow-IsInside :
      (d : Picture) (k : Key) (sc : Scroll)
      → IsPicture d
      → IsOn d sc
      → IsInside d (on_arrow strerror own_pid d k sc)
  unfolding on_arrow
  on_arrow-IsInside d k sc p o =
      let (changed, lane, line) = update_diagram_location d k sc.lane sc.line in
      let (l, m) = update_diagram_location-bounds d k sc.lane sc.line p o.lane_in o.line_in in
      let (s, e) = find-some d lane line sc.selection p in
      rw e (
        place_cursor-IsInside d lane line (if changed then sc.beeps else sc.beeps + 1) s sc.window p
          o.sized l m)

  on_key_press-IsInside :
      (d : Picture) (k : Key) (sc : Scroll)
      → IsPicture d
      → IsOn d sc
      → IsInside d (on_key_press strerror own_pid d k sc)
  unfolding on_key_press quit
  on_key_press-IsInside d key_left sc p o = on_arrow-IsInside d key_left sc p o
  on_key_press-IsInside d key_right sc p o = on_arrow-IsInside d key_right sc p o
  on_key_press-IsInside d key_up sc p o = on_arrow-IsInside d key_up sc p o
  on_key_press-IsInside d key_down sc p o = on_arrow-IsInside d key_down sc p o
  on_key_press-IsInside d key_q sc p o = record {
    lane_in = o.lane_in;
    line_in = o.line_in;
    at_x = o.at_x;
    at_y = o.at_y;
    x_in = o.x_in;
    y_in = o.y_in;
    sized = record {
      wide = o.sized.wide;
      high = o.sized.high;
      wide_fits = o.sized.wide_fits;
      high_fits = o.sized.high_fits;
    };
  }
  on_key_press-IsInside d other_key sc p o = record {
    lane_in = o.lane_in;
    line_in = o.line_in;
    at_x = o.at_x;
    at_y = o.at_y;
    x_in = o.x_in;
    y_in = o.y_in;
    sized = o.sized;
  }

  run_view-IsInside :
      (d : Picture) (ks : List Key) (sc : Scroll)
      → IsPicture d
      → IsOn d sc
      → IsInside d (run_view strerror own_pid d ks sc)
  unfolding run_view
  run_view-IsInside d [] sc p o = o
  run_view-IsInside d (k ∷ ks) sc p o =
      if-IsInside d sc.window.is_running
        (on_key_press strerror own_pid d k sc >>= run_view strerror own_pid d ks) (shown sc)
        (bind-IsInside d (on_key_press strerror own_pid d k sc) (run_view strerror own_pid d ks)
          (on_key_press-IsInside d k sc p o) (λ sc' o'. run_view-IsInside d ks sc' p o'))
        o

  -- On a picture with a lane for every node and lanes of at least one column, and a window of its
  -- size, no assertion of a query or of `set_cursor` fails, whatever keys are pressed. At the end the
  -- position is one of the picture's, and the cursor is in the window, where that position is drawn,
  -- unless the view has ended at a selection of which a text cannot be made.
  pub view-IsInside :
      (d : Picture) (index : ℤ) (v : View) (keys : List Key)
      → IsPicture d
      → IsSized d v
      → IsInside d (view strerror own_pid d index v keys)
  unfolding view
  view-IsInside d index v keys p z =
      let first : Selection = record {
        selected = none;
        process = some d.leader;
        event_index = index;
      } in
      let (s, e) = find-some d 0 0 first p in
      rw e (
        bind-IsInside d (place_cursor strerror own_pid d 0 0 0 s v)
          (run_view strerror own_pid d keys)
          (place_cursor-IsInside d 0 0 0 s v p z p.some_lanes p.some_lines)
          (λ sc o. run_view-IsInside d keys sc p o))
