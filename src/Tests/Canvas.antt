-- ===== src/Tests/Canvas.antt =====
-- Runs of the canvas (src/tracer/terminal.cpp, the Drawer of src/tracer/diagram.cpp).
use forktrace.Prelude.{pos, ◌≡◌, refl, true, false, some, arith, []}
use forktrace.Event.{exit_event}
use forktrace.Process.{new_process}
use forktrace.Tree.{Heap}
use forktrace.Diagram.Events.{draw_event}
use forktrace.Diagram.Events.Inside.{Inside, draw_event-Inside}
use forktrace.Canvas.{Window, new_window}
use forktrace.Canvas.Drawer.{Drawer, new_drawer, start, start_lane, start_line}

-- A window of two lanes of three columns, one line high; the drawer stands in the second lane.
abbrev small : Window
small = record {
  current = 0;
  default_colour = 0;
  width = 7;
  height = 2;
  buf = λ k. record { colour = 0; ch = b' ' };
}

abbrev second_lane : Drawer
second_lane = record {
  lane_width = 3;
  x_extent = 0;
  x = 4;
  y = 0;
  is_truncated = true;
  win = some small;
}

started :
    start_lane (start_line (start (new_drawer 3) 2 1) 0) 1
    ≡ record { lane_width = 3; x_extent = 0; x = 4; y = 0; is_truncated = false; win = some small }
unfolding start_lane start_line start new_drawer new_window
started = refl

abbrev lone : Heap
lone r = new_process (pos 10) [] []

draw_event-Inside_example :
    (d' : Drawer) × (draw_event lone 0 (exit_event (pos 3)) second_lane ≡ some d') × Inside 7 2 0 d'
draw_event-Inside_example =
    draw_event-Inside 7 2 0 (omega arith) lone 0 (exit_event (pos 3)) second_lane (omega arith)
      (small, refl, refl, refl, refl, omega arith)
