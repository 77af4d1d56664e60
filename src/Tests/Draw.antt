-- ===== src/Tests/Draw.antt =====
-- A whole diagram, drawn (src/tracer/diagram.cpp).
use mathlib.Core.List.{reverse}
use forktrace.Prelude.{
  ℕ, zero, suc, ◌≡◌, refl, pos, false, Option, none, some, List, [], ◌∷◌, ◌++◌, length, Str, codes,
}
use forktrace.Event.{Ref}
use forktrace.Process.{
  new_process, new_child, notify_waiting, notify_forked, notify_ended, resolve_wait,
}
use forktrace.Tree.{
  Heap, Notice, started, born, waiting, reaped_child, forked, ended, notify_all, notify_reaped,
  notify_sent_signal, receive_kill, link_kill,
}
use forktrace.Diagram.{
  new_path, default_opts, get_next_event, next_event, end_of_path, is_zombie_node,
}
use forktrace.Diagram.Lines.{
  ◌>>=◌, redraw, build_lines, build_next_line, visit_nodes, visit_node, step_node, do_link_event,
  do_fork, do_reap, do_kill, advance, get_successor, successor_at, start_path, path_ready_to_end,
}
use forktrace.Diagram.Lanes.{allocate, allocate_each, collides, fall, place, forks}
use forktrace.Diagram.Events.{draw_event, before_signal, show_int}
use forktrace.Diagram.Draw.{
  draw_lines, draw_line, draw_nodes, draw_node, draw_in_lane, draw_mark, begin_link, end_link,
  draw_skipped,
}
use forktrace.Canvas.{Window, new_window, get_cell, draw_each, draw_string, draw_char}
use forktrace.Canvas.Drawer.{
  Drawer, new_drawer, start, start_lane, start_line, backtrack, draw_link, draw_continuation,
  draw_event_char, draw_event_string,
}

abbrev pub family : List (Ref × Notice)
family =
    (0, started (pos 10) [] [])
    ∷ (1, born (pos 11) 0)
    ∷ (0, forked 1)
    ∷ (0, waiting (pos 11) false)
    ∷ (1, ended 256)
    ∷ (0, reaped_child 1)
    ∷ (0, ended 0)
    ∷ []

abbrev rows_of : Window → ℕ → List Str
rows_of w zero = []
rows_of w (suc n) = rows_of w n ++ row w.width n ∷ []
  where
    row : ℕ → ℕ → Str
    row zero y = []
    row (suc k) y = row k y ++ (get_cell w k y).ch ∷ []

abbrev picture_of : Option Window → List Str
picture_of none = []
picture_of (some w) = rows_of w w.height

-- The diagram of the tree of the process at address 0, with lanes of four columns.
drawing : Heap → Option Drawer
unfolding redraw build_lines build_next_line visit_nodes visit_node step_node do_link_event do_fork
    do_reap do_kill advance get_successor successor_at start_path path_ready_to_end new_path
    get_next_event next_event end_of_path allocate allocate_each place fall collides forks
drawing h = redraw default_opts h 0 20 >>= λ d.
    allocate 5 h (record { lanes = [] ∷ []; paths = d.1 }) 0 >>= λ placed.
    draw_lines h placed.paths 0 (reverse d.0)
      (start (new_drawer 4) (length placed.lanes) (length d.0))

picture : Option Drawer → List Str
picture none = []
picture (some d) = picture_of d.win

family_picture : List Str
unfolding drawing picture notify_all notify_reaped notify_sent_signal receive_kill link_kill
    notify_ended notify_waiting notify_forked resolve_wait new_process new_child draw_lines
    draw_line draw_nodes draw_node draw_in_lane draw_mark begin_link end_link draw_skipped
    draw_event before_signal show_int new_window draw_each draw_string draw_char new_drawer start
    start_lane start_line backtrack draw_link draw_continuation draw_event_char draw_event_string
    is_zombie_node
family_picture = picture (drawing (notify_all (λ r. new_process (pos 0) [] []) family))

family_rows :
    family_picture
    ≡ codes " |       "
      ∷ codes " |       "
      ∷ codes " +---+   "
      ∷ codes " |   |   "
      ∷ codes " |   1   "
      ∷ codes " |   .   "
      ∷ codes " i---+   "
      ∷ codes " |       "
      ∷ codes " 0       "
      ∷ codes "         "
      ∷ []
unfolding family_picture
family_rows = refl
