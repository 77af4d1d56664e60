-- ===== src/Tests/Built.antt =====
-- A diagram that is built, drawn and viewed (src/tracer/diagram.cpp, src/tracer/forktrace.cpp).
use forktrace.Prelude.{
  ◌≡◌, ◌+◌, ◌*◌, ℤ, wrap_mul, refl, pos, true, false, none, [], ◌∷◌, Str, codes, arith, length,
}
use forktrace.Action.{Outcome, done, raised}
use forktrace.Process.{
  new_process, new_child, notify_waiting, notify_forked, notify_ended, resolve_wait,
}
use forktrace.Tree.{Heap, notify_all, notify_reaped, notify_sent_signal, receive_kill, link_kill}
use forktrace.Diagram.{new_path, get_next_event, next_event, end_of_path, is_zombie_node}
use forktrace.Diagram.Lines.{
  redraw, build_lines, build_next_line, visit_nodes, visit_node, step_node, do_link_event, do_fork,
  do_reap, do_kill, advance, get_successor, successor_at, start_path, path_ready_to_end,
}
use forktrace.Diagram.Lanes.{allocate, allocate_each, collides, fall, place, forks}
use forktrace.Diagram.Events.{draw_event, before_signal, show_int}
use forktrace.Diagram.Draw.{
  draw_lines, draw_line, draw_nodes, draw_node, draw_in_lane, draw_mark, begin_link, end_link,
  draw_skipped,
}
use forktrace.Canvas.{new_window, draw_each, draw_string, draw_char}
use forktrace.Canvas.Drawer.{
  column_of, Drawer, new_drawer, start, start_lane, start_line, backtrack, draw_link,
  draw_continuation, draw_event_char, draw_event_string,
}
use forktrace.ScrollView.{View}
use forktrace.Interface.Scroll.{Picture, key_down, key_right, key_q, view}
use forktrace.Interface.Inside.{IsInside}
use forktrace.Interface.Commands.{new_diagram}
use forktrace.Interface.Drawn.{new_diagram-view}
use forktrace.Tests.Draw.{family}

abbrev family_heap : Heap
family_heap = notify_all (λ r. new_process (pos 0) [] []) family

abbrev built : Outcome (Picture × Drawer)
built = new_diagram 20 family_heap 0 4 25

abbrev no_drawer : Drawer
no_drawer = record { lane_width = 0; x_extent = 0; x = 0; y = 0; is_truncated = false; win = none }

abbrev result_of : Outcome (Picture × Drawer) → Picture × Drawer
result_of (done r) = r
result_of (raised e) = (
  record {
    heap = family_heap;
    leader = 0;
    paths = λ r. none;
    lines = [];
    lane_count = 0;
    lane_width = 0;
  },
  no_drawer,
)

built_lem : built ≡ done (result_of built)
unfolding notify_all notify_reaped notify_sent_signal receive_kill link_kill notify_ended
    notify_waiting notify_forked resolve_wait new_process new_child new_diagram redraw build_lines
    build_next_line visit_nodes visit_node step_node do_link_event do_fork do_reap do_kill advance
    get_successor successor_at start_path path_ready_to_end new_path get_next_event next_event
    end_of_path allocate allocate_each place fall collides forks draw_lines draw_line draw_nodes
    draw_node draw_in_lane draw_mark begin_link end_link draw_skipped draw_event before_signal
    show_int new_window draw_each draw_string draw_char new_drawer start start_lane start_line
    backtrack draw_link draw_continuation draw_event_char draw_event_string is_zombie_node
built_lem = refl

-- The columns of two lanes, of four columns each.
built_width : (result_of built).0.lane_count * (result_of built).0.lane_width + 1 ≡ 9
unfolding notify_all notify_reaped notify_sent_signal receive_kill link_kill notify_ended
    notify_waiting notify_forked resolve_wait new_process new_child new_diagram redraw build_lines
    build_next_line visit_nodes visit_node step_node do_link_event do_fork do_reap do_kill advance
    get_successor successor_at start_path path_ready_to_end new_path get_next_event next_event
    end_of_path allocate allocate_each place fall collides forks draw_lines draw_line draw_nodes
    draw_node draw_in_lane draw_mark begin_link end_link draw_skipped draw_event before_signal
    show_int new_window draw_each draw_string draw_char new_drawer start start_lane start_line
    backtrack draw_link draw_continuation draw_event_char draw_event_string is_zombie_node
built_width = refl

-- Two lanes and five lines.
built_size : ((result_of built).0.lane_count ≡ 2) × (length (result_of built).0.lines ≡ 5)
unfolding notify_all notify_reaped notify_sent_signal receive_kill link_kill notify_ended
    notify_waiting notify_forked resolve_wait new_process new_child new_diagram redraw build_lines
    build_next_line visit_nodes visit_node step_node do_link_event do_fork do_reap do_kill advance
    get_successor successor_at start_path path_ready_to_end new_path get_next_event next_event
    end_of_path allocate allocate_each place fall collides forks draw_lines draw_line draw_nodes
    draw_node draw_in_lane draw_mark begin_link end_link draw_skipped draw_event before_signal
    show_int new_window draw_each draw_string draw_char new_drawer start start_lane start_line
    backtrack draw_link draw_continuation draw_event_char draw_event_string is_zombie_node
built_size = (refl, refl)

abbrev window : View
window = record {
  pad_width = column_of (result_of built).0.lane_width (result_of built).0.lane_count;
  pad_height = wrap_mul (length (result_of built).0.lines) 2;
  cursor_x = 0;
  cursor_y = 0;
  is_running = true;
  line_0 = [];
  line_1 = [];
  help_message = codes "help";
}

abbrev no_error : ℤ → Str
no_error n = []

new_diagram-view_example :
    IsInside no_error
      (pos 1)
      (result_of built).0
      (view no_error (pos 1) (result_of built).0 (pos 0) window (key_right ∷ key_down ∷ key_q ∷ []))
new_diagram-view_example =
    new_diagram-view no_error (pos 1) 20 family_heap 0 4 25 (result_of built).0 (result_of built).1
      (pos 0) window (key_right ∷ key_down ∷ key_q ∷ []) built_lem (omega arith)
      (omega (arith, built_size.0)) (omega (arith, built_size.1))
      (record {
        wide = refl;
        high = refl;
        wide_fits = omega (arith, built_width);
        high_fits = omega (arith, built_size.1);
      })
