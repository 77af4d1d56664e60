-- ===== src/Tests/Scroll.antt =====
-- The scroll view's keys (src/tracer/forktrace.cpp), the texts (src/tracer/event.cpp,
-- src/tracer/system.cpp) and the log (src/tracer/log.cpp).
use forktrace.Prelude.{
  ℕ, zero, suc, ◌≡◌, refl, subst, pos, negsuc, ℤ, true, false, if◌then◌else◌, Option, none, some,
  List, [], ◌∷◌, ◌++◌, ◌^◌, Str, codes, arith, get_elem?,
}
use forktrace.Event.{WaitEvent, exit_event, reap_event, fork_event}
use forktrace.Process.{Process, new_process, reaped, command_line, show_command}
use forktrace.Tree.{Heap}
use forktrace.Settings.{log_error, Switches, is_log_enabled_for}
use forktrace.Util.{split, join}
use forktrace.Diagram.{Node, Paths}
use forktrace.Diagram.Lines.{Line}
use forktrace.Diagram.Events.{show_int}
use forktrace.Diagram.Cursor.{Selection, find, find_in_line, locate, get_coords, AllPlaced}
use forktrace.ScrollView.{View, set_line, set_cursor}
use forktrace.Canvas.{Window, new_window}
use forktrace.Canvas.Drawer.{column_of}
use forktrace.Interface.Scroll.{
  Picture, Seen, Scroll, shown, failed, key_right, run_view, on_key_press, on_arrow,
  update_diagram_location, view, show_selection, get_process_info, get_event_info, text_of,
}
use forktrace.Interface.Inside.{IsPicture}
use forktrace.Texts.{
  SyscallInfo, event_text, reap_text, exit_text, get_wait_target_string, diagnose_wait_status,
  get_signal_name,
}
use forktrace.Texts.Death.{Tells, reap_event-Tells}
use forktrace.Logger.{write_lines, message_internal, header, colour, message, message_prefix}
use forktrace.Logger.Lines.{stamp, message-stamp}

-- Two lanes, of which the second is empty, and a line.
abbrev node : Node
node = record { process = 0; event = none; next = negsuc 0 }

abbrev paths : Paths
paths r = some (record { start_line = pos 0; end_line = pos 0; lane = pos 0; partner = none })

abbrev picture : Picture
picture = record {
  heap = λ r. new_process (pos 5) (codes "ls") [];
  leader = 0;
  paths = paths;
  lines = (node ∷ []) ∷ [];
  lane_count = 2;
  lane_width = 4;
}

picture-IsPicture : IsPicture picture
unfolding locate
picture-IsPicture = record {
  some_lanes = omega arith;
  lanes_fit = omega arith;
  some_lines = omega arith;
  lines_fit = omega arith;
  columns = omega arith;
  placed = λ line ns e. in_line line ns e;
}
  where
    in_line :
        (line : ℕ) (ns : Line)
        → get_elem? {A = Line} ((node ∷ []) ∷ []) line ≡ some ns
        → AllPlaced paths ns
    in_line zero ns e =
        let e' : (node ∷ []) ≡ ns = ground (arith, e) in subst (AllPlaced paths) e' ((0, refl), tt)
    in_line (suc line) ns e = absurd (ground (arith, e))

abbrev window : ℕ → ℕ → View
window w h = record {
  pad_width = w;
  pad_height = h;
  cursor_x = 0;
  cursor_y = 0;
  is_running = true;
  line_0 = [];
  line_1 = [];
  help_message = codes "help";
}

-- Lanes of no columns, which the option lane-width accepts, make the first cursor fail its assertion.
zero_width :
    view (λ e. []) (pos 1) (record picture { lane_width = 0 }) (pos 0) (window 1 2) [] ≡ failed
unfolding view find find_in_line locate show_selection set_line set_cursor get_coords
    get_process_info get_event_info text_of event_text command_line show_command join show_int
    new_process
zero_width = refl

-- The lane and the two lines of a view that has not failed.
abbrev seen : Seen Scroll → Option (ℕ × Str × Str)
seen (shown sc) = some (sc.lane, sc.window.line_0, sc.window.line_1)
seen _ = none

-- The key goes to the second lane, where there is nothing to select.
right_of_leader :
    seen (view (λ e. []) (pos 1) picture (pos 0) (window 9 2) (key_right ∷ [])) ≡ some (1, [], [])
unfolding view find find_in_line locate show_selection set_line set_cursor get_coords
    get_process_info get_event_info text_of event_text command_line show_command join show_int
    new_process run_view on_key_press on_arrow update_diagram_location
right_of_leader = refl

at_leader :
    seen (view (λ e. []) (pos 1) picture (pos 0) (window 9 2) [])
    ≡ some (0, codes "process 5 ls [  ]", [])
unfolding view find find_in_line locate show_selection set_line set_cursor get_coords
    get_process_info get_event_info text_of event_text command_line show_command join show_int
    new_process run_view
at_leader = refl

-- Two lanes of 2 ^ 63 columns have a window of one column.
wide_lanes : (λ (w : Window). w.width) (new_window (column_of (2 ^ 63) 2) 2 0) ≡ 1
unfolding new_window
wide_lanes = refl

-- The event of the node is the first of three; the second is hidden, and `next` is the third. The
-- index that `find` stores is not that of the event.
abbrev hidden_next : Node
hidden_next = record {
  process = 0;
  event = some (record { kind = fork_event 1; location = none });
  next = pos 2;
}

abbrev none_selected : Selection
none_selected = record { selected = none; process = none; event_index = pos 0 }

index_behind :
    find (λ r. new_process (pos 5) [] []) paths ((hidden_next ∷ []) ∷ []) 0 0 none_selected
    ≡ some (record { selected = hidden_next.event; process = some 0; event_index = pos 1 })
unfolding find find_in_line locate
index_behind = refl

-- A child that has exited with 3 and was reaped.
abbrev exited_child : Process
exited_child = record {
  pid = pos 6;
  parent = none;
  history = record { kind = exit_event (pos 3); location = none } ∷ [];
  initial_name = [];
  initial_args = [];
  state = reaped;
  killed = false;
  location = none;
}

abbrev family : Heap
family r = exited_child

abbrev waited : WaitEvent
waited = record { waited_id = negsuc 0; error = pos 0; nohang = false }

abbrev no_error : ℤ → Str
no_error e = []

reap_event-Tells_example :
    (d : Str) × (event_text no_error (pos 1) 2 family 0 (reap_event 1 waited)
      ≡ some (reap_text (pos 6) waited d))
    × Tells no_error (pos 1) exited_child d
reap_event-Tells_example = reap_event-Tells no_error (pos 1) family 0 1 waited 0 (refl, refl) refl

reap_read :
    event_text no_error (pos 1) 2 family 0 (reap_event 1 waited)
    ≡ some (codes "6 reaped 6 exited 3 {waited for any child}")
unfolding event_text exit_text show_int get_wait_target_string
reap_read = refl

-- The text of a wait does not tell the child 5 from the group 5.
same_target : get_wait_target_string (pos 5) ≡ get_wait_target_string (negsuc 4)
unfolding get_wait_target_string show_int
same_target = refl

killed_text : diagnose_wait_status 9 ≡ codes "killed by SIGKILL (9)"
unfolding diagnose_wait_status get_signal_name show_int
killed_text = refl

abbrev two_calls : List SyscallInfo
two_calls =
    record { arg_count = 3; name = codes "read" }
    ∷ record { arg_count = 3; name = codes "write" }
    ∷ []

abbrev no_paint : ℕ → Str → Str
no_paint c s = s

abbrev errors_on : Switches
errors_on = record {
  error_on = true;
  warn_on = false;
  log_on = false;
  verb_on = false;
  dbg_on = false;
  colour_on = false;
}

message-stamp_example : message no_paint (pos 7) errors_on log_error (codes "a\nb") ≡ (
    if is_log_enabled_for log_error errors_on
    then stamp
        (message_prefix no_paint (pos 7) errors_on
          ++ header no_paint (pos 7) errors_on (some log_error))
        (message_prefix no_paint (pos 7) errors_on)
        (split (codes "a\nb") 10 false)
    else [])
message-stamp_example = message-stamp no_paint (pos 7) errors_on log_error (codes "a\nb")

two_lines :
    message no_paint (pos 7) errors_on log_error (codes "a\nb") ≡ codes "[7] error: a\n[7] b\n"
unfolding message message_internal write_lines header colour is_log_enabled_for show_int
two_lines = refl
