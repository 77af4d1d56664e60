-- ===== src/Diagram/Events.antt =====
-- The events that draw themselves (src/tracer/event.cpp). `none` is a failed assertion.
pub mod Inside
use forktrace.Prelude.{
  ℕ, zero, suc, ◌+◌, ◌-◌, ◌/◌, ◌%◌, ℤ, pos, negsuc, is_pos, ◌==ℤ◌, Bool, true, false, not, ◌==◌,
  ltb, if◌then◌else◌, Option, none, some, List, [], ◌∷◌, Str,
}
use forktrace.Event.{
  WaitEvent, KillInfo, SignalEvent, ExecEvent, Ref, Kind, Event, fork_event, wait_event, reap_event,
  raise_event, kill_event, signal_event, exit_event, exec_event, is_link, kill_partner, succeeded,
}
use forktrace.Process.{State, alive, zombie, reaped, orphaned}
use forktrace.Tree.{Heap}
use forktrace.Diagram.{DiagramPath, Node, Paths, is_zombie_node}
use forktrace.Diagram.Lines.{Line, is_ref, ◌>>=◌}
use forktrace.Canvas.{Colour}
use forktrace.Canvas.Drawer.{
  Drawer, start_lane, start_line, backtrack, draw_link, draw_continuation, draw_event_char,
  draw_event_string,
}

-- `EXITED_COLOUR`, `KILLED_COLOUR` and so on: the colour's number, with 128 for bold.
abbrev pub exited_colour : Colour
exited_colour = 133

abbrev pub killed_colour : Colour
killed_colour = 134

abbrev pub signal_colour : Colour
signal_colour = 2

abbrev pub exec_colour : Colour
exec_colour = 131

abbrev pub bad_colour : Colour
bad_colour = 6

abbrev pub send_colour : Colour
send_colour = 7

-- `std::to_string` of an `int`.
unfoldable digits : ℕ → ℕ → Str → Str
digits zero n s = s
digits (suc fuel) n s = elim (ltb n 10) [
  | true ↦ (b'0' + n) ∷ s
  | false ↦ digits fuel (n / 10) ((b'0' + n % 10) ∷ s)
]

unfoldable pub show_int : ℤ → Str
unfolding digits
show_int (pos n) = digits (suc n) n []
show_int (negsuc n) = b'-' ∷ digits (n + 2) (n + 1) []

abbrev pub is_orphan : State → Bool
is_orphan orphaned = true
is_orphan _ = false

abbrev pub is_gathered : State → Bool
is_gathered reaped = true
is_gathered _ = false

-- `linked_path`, `link_char` and `link_colour`.
abbrev pub linked_path : Kind → Option Ref
linked_path (fork_event child) = some child
linked_path (reap_event child w) = some child
linked_path (kill_event i sender) = some (kill_partner i sender)
linked_path _ = none

abbrev pub link_char : Heap → Kind → ℕ
link_char h (reap_event child w) = if (h child).killed then b'~' else b'-'
link_char h (kill_event i sender) = if sender then b'>' else b'<'
link_char h _ = b'-'

abbrev pub link_colour : Heap → Kind → Colour
link_colour h (reap_event child w) = if (h child).killed then killed_colour else exited_colour
link_colour h _ = 0

-- `ReapEvent::draw`: whom the wait was for.
abbrev pub wait_char : ℤ → ℕ
wait_char id = if id ==ℤ negsuc 0 then b'w' else if is_pos id then b'i' else b'g'

-- What `SignalEvent::draw` and `ExitEvent::draw` put in front of the number and behind it.
unfoldable pub before_signal : State → Drawer → Option Drawer
before_signal s d =
    if is_orphan s
    then draw_event_char (backtrack d 1) 0 b'[' 1
    else if is_gathered s
    then some d
    else draw_event_char (backtrack d 1) killed_colour b'~' 1

abbrev pub if_orphan : State → (Drawer → Option Drawer) → Drawer → Option Drawer
if_orphan s draw d = if is_orphan s then draw d else some d

-- `draw` of each subclass of `Event`; `s` is the state of the event's process.
abbrev pub draw_fork : Colour → Drawer → Option Drawer
draw_fork c d = draw_event_char d c b'+' 1

abbrev pub draw_wait : WaitEvent → Drawer → Option Drawer
draw_wait w d = draw_event_char d (if w.error ==ℤ pos 0 then 0 else bad_colour) b'w' 1

abbrev pub draw_reap : WaitEvent → Colour → Drawer → Option Drawer
draw_reap w c d = draw_event_char d c (wait_char w.waited_id) 1

abbrev pub draw_raise : ℤ → Drawer → Option Drawer
draw_raise sig d = draw_event_string d send_colour (show_int sig)

abbrev pub draw_kill : KillInfo → Drawer → Option Drawer
draw_kill i d = draw_event_string d send_colour (show_int i.signal)

abbrev pub draw_signal : State → SignalEvent → Drawer → Option Drawer
draw_signal s e d =
    if not e.killed
    then draw_event_string d signal_colour (show_int e.signal)
    else (before_signal s d >>= λ d₁.
        draw_event_string d₁ killed_colour (show_int e.signal) >>= λ d₂.
        if_orphan s (λ d₃. draw_event_char d₃ 0 b']' 1) d₂)

abbrev pub draw_exit : State → ℤ → Drawer → Option Drawer
draw_exit s status d = if_orphan s (λ d₁. draw_event_char (backtrack d₁ 1) 0 b'(' 1) d >>= λ d₂.
    draw_event_string d₂ exited_colour (show_int status) >>= λ d₃.
    if_orphan s (λ d₄. draw_event_char d₄ 0 b')' 1) d₃

abbrev pub draw_exec : ExecEvent → Drawer → Option Drawer
draw_exec x d = draw_event_char d (if succeeded x then exec_colour else bad_colour) b'E' 1

-- The virtual `draw` of an event of the process `owner`.
unfoldable pub draw_event : Heap → Ref → Kind → Drawer → Option Drawer
draw_event h owner (fork_event child) d = draw_fork (link_colour h (fork_event child)) d
draw_event h owner (wait_event w) d = draw_wait w d
draw_event h owner (reap_event child w) d = draw_reap w (link_colour h (reap_event child w)) d
draw_event h owner (raise_event id sig thread) d = draw_raise sig d
draw_event h owner (kill_event i sender) d = draw_kill i d
draw_event h owner (signal_event s) d = draw_signal (h owner).state s d
draw_event h owner (exit_event status) d = draw_exit (h owner).state status d
draw_event h owner (exec_event x) d = draw_exec x d
