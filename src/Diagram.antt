-- ===== src/Diagram.antt =====
-- The fork diagram (src/tracer/diagram.hpp, src/tracer/diagram.cpp): the data, and the search for
-- the next event to show. The child modules build the lines, allocate the lanes and draw.
pub mod Lanes
pub mod Lines
pub mod Events
pub mod Draw
pub mod Cursor
use Prim.Native.Nat.{bit_and}
use mathlib.Core.List.{reverse}
use forktrace.Prelude.{
  ℕ, zero, suc, ◌+◌, ℤ, pos, negsuc, Bool, true, false, not, ◌&&◌, ◌||◌, ◌==◌, if◌then◌else◌,
  Option, none, some, List, [], ◌∷◌, get_elem?, drop,
}
use forktrace.Event.{
  Ref, Kind, exec_event, signal_event, kill_event, raise_event, Event, succeeded, kill_partner,
}
use forktrace.Process.{Process, State, reaped}
use forktrace.Tree.{Heap}

-- `Diagram::Options`, as bits.
abbrev pub show_execs : ℕ
show_execs = 1

abbrev pub show_failed_execs : ℕ
show_failed_execs = 2

abbrev pub show_non_fatal_signals : ℕ
show_non_fatal_signals = 4

abbrev pub show_signal_sends : ℕ
show_signal_sends = 8

abbrev pub default_opts : ℕ
default_opts = 25

-- `Diagram::Path`; `end_line` and `lane` are -1 while they are not known.
pub record DiagramPath : Type 0 where
  pub start_line : ℤ
  pub end_line : ℤ
  pub lane : ℤ
  pub partner : Option Ref

-- `Path(startLine)`.
unfoldable pub new_path : ℕ → DiagramPath
new_path line = record {
  start_line = pos line;
  end_line = negsuc 0;
  lane = negsuc 0;
  partner = none;
}

-- `Diagram::Node`; `next` is the index of the next event of the path, -1 if there is none.
pub record Node : Type 0 where
  pub process : Ref
  pub event : Option Event
  pub next : ℤ

abbrev pub Paths : Type 0
Paths = Ref → Option DiagramPath

abbrev pub put_path : Paths → Ref → DiagramPath → Paths
put_path ps r p q = if r == q then some p else ps q

-- The events of a process in the order of their indices.
abbrev pub events : Process → List Event
events p = reverse p.history

abbrev pub has_option : ℕ → ℕ → Bool
has_option opts flag = not (bit_and opts flag == 0)

-- The tests of `_get_next_event`, in its order: is the event hidden from the diagram?
unfoldable pub is_hidden : ℕ → Kind → Bool
is_hidden opts (exec_event x) =
    if not (has_option opts show_execs)
    then true
    else not (has_option opts show_failed_execs) && not (succeeded x)
is_hidden opts (signal_event s) = not (has_option opts show_non_fatal_signals) && not s.killed
is_hidden opts (kill_event i sender) = not (has_option opts show_signal_sends)
is_hidden opts (raise_event id sig thread) = not (has_option opts show_signal_sends)
is_hidden opts _ = false

-- The loop of `_get_next_event` over the events from index `i` on.
unfoldable pub next_shown : ℕ → List Event → ℕ → Option (ℕ × Event)
next_shown opts [] i = none
next_shown opts (e ∷ es) i =
    let rest = next_shown opts es (i + 1) in if is_hidden opts e.kind then rest else some (i, e)

-- A path that waits for a kill event says whom it will link with. `none` is a failed assertion:
-- the process has no path, or its path already waits for a partner.
unfoldable pub await_partner : Paths → Ref → Kind → Option Paths
await_partner ps r (kill_event i sender) = elim (ps r) [
  | none ↦ none
  | some p ↦ elim p.partner [
    | none ↦ some (put_path ps r (record p { partner = some (kill_partner i sender) }))
    | some q ↦ none
  ]
]
await_partner ps r _ = some ps

-- `_get_next_event(process, start)`.
unfoldable pub get_next_event : ℕ → Heap → Paths → Ref → ℕ → Option (ℤ × Paths)
unfolding next_shown is_hidden await_partner
get_next_event opts h ps r start = elim (next_shown opts (drop start (events (h r))) start) [
  | none ↦ some (negsuc 0, ps)
  | some (i, e) ↦ elim (await_partner ps r e.kind) [ none ↦ none | some ps' ↦ some (pos i, ps') ]
]

-- `Node::next_event`.
unfoldable pub next_event : Heap → Node → Option Event
next_event h n = elim n.next [ pos i ↦ get_elem? (events (h n.process)) i | negsuc _ ↦ none ]

abbrev is_reaped : State → Bool
is_reaped reaped = true
is_reaped _ = false

-- `Node::zombie` and `Node::end_of_path`.
unfoldable pub is_zombie_node : Heap → Node → Bool
is_zombie_node h n = elim n.next [ pos i ↦ false | negsuc _ ↦ is_reaped (h n.process).state ]

unfoldable pub end_of_path : Heap → Node → Bool
end_of_path h n = elim n.next [ pos i ↦ false | negsuc _ ↦ not (is_reaped (h n.process).state) ]
