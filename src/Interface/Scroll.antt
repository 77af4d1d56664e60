-- ===== src/Interface/Scroll.antt =====
-- The keys of the scroll view (`update_diagram_location` and `view` of src/tracer/forktrace.cpp).
use forktrace.Prelude.{
  ℕ, ◌+◌, ◌-◌, ◌^◌, ◌%◌, min, max, ℤ, Bool, true, false, not, ◌||◌, ◌==◌, if◌then◌else◌, Option,
  none, some, List, [], ◌∷◌, length, ◌++◌, Str, codes, zero, suc, pos, negsuc,
}
use forktrace.Event.{Ref, SourceLocation, Event}
use forktrace.Process.{ok, fault, command_line}
use forktrace.Texts.{event_text, location_text}
use forktrace.Diagram.Events.{show_int}
use forktrace.Tree.{Heap}
use forktrace.Diagram.{Paths}
use forktrace.Diagram.Lines.{Line}
use forktrace.Diagram.Cursor.{Selection, find, get_coords}
use forktrace.ScrollView.{View, set_line, set_cursor, quit, minus}

-- What the queries of a `Diagram` use.
pub record Picture : Type 0 where
  pub heap : Heap
  pub leader : Ref
  pub paths : Paths
  pub lines : List Line
  pub lane_count : ℕ
  pub lane_width : ℕ

pub data Key : Type 0 where
  key_left key_right key_up key_down key_q other_key : Key

abbrev pub is_arrow : Key → Bool
is_arrow key_q = false
is_arrow other_key = false
is_arrow _ = true

-- A coordinate after the switch of `update_diagram_location`: `std::max(n, 1UL) - 1`, and a sum that
-- wraps around.
abbrev pub one_less : ℕ → ℕ
one_less n = max n 1 - 1

abbrev pub one_more : ℕ → ℕ
one_more n = (n + 1) % 2 ^ 64

abbrev pub moved_lane : Key → ℕ → ℕ
moved_lane key_left lane = one_less lane
moved_lane key_right lane = one_more lane
moved_lane _ lane = lane

abbrev pub moved_line : Key → ℕ → ℕ
moved_line key_up line = one_less line
moved_line key_down line = one_more line
moved_line _ line = line

-- `update_diagram_location`, for an arrow key: did the position change, and the position.
unfoldable pub update_diagram_location : Picture → Key → ℕ → ℕ → Bool × ℕ × ℕ
update_diagram_location d key lane line =
    let new_lane = min (moved_lane key lane) (minus d.lane_count 1) in
    let new_line = min (moved_line key line) (minus (length d.lines) 1) in
    if not (new_lane == lane) || not (new_line == line)
    then (true, new_lane, new_line)
    else (false, lane, line)

-- What the callback of `view` captures, the view itself, and how often it has beeped.
pub record Scroll : Type 0 where
  pub lane : ℕ
  pub line : ℕ
  pub selection : Selection
  pub window : View
  pub beeps : ℕ

-- What the view's functions give: a value, or the end by a failed assertion of a query or of the
-- view, or by a text that cannot be made, that of the process or of the event of a selection.
pub data Seen {ℓ} (A : Type ℓ) : Type ℓ where
  shown : A → Seen A
  failed : Seen A
  no_process_text no_event_text : Selection → Seen A

infix 1 ◌>>=◌
abbrev pub ◌>>=◌ {ℓ κ} : {A : Type ℓ} {B : Type κ} → Seen A → (A → Seen B) → Seen B
shown a >>= f = f a
failed >>= f = failed
no_process_text s >>= f = no_process_text s
no_event_text s >>= f = no_event_text s

-- A failed assertion.
abbrev pub asserted {ℓ} : {A : Type ℓ} → Option A → Seen A
asserted none = failed
asserted (some a) = shown a

abbrev pub next_index : ℤ → ℤ
next_index (pos n) = pos (suc n)
next_index (negsuc zero) = pos 0
next_index (negsuc (suc n)) = negsuc n

-- `get_process_info`: `command_line` may throw.
unfoldable pub get_process_info : Picture → Selection → Option Str
unfolding command_line show_int
get_process_info d s = elim s.process [
  | none ↦ some []
  | some r ↦ elim (command_line (d.heap r) (next_index s.event_index)) [
    | ok text ↦ some (codes "process " ++ show_int (d.heap r).pid ++ codes " " ++ text)
    | fault f ↦ none
  ]
]

abbrev pub process_line : Picture → Selection → Seen Str
process_line d s = elim (get_process_info d s) [ none ↦ no_process_text s | some text ↦ shown text ]

-- `get_event_info` reads the event's `location` after its `to_string`.
abbrev pub at_location : Str → Option SourceLocation → Str
at_location text none = text
at_location text (some l) = text ++ codes " @ " ++ location_text l

-- The texts of errors are the C library's, and the pid is forktrace's own.
module _ (strerror : ℤ → Str) (own_pid : ℤ) where
  -- `to_string`, for an event of the process `owner`: the text of a reaping asserts that the
  -- child has died.
  unfoldable pub text_of : Heap → Ref → Event → Option Str
  unfolding event_text location_text
  text_of h owner e = elim (event_text strerror own_pid 2 h owner e.kind) [
    | none ↦ none
    | some text ↦ some (at_location text e.location)
  ]

  -- `get_event_info`. An event that `find` gives comes with its process. A death is no reaping, so
  -- that two rounds are enough for the text.
  unfoldable pub get_event_info : Picture → Selection → Option Str
  unfolding text_of
  get_event_info d s = elim s.selected [
    | none ↦ some []
    | some e ↦ elim s.process [ none ↦ none | some r ↦ text_of d.heap r e ]
  ]

  abbrev pub event_line : Picture → Selection → Seen Str
  event_line d s = elim (get_event_info d s) [ none ↦ no_event_text s | some text ↦ shown text ]

  -- The two `set_line` and the `set_cursor`.
  unfoldable pub show_selection : Picture → ℕ → ℕ → Selection → View → Seen View
  unfolding get_process_info get_event_info
  show_selection d lane line s v = process_line d s >>= λ upper.
      asserted (set_line v upper 0) >>= λ v'. event_line d s >>= λ lower.
      asserted (set_line v' lower 1) >>= λ v''.
      asserted
        (set_cursor v'' (get_coords d.lane_width lane line).0 (get_coords d.lane_width lane line).1)

  abbrev pub place_cursor : Picture → ℕ → ℕ → ℕ → Selection → View → Seen Scroll
  place_cursor d lane line beeps s v = show_selection d lane line s v >>= λ v'.
      shown (record { lane = lane; line = line; selection = s; window = v'; beeps = beeps })

  -- The arrow keys: `find` at the new position, and the lines and the cursor.
  unfoldable pub on_arrow : Picture → Key → Scroll → Seen Scroll
  on_arrow d key sc =
      let (changed, lane, line) = update_diagram_location d key sc.lane sc.line in
      asserted (find d.heap d.paths d.lines lane line sc.selection) >>= λ s.
      place_cursor d lane line (if changed then sc.beeps else sc.beeps + 1) s sc.window

  -- `onKeyPress`.
  unfoldable pub on_key_press : Picture → Key → Scroll → Seen Scroll
  on_key_press d key sc =
      if is_arrow key
      then on_arrow d key sc
      else shown (elim key [
        | key_q ↦ record sc { window = quit sc.window }
        | _ ↦ record sc { beeps = sc.beeps + 1 }
      ])

  -- The loop of `ScrollView::run`, on the keys that are pressed; after the end it reads no more.
  unfoldable pub run_view : Picture → List Key → Scroll → Seen Scroll
  run_view d [] sc = shown sc
  run_view d (k ∷ ks) sc =
      let more = on_key_press d k sc >>= run_view d ks in
      if sc.window.is_running then more else shown sc

  -- `view` on a window of the picture's size: the first selection is at the origin, with the leader
  -- as the process and some index.
  unfoldable pub view : Picture → ℤ → View → List Key → Seen Scroll
  view d index v keys =
      asserted (
        find d.heap d.paths d.lines 0 0
          (record { selected = none; process = some d.leader; event_index = index }))
      >>= λ s. place_cursor d 0 0 0 s v >>= run_view d keys
