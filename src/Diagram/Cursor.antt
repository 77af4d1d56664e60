-- ===== src/Diagram/Cursor.antt =====
-- The queries on a diagram (`find`, `get_coords`, `locate` of src/tracer/diagram.cpp).
use forktrace.Prelude.{
  ℕ, zero, suc, wrap_mul, ◌≡◌, refl, ℤ, pos, negsuc, ◌==ℤ◌, true, false, ◌==◌, Bool-cases, inl, inr,
  if◌then◌else◌, Option, none, some, List, [], ◌∷◌, length, get_elem?,
}
use forktrace.Event.{Ref, Event}
use forktrace.Tree.{Heap}
use forktrace.Diagram.{Node, Paths}
use forktrace.Diagram.Lines.{Line}
use forktrace.Canvas.Drawer.{column_of}

-- What `find` writes: the event that it returns, the process, and `eventIndex`.
pub record Selection : Type 0 where
  pub selected : Option Event
  pub process : Option Ref
  pub event_index : ℤ

abbrev pub pred_ℤ : ℤ → ℤ
pred_ℤ (pos zero) = negsuc 0
pred_ℤ (pos (suc n)) = pos n
pred_ℤ (negsuc n) = negsuc (suc n)

-- `locate`, and the lane that `find` compares; `none` is a failed assertion.
unfoldable pub locate : Paths → Ref → Option ℕ
locate ps r = elim (ps r) [
  | none ↦ none
  | some p ↦ elim p.lane [ pos lane ↦ some lane | negsuc n ↦ none ]
]

abbrev pub last_index : Heap → Node → ℤ
last_index h n =
    if n.next ==ℤ negsuc 0 then pred_ℤ (pos (length (h n.process).history)) else pred_ℤ n.next

abbrev pub select : Heap → Node → Selection
select h n = record { selected = n.event; process = some n.process; event_index = last_index h n }

abbrev pub nothing_there : Selection → Selection
nothing_there s = record s { selected = none; process = none }

-- The loop of `find` over a line.
unfoldable pub find_in_line : Heap → Paths → ℕ → Line → Selection → Option Selection
find_in_line h ps lane [] s = some (nothing_there s)
find_in_line h ps lane (n ∷ ns) s = elim (locate ps n.process) [
  | none ↦ none
  | some l ↦ elim (l == lane) [ true ↦ some (select h n) | false ↦ find_in_line h ps lane ns s ]
]

-- `find` on the lines from the first on; below the last line the process stays what it was.
unfoldable pub find : Heap → Paths → List Line → ℕ → ℕ → Selection → Option Selection
find h ps lines lane line s = elim (get_elem? lines line) [
  | none ↦ some (record s { selected = none })
  | some ns ↦ find_in_line h ps lane ns s
]

-- `get_coords`.
unfoldable pub get_coords : ℕ → ℕ → ℕ → ℕ × ℕ
get_coords lane_width lane line = (column_of lane_width lane, wrap_mul line 2)

-- The nodes of a line that were given a lane.
abbrev pub AllPlaced : Paths → Line → Type 0
AllPlaced ps [] = Unit {0}
AllPlaced ps (n ∷ ns) = ((lane : ℕ) × (locate ps n.process ≡ some lane)) × AllPlaced ps ns

-- The first node of the line that is in this lane.
abbrev pub node_in_lane : Paths → ℕ → Line → Option Node
node_in_lane ps lane [] = none
node_in_lane ps lane (n ∷ ns) = elim (locate ps n.process) [
  | none ↦ node_in_lane ps lane ns
  | some l ↦ elim (l == lane) [ true ↦ some n | false ↦ node_in_lane ps lane ns ]
]

-- What there is to select in a lane.
abbrev pub select_node : Heap → Selection → Option Node → Selection
select_node h s none = nothing_there s
select_node h s (some n) = select h n

-- `find` in a line whose nodes have lanes.
pub find_in_line_lem :
    (h : Heap) (ps : Paths) (lane : ℕ) (ns : Line) (s : Selection)
    → AllPlaced ps ns
    → find_in_line h ps lane ns s ≡ some (select_node h s (node_in_lane ps lane ns))
unfolding find_in_line
find_in_line_lem h ps lane [] s a = refl
find_in_line_lem h ps lane (n ∷ ns) s ((l, e), a) = elim (Bool-cases (l == lane)) [
  | inl here ↦ rw (e, here, find_in_line, node_in_lane) refl
  | inr other ↦ rw (e, other, find_in_line, node_in_lane) (find_in_line_lem h ps lane ns s a)
]
