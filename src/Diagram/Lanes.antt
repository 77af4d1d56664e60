-- ===== src/Diagram/Lanes.antt =====
-- The allocation of paths to lanes (`_allocate_process_to_lane` of src/tracer/diagram.cpp). A lane
-- holds pointers to paths; here it holds the paths, whose lines the allocation does not change.
pub mod Disjoint
pub mod Children
use forktrace.Prelude.{
  ℕ, zero, suc, ◌+◌, ◌-◌, ℤ, pos, leb_ℤ, Bool, true, false, ◌&&◌, ltb, if◌then◌else◌, Option, none,
  some, List, [], ◌∷◌, ◌++◌, get_or, set, length,
}
use forktrace.Event.{Ref, Kind, fork_event, Event}
use forktrace.Tree.{Heap}
use forktrace.Diagram.{DiagramPath, Paths, put_path}

abbrev pub Lane : Type 0
Lane = List DiagramPath

-- Two paths share a line.
abbrev pub overlaps : DiagramPath → DiagramPath → Bool
overlaps p q = leb_ℤ q.start_line p.end_line && leb_ℤ p.start_line q.end_line

-- The inner loop: does the path overlap with anything in this lane?
unfoldable pub collides : DiagramPath → Lane → Bool
collides p [] = false
collides p (q ∷ qs) = if overlaps p q then true else collides p qs

-- The outer loop, which falls from the topmost lane: the lane that the path lands on, if any.
-- `i` lanes are left below.
unfoldable pub fall : DiagramPath → List Lane → ℕ → Option ℕ
unfolding collides
fall p lanes zero = none
fall p lanes (suc i) =
    let below = fall p lanes i in if collides p (get_or lanes i []) then some i else below

-- `p.lane = i; lanes.at(i).push_back(&p)`.
abbrev pub push : List Lane → ℕ → DiagramPath → List Lane
push lanes i p = set lanes i (get_or lanes i [] ++ record p { lane = pos i } ∷ [])

-- The lane for a path, and the lanes with the path in it: it rests on what it landed on, in a new
-- lane if there is none above, or lies on the bottom.
unfoldable pub place : List Lane → DiagramPath → ℕ × List Lane
unfolding fall
place lanes p = elim (fall p lanes (length lanes)) [
  | none ↦ (0, push lanes 0 p)
  | some i ↦
      if ltb (i + 1) (length lanes)
      then (i + 1, push lanes (i + 1) p)
      else (length lanes, push (lanes ++ [] ∷ []) (length lanes) p)
]

abbrev cons_fork : Kind → List Ref → List Ref
cons_fork (fork_event child) rs = child ∷ rs
cons_fork _ rs = rs

-- The processes that a history forks, the latest first: the order of the loop over the children.
unfoldable pub forks : List Event → List Ref
forks [] = []
forks (e ∷ es) = cons_fork e.kind (forks es)

-- What the allocation has built: the lanes, and the paths with their lanes filled in.
pub record Placed : Type 0 where
  pub lanes : List Lane
  pub paths : Paths

unfoldable pub allocate_each : (Placed → Ref → Option Placed) → Placed → List Ref → Option Placed
allocate_each f d [] = some d
allocate_each f d (r ∷ rs) = elim (f d r) [ none ↦ none | some d' ↦ allocate_each f d' rs ]

-- Places the path `p` of `r`.
abbrev pub settle : Placed → Ref → DiagramPath → Placed
settle d r p = record {
  lanes = (place d.lanes p).1;
  paths = put_path d.paths r (record p { lane = pos (place d.lanes p).0 });
}

-- `_allocate_process_to_lane`: places the process, then its children. `none` is the failed
-- assertion that the process has a path, or the end of the fuel, a bound on the depth of the tree.
unfoldable pub allocate : ℕ → Heap → Placed → Ref → Option Placed
unfolding place forks allocate_each
allocate zero h d r = none
allocate (suc fuel) h d r = elim (d.paths r) [
  | none ↦ none
  | some p ↦ allocate_each (allocate fuel h) (settle d r p) (forks (h r).history)
]
