-- ===== src/Interface/Sizes.antt =====
-- A diagram has at least one lane and one line.
use mathlib.Core.List.{reverse, reverse_aux}
use forktrace.Prelude.{
  ℕ, zero, suc, ◌+◌, ◌<◌, ◌≡◌, pos, Bool, true, false, ltb, if◌then◌else◌, Option, none, some, List,
  [], ◌∷◌, ◌++◌, length, length-append, length-set, get_or, arith,
}
use forktrace.Event.{Ref}
use forktrace.Tree.{Heap}
use forktrace.Diagram.{DiagramPath, Node, Paths}
use forktrace.Diagram.Lines.{Line, ◌>>=◌, redraw, build_lines, build_next_line, start_path}
use forktrace.Diagram.{new_path, put_path}
use forktrace.Diagram.Lanes.{
  Lane, Placed, push, place, fall, allocate, allocate_each, settle, forks,
}

length-push : (lanes : List Lane) (i : ℕ) (p : DiagramPath) → length (push lanes i p) ≡ length lanes
length-push lanes i p = length-set lanes i (get_or lanes i [] ++ record p { lane = pos i } ∷ [])

place-positive :
    (lanes : List Lane) (p : DiagramPath) → 0 < length lanes → 0 < length (place lanes p).1
unfolding place
place-positive lanes p h = landed (fall p lanes (length lanes))
  where
    above :
        (i : ℕ) (b : Bool)
        → 0
          < length
              (if◌then◌else◌ {A = ℕ × List Lane} b
                (i + 1, push lanes (i + 1) p)
                (length lanes, push (lanes ++ [] ∷ []) (length lanes) p)).1
    above i true = omega (arith, length-push lanes (i + 1) p)
    above i false =
        omega
          (arith, length-push (lanes ++ [] ∷ []) (length lanes) p, length-append lanes ([] ∷ []))

    landed :
        (o : Option ℕ)
        → 0
          < length
              (elim o as (λ x. ℕ × List Lane) [
                | none ↦ (0, push lanes 0 p)
                | some i ↦
                    if ltb (i + 1) (length lanes)
                    then (i + 1, push lanes (i + 1) p)
                    else (length lanes, push (lanes ++ [] ∷ []) (length lanes) p)
              ]).1
    landed none = omega (arith, length-push lanes 0 p)
    landed (some i) = above i (ltb (i + 1) (length lanes))

abbrev pub SomeLanes : Option Placed → Type 0
SomeLanes none = Unit {0}
SomeLanes (some d) = 0 < length d.lanes

allocate_each-SomeLanes :
    (f : Placed → Ref → Option Placed)
    → ((d : Placed) (r : Ref) → 0 < length d.lanes → SomeLanes (f d r))
    → (d : Placed) (rs : List Ref) → 0 < length d.lanes
    → SomeLanes (allocate_each f d rs)
unfolding allocate_each
allocate_each-SomeLanes f h d [] k = k
allocate_each-SomeLanes f h d (r ∷ rs) k =
    behind (λ d' k'. allocate_each-SomeLanes f h d' rs k') (f d r) (h d r k)
  where
    behind :
        ((d' : Placed) → 0 < length d'.lanes → SomeLanes (allocate_each f d' rs))
        → (o : Option Placed) → SomeLanes o
        → SomeLanes
            (elim o as (λ x. Option Placed) [ none ↦ none | some d' ↦ allocate_each f d' rs ])
    behind ih none x = tt
    behind ih (some d') x = ih d' x

pub allocate-SomeLanes :
    (fuel : ℕ) (h : Heap) (d : Placed) (r : Ref)
    → 0 < length d.lanes
    → SomeLanes (allocate fuel h d r)
unfolding allocate
allocate-SomeLanes zero h d r k = tt
allocate-SomeLanes (suc fuel) h d r k =
    of_path' (λ d' r' k'. allocate-SomeLanes fuel h d' r' k') (d.paths r)
  where
    of_path' :
        ((d' : Placed) (r' : Ref) → 0 < length d'.lanes → SomeLanes (allocate fuel h d' r'))
        → (o : Option DiagramPath)
        → SomeLanes (elim o as (λ x. Option Placed) [
          | none ↦ none
          | some p ↦ allocate_each (allocate fuel h) (settle d r p) (forks (h r).history)
        ])
    of_path' ih none = tt
    of_path' ih (some p) =
        allocate_each-SomeLanes (allocate fuel h) ih (settle d r p) (forks (h r).history)
          (place-positive d.lanes p k)

reverse_aux-positive : (xs ys : List Line) → 0 < length ys → 0 < length (reverse_aux xs ys)
reverse_aux-positive [] ys h = h
reverse_aux-positive (x ∷ xs) ys h = reverse_aux-positive xs (x ∷ ys) (omega arith)

pub reverse-positive : (xs : List Line) → 0 < length xs → 0 < length (reverse xs)
reverse-positive [] h = h
reverse-positive (x ∷ xs) h = reverse_aux-positive xs (x ∷ []) (omega arith)

abbrev pub SomeLines : Option (List Line × Paths × Bool) → Type 0
SomeLines none = Unit {0}
SomeLines (some (lines, ps, b)) = 0 < length lines

build_lines-SomeLines :
    (opts : ℕ) (h : Heap) (leader : Ref) (rounds : ℕ) (ps : Paths) (lines : List Line)
    → 0 < length lines
    → SomeLines (build_lines opts h leader rounds ps lines)
unfolding build_lines
build_lines-SomeLines opts h leader zero ps lines k = k
build_lines-SomeLines opts h leader (suc rounds) ps lines k =
    next (λ ps' ls k'. build_lines-SomeLines opts h leader rounds ps' ls k')
      (build_next_line opts h leader ps lines)
  where
    next :
        ((ps' : Paths) (ls : List Line)
          → 0 < length ls
          → SomeLines (build_lines opts h leader rounds ps' ls))
        → (o : Option (Line × Paths))
        → SomeLines (elim o as (λ x. Option (List Line × Paths × Bool)) [
          | none ↦ none
          | some ([], ps') ↦ some (lines, ps', true)
          | some (n ∷ ns, ps') ↦ build_lines opts h leader rounds ps' ((n ∷ ns) ∷ lines)
        ])
    next ih none = tt
    next ih (some ([], ps')) = k
    next ih (some (n ∷ ns, ps')) = ih ps' ((n ∷ ns) ∷ lines) (omega arith)

pub redraw-SomeLines :
    (opts : ℕ) (h : Heap) (leader : Ref) (rounds : ℕ) → SomeLines (redraw opts h leader rounds)
unfolding redraw
redraw-SomeLines opts h leader rounds =
    first (start_path opts h (put_path (λ r. none) leader (new_path 0)) leader)
  where
    first :
        (o : Option (Node × Paths))
        → SomeLines (o >>= λ x. build_lines opts h leader rounds x.1 ((x.0 ∷ []) ∷ []))
    first none = tt
    first (some (n, ps)) =
        build_lines-SomeLines opts h leader rounds ps ((n ∷ []) ∷ []) (omega arith)
