-- ===== src/Interface/Drawn.antt =====
-- A diagram that was drawn is one that the scroll view can show.
use mathlib.Core.List.{reverse}
use forktrace.Prelude.{
  ℕ, zero, suc, ◌+◌, ◌^◌, ◌<◌, ◌≡◌, refl, subst, ℤ, pos, negsuc, Bool, true, false, Option, none,
  some, List, [], ◌∷◌, length, get_elem?, Str, arith,
}
use forktrace.Event.{Ref}
use forktrace.Tree.{Heap}
use forktrace.Action.{Outcome, done, raised, assertion, starved}
use forktrace.Diagram.{DiagramPath, Node, Paths}
use forktrace.Diagram.Lines.{Line, ◌>>=◌, redraw}
use forktrace.Diagram.Lanes.{Placed, allocate}
use forktrace.Diagram.Draw.{Pen, draw_in_lane, draw_node, draw_nodes, draw_line, draw_lines}
use forktrace.Diagram.Cursor.{AllPlaced, locate}
use forktrace.Canvas.Drawer.{Drawer, start_line}
use forktrace.ScrollView.{View}
use forktrace.Interface.Scroll.{Picture, Key, view}
use forktrace.Interface.Inside.{IsPicture, IsSized, IsInside, view-IsInside}
use forktrace.Interface.Commands.{drawn, laid_out, new_diagram}
use forktrace.Interface.Sizes.{
  SomeLanes, allocate-SomeLanes, reverse-positive, SomeLines, redraw-SomeLines,
}

bind-some :
    {A B : Type 0} (o : Option A) (f : A → Option B) (b : B)
    → (o >>= f) ≡ some b
    → (a : A) × (o ≡ some a) × (f a ≡ some b)
bind-some none f b e = absurd (ground (arith, e))
bind-some (some a) f b e = (a, refl, e)

of_lane :
    (z : ℤ) (f : ℕ → Option Pen) (q : Pen)
    → elim z as (λ x. Option Pen) [ negsuc m ↦ none | pos lane ↦ f lane ] ≡ some q
    → (lane : ℕ) × (elim z as (λ x. Option ℕ) [ pos l ↦ some l | negsuc m ↦ none ] ≡ some lane)
of_lane (pos lane) f q e = (lane, refl)
of_lane (negsuc m) f q e = absurd (ground (arith, e))

of_path :
    (o : Option DiagramPath) (f : DiagramPath → ℕ → Option Pen) (q : Pen)
    → elim o as (λ x. Option Pen) [
      | none ↦ none
      | some path ↦ elim path.lane as (λ x. Option Pen) [ negsuc m ↦ none | pos lane ↦ f path lane ]
    ]
      ≡ some q
    → (lane : ℕ) × (elim o as (λ x. Option ℕ) [
      | none ↦ none
      | some path ↦ elim path.lane as (λ x. Option ℕ) [ pos l ↦ some l | negsuc m ↦ none ]
    ]
        ≡ some lane)
of_path none f q e = absurd (ground (arith, e))
of_path (some path) f q e = of_lane path.lane (f path) q e

module _ (h : Heap) (ps : Paths) where
  -- A node that was drawn has a lane.
  draw_node-located :
      (line : ℕ) (n : Node) (p q : Pen)
      → draw_node h ps line n p ≡ some q
      → (lane : ℕ) × (locate ps n.process ≡ some lane)
  unfolding draw_node locate
  draw_node-located line n p q e =
      of_path (ps n.process) (λ path lane. draw_in_lane h line path.end_line lane n p) q e

  draw_nodes-AllPlaced :
      (line : ℕ) (ns : Line) (p q : Pen) → draw_nodes h ps line ns p ≡ some q → AllPlaced ps ns
  unfolding draw_nodes
  draw_nodes-AllPlaced line [] p q e = tt
  draw_nodes-AllPlaced line (n ∷ ns) p q e =
      let (r, d, rest) = bind-some (draw_node h ps line n p) (draw_nodes h ps line ns) q e in
      (draw_node-located line n p r d, draw_nodes-AllPlaced line ns r q rest)

  draw_line-AllPlaced :
      (line : ℕ) (ns : Line) (d d' : Drawer) → draw_line h ps line ns d ≡ some d' → AllPlaced ps ns
  unfolding draw_line
  draw_line-AllPlaced line ns d d' e =
      let first : Pen = record {
        drawer = start_line d line;
        link = none;
        is_reversed = false;
        prev_lane = 0;
      } in
      let (q, f, g) = bind-some (draw_nodes h ps line ns first) (λ p. some p.drawer) d' e in
      draw_nodes-AllPlaced line ns first q f

  draw_lines-AllPlaced :
      (from : ℕ) (lines : List Line) (d d' : Drawer)
      → draw_lines h ps from lines d ≡ some d'
      → (line : ℕ) (ns : Line) → get_elem? lines line ≡ some ns
      → AllPlaced ps ns
  unfolding draw_lines
  draw_lines-AllPlaced from [] d d' e line ns g = absurd (ground (arith, g))
  draw_lines-AllPlaced from (l ∷ ls) d d' e zero ns g =
      let (m, f, rest) = bind-some (draw_line h ps from l d) (draw_lines h ps (from + 1) ls) d' e in
      let same : l ≡ ns = ground (arith, g) in
      subst (AllPlaced ps) same (draw_line-AllPlaced from l d m f)
  draw_lines-AllPlaced from (l ∷ ls) d d' e (suc line) ns g =
      let (m, f, rest) = bind-some (draw_line h ps from l d) (draw_lines h ps (from + 1) ls) d' e in
      draw_lines-AllPlaced (from + 1) ls m d' rest line ns g

-- What a diagram that was drawn is: a picture, as far as its sizes are those of a `size_t` and its
-- lanes have columns.
abbrev AnyPicture : ℕ → Outcome (Picture × Drawer) → Type 0
AnyPicture w (raised e) = Unit {0}
AnyPicture w (done (d, dr)) =
    (d.lane_width ≡ w) × (d.lane_count < 2 ^ 64 → length d.lines < 2 ^ 64 → 0 < w → IsPicture d)

drawn-AnyPicture :
    (h : Heap) (leader : Ref) (w : ℕ) (placed : Placed) (lines : List Line) (start' : Drawer)
    → 0 < length placed.lanes
    → 0 < length lines
    → (o : Option Drawer) → draw_lines h placed.paths 0 lines start' ≡ o
    → AnyPicture w (drawn h leader w placed lines o)
drawn-AnyPicture h leader w placed lines start' k l none e = tt
drawn-AnyPicture h leader w placed lines start' k l (some d) e = (
  refl,
  λ a b c. record {
    some_lanes = k;
    lanes_fit = a;
    some_lines = l;
    lines_fit = b;
    columns = c;
    placed = draw_lines-AllPlaced h placed.paths 0 lines start' d e;
  },
)

laid_out-AnyPicture :
    (h : Heap) (leader : Ref) (w : ℕ) (lines : List Line)
    → 0 < length lines
    → (o : Option Placed) → SomeLanes o
    → AnyPicture w (laid_out h leader w lines o)
laid_out-AnyPicture h leader w lines l none k = tt
laid_out-AnyPicture h leader w lines l (some placed) k =
    drawn-AnyPicture h leader w placed lines _ k l _ refl

new_diagram-AnyPicture :
    (bound : ℕ) (h : Heap) (leader : Ref) (w flags : ℕ)
    → AnyPicture w (new_diagram bound h leader w flags)
unfolding new_diagram
new_diagram-AnyPicture bound h leader w flags =
    of_lines (redraw flags h leader bound) (redraw-SomeLines flags h leader bound)
  where
    of_lines :
        (o : Option (List Line × Paths × Bool))
        → SomeLines o
        → AnyPicture w (elim o as (λ x. Outcome (Picture × Drawer)) [
          | none ↦ raised assertion
          | some (lines, ps, false) ↦ raised starved
          | some (lines, ps, true) ↦
              laid_out h leader w
                (reverse lines)
                (allocate bound h (record { lanes = [] ∷ []; paths = ps }) leader)
        ])
    of_lines none k = tt
    of_lines (some (lines, ps, false)) k = tt
    of_lines (some (lines, ps, true)) k =
        laid_out-AnyPicture h leader w (reverse lines) (reverse-positive lines k) _
          (allocate-SomeLanes bound h (record { lanes = [] ∷ []; paths = ps }) leader (omega arith))

-- A diagram that was built and drawn, with lanes of at least one column, on a window of the size that
-- `start` gives it, where the numbers of lanes, lines, columns and rows fit a `size_t`: whatever keys
-- are pressed, no assertion of `find`, `set_line` or `set_cursor` fails. The cursor ends at a position
-- of the picture, unless the view ends at a selection whose process's or event's text cannot be made.
pub new_diagram-view :
    (strerror : ℤ → Str) (own_pid : ℤ) (bound : ℕ) (h : Heap) (leader : Ref) (w flags : ℕ)
    (d : Picture) (dr : Drawer) (index : ℤ) (v : View) (keys : List Key)
    → new_diagram bound h leader w flags ≡ done (d, dr)
    → 0 < w
    → d.lane_count < 2 ^ 64
    → length d.lines < 2 ^ 64
    → IsSized d v
    → IsInside strerror own_pid d (view strerror own_pid d index v keys)
new_diagram-view strerror own_pid bound h leader w flags d dr index v keys e c a b z =
    let (width, is_picture) =
      subst (AnyPicture w) e (new_diagram-AnyPicture bound h leader w flags) in
    view-IsInside strerror own_pid d index v keys (is_picture a b c) z
