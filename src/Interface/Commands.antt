-- ===== src/Interface/Commands.antt =====
-- The commands (`do_tree` to `do_next` of src/tracer/forktrace.cpp), as actions on the tracer, the
-- options and the list of trees. What they show is a list of outputs.
use mathlib.Core.List.{reverse}
use forktrace.Prelude.{
  ℕ, zero, suc, ◌+◌, Bool, true, false, not, ◌&&◌, if◌then◌else◌, Option, none, some, List, [], ◌∷◌,
  ◌++◌, length, get_elem?, Str,
}
use forktrace.Event.{Ref}
use forktrace.Tree.{Heap}
use forktrace.Action.{
  runtime_error, assertion, starved, Outcome, done, raised, M, ◌>>=◌, ◌>>◌, give, throw,
}
use forktrace.Kernel.{Kernel}
use forktrace.Parse.{parse_size}
use forktrace.Settings.{Settings, Switches, diagram_flags}
use forktrace.Diagram.Lines.{Line, redraw}
use forktrace.Diagram.Lanes.{Placed, allocate}
use forktrace.Diagram.Draw.{draw_lines}
use forktrace.Canvas.Drawer.{Drawer, new_drawer, start}
use forktrace.Tracer.{World}
use forktrace.Tracer.Loop.{tracees_exist, tracees_alive}
use forktrace.Tracer.Loop as Loop
use forktrace.Interface.Scroll.{Picture}

-- The callbacks of `do_draw`: to the terminal, in the scroll view, or as it fits.
pub data Way : Type 0 where
  draw view draw_or_view : Way

-- What commands show: a remark, the events of a tree, its first line, or its diagram.
pub data Output : Type 0 where
  no_trees no_tracees list_shown : Output
  tree_shown : ℕ → Ref → Output
  tree_listed : ℕ → Ref → Output
  diagram_shown : Way → ℕ → Picture → Drawer → Output

-- `Forktrace`: what the commands refer to.
pub record Forktrace (K : Type 0) : Type 0 where
  pub world : World K
  pub opts : Settings
  pub switches : Switches
  pub trees : List Ref
  pub outputs : List Output

-- The constructor of `Diagram`: the lines, the lanes, and the picture. `bound` is the fuel of its
-- loops; a failed assertion or the end of the fuel comes out as an error.
abbrev pub drawn : Heap → Ref → ℕ → Placed → List Line → Option Drawer → Outcome (Picture × Drawer)
drawn h leader lane_width placed lines none = raised assertion
drawn h leader lane_width placed lines (some d) = done (
  record {
    heap = h;
    leader = leader;
    paths = placed.paths;
    lines = lines;
    lane_count = length placed.lanes;
    lane_width = lane_width;
  },
  d,
)

abbrev pub laid_out : Heap → Ref → ℕ → List Line → Option Placed → Outcome (Picture × Drawer)
laid_out h leader lane_width lines none = raised assertion
laid_out h leader lane_width lines (some placed) = drawn h leader lane_width placed lines (
    draw_lines h placed.paths 0 lines
      (start (new_drawer lane_width) (length placed.lanes) (length lines)))

unfoldable pub new_diagram : ℕ → Heap → Ref → ℕ → ℕ → Outcome (Picture × Drawer)
unfolding redraw allocate draw_lines new_drawer start
new_diagram bound h leader lane_width flags = elim (redraw flags h leader bound) [
  | none ↦ raised assertion
  | some (lines, ps, false) ↦ raised starved
  | some (lines, ps, true) ↦
      laid_out h leader lane_width (reverse lines)
        (allocate bound h (record { lanes = [] ∷ []; paths = ps }) leader)
]

module _ {K : Type 0} where
  -- A call of the tracer.
  abbrev pub on_tracer : {A : Type 0} → M (World K) A → M (Forktrace K) A
  on_tracer m f = (record f { world = (m f.world).0 }, (m f.world).1)

  abbrev pub put_out : Output → M (Forktrace K) (Unit {0})
  put_out o f = (record f { outputs = f.outputs ++ o ∷ [] }, done tt)

  -- Something for each of the trees, from the index `i` on.
  unfoldable pub for_trees :
      (ℕ → Ref → M (Forktrace K) (Unit {0})) → ℕ → List Ref → M (Forktrace K) (Unit {0})
  for_trees act i [] = give tt
  for_trees act i (r ∷ rs) = act i r >> for_trees act (i + 1) rs

  -- What `do_tree` and `do_draw` do with their arguments: all trees, or the one that is named. Too many
  -- arguments, what is no number, and an index that is no tree's throw a `runtime_error` or, for the
  -- number, a `ParseError`, which is caught like one.
  abbrev pub at_tree :
      (ℕ → Ref → M (Forktrace K) (Unit {0})) → ℕ → Option Ref → M (Forktrace K) (Unit {0})
  at_tree act i none = throw runtime_error
  at_tree act i (some r) = act i r

  abbrev pub at_index :
      (ℕ → Ref → M (Forktrace K) (Unit {0})) → Option ℕ → M (Forktrace K) (Unit {0})
  at_index act none f = (f, raised runtime_error)
  at_index act (some i) f = at_tree act i (get_elem? f.trees i) f

  abbrev pub no_trees_yet : M (Forktrace K) (Unit {0})
  no_trees_yet f = elim f.trees [ [] ↦ put_out no_trees f | r ∷ rs ↦ (f, done tt) ]

  unfoldable pub on_trees :
      (ℕ → Ref → M (Forktrace K) (Unit {0})) → List Str → M (Forktrace K) (Unit {0})
  unfolding for_trees
  on_trees act [] f = (no_trees_yet >> for_trees act 0 f.trees) f
  on_trees act (a ∷ []) f = at_index act (parse_size a) f
  on_trees act (a ∷ b ∷ args) f = (f, raised runtime_error)

  unfoldable pub do_tree : List Str → M (Forktrace K) (Unit {0})
  unfolding on_trees
  do_tree args = on_trees (λ i r. put_out (tree_shown i r)) args

  unfoldable pub do_trees : M (Forktrace K) (Unit {0})
  unfolding on_trees
  do_trees = on_trees (λ i r. put_out (tree_listed i r)) []

  abbrev pub show_diagram : Way → ℕ → Outcome (Picture × Drawer) → M (Forktrace K) (Unit {0})
  show_diagram way i (raised e) = throw e
  show_diagram way i (done (p, d)) = put_out (diagram_shown way i p d)

  -- `draw_tree`.
  unfoldable pub draw_tree : ℕ → Way → ℕ → Ref → M (Forktrace K) (Unit {0})
  unfolding new_diagram diagram_flags
  draw_tree bound way i r f =
      show_diagram way i (new_diagram bound f.world.heap r f.opts.lane_width (diagram_flags f.opts))
        f

  unfoldable pub do_draw : ℕ → Way → List Str → M (Forktrace K) (Unit {0})
  unfolding on_trees draw_tree
  do_draw bound way args = on_trees (draw_tree bound way) args

  -- The test by which `do_go` ends with the reaper off.
  abbrev pub is_over : Forktrace K → Bool
  is_over f = not f.opts.reaper && not (tracees_alive f.world)

module _ {K : Type 0} (kernel : Kernel K) (fuel rounds : ℕ) where
  abbrev pub add_tree : Ref → M (Forktrace K) (Unit {0})
  add_tree r f = (record f { trees = f.trees ++ r ∷ [] }, done tt)

  unfoldable pub do_start : List Str → M (Forktrace K) (Unit {0})
  do_start [] = throw runtime_error
  do_start (program ∷ args) =
      on_tracer (Loop.start kernel fuel rounds program (program ∷ args)) >>= add_tree

  abbrev pub step : M (Forktrace K) Bool
  step = on_tracer (Loop.step kernel fuel rounds)

  -- `do_go`, for at most so many calls of `step`.
  unfoldable pub do_go : ℕ → M (Forktrace K) (Unit {0})
  do_go zero = throw starved
  do_go (suc n) = step >>= λ more.
      if not more then give tt else (λ f. if is_over f then (f, done tt) else do_go n f)

  unfoldable pub do_run : ℕ → List Str → M (Forktrace K) (Unit {0})
  do_run n args = do_start args >> do_go n

  -- `do_march` steps also where there are no tracees.
  unfoldable pub do_march : M (Forktrace K) (Unit {0})
  do_march f =
      ((if tracees_exist f.world then give tt else put_out no_tracees) >> (step >> give tt)) f

  unfoldable pub do_next : ℕ → M (Forktrace K) (Unit {0})
  do_next bound f =
      if tracees_exist f.world then (step >> do_draw bound draw []) f else put_out no_tracees f
