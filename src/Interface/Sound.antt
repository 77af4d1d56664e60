-- ===== src/Interface/Sound.antt =====
-- The commands keep the tracees and the process tree in line.
use forktrace.Prelude.{
  ℕ, zero, suc, ◌+◌, Bool, true, false, not, if◌then◌else◌, Option, none, some, List, [], ◌∷◌, Str,
  get_elem?,
}
use forktrace.Event.{Ref}
use forktrace.Tree.{Heap}
use forktrace.Action.{
  Error, runtime_error, assertion, starved, Outcome, done, raised, M, ◌>>=◌, ◌>>◌, after, give,
  throw,
}
use forktrace.Kernel.{Kernel}
use forktrace.Parse.{parse_size}
use forktrace.Diagram.{Paths}
use forktrace.Diagram.Lines.{Line, redraw}
use mathlib.Core.List.{reverse}
use forktrace.Settings.{diagram_flags}
use forktrace.Diagram.Lanes.{Placed, allocate}
use forktrace.Canvas.Drawer.{Drawer}
use forktrace.Tracer.{World}
use forktrace.Tracer.Loop.{tracees_exist}
use forktrace.Tracer.Sound.{IsInTurn, IsSound, IsPlain, Post, Triple}
use forktrace.Tracer.Sound.Loop.{step-Safe, start-Safe}
use forktrace.Interface.Scroll.{Picture}
use forktrace.Interface.Commands.{
  Forktrace, Output, no_trees, no_tracees, tree_shown, tree_listed, diagram_shown, Way, draw, drawn,
  laid_out, new_diagram, on_tracer, put_out, for_trees, at_tree, at_index, no_trees_yet, on_trees,
  do_tree, do_trees, show_diagram, draw_tree, do_draw, do_start, step, is_over, do_go, do_run,
  do_march, do_next,
}

module _ {K : Type 0} where
  -- What an action leaves: a sound world; where it throws, an error in turn, and a sound world unless
  -- the process tree is what threw it.
  abbrev pub Left : {A : Type 0} → Forktrace K × Outcome A → Type 0
  Left (f, o) = Post (λ a. IsSound) (f.world, o)

  pub record Holds {A : Type 0} (m : M (Forktrace K) A) : Type 0 where
    pub from : (f : Forktrace K) → IsSound f.world → Left (m f)

  Left-after :
      {A B : Type 0} (x : Forktrace K × Outcome A) (k : A → M (Forktrace K) B)
      → Left x
      → ((a : A) → Holds (k a))
      → Left (after x k)
  Left-after (f, done a) k l h = (h a).from f l
  Left-after (f, raised e) k l h = l

  pub Holds-then :
      {A B : Type 0} {m : M (Forktrace K) A} {k : A → M (Forktrace K) B}
      → Holds m
      → ((a : A) → Holds (k a))
      → Holds (m >>= k)
  Holds-then {m = m} {k = k} h g = record { from = λ f s. Left-after (m f) k (h.from f s) g }

  pub on_tracer-Holds :
      {A : Type 0} {m : M (World K) A} → Triple IsSound m (λ a. IsSound) → Holds (on_tracer m)
  on_tracer-Holds t = record { from = λ f s. t.from f.world s }

  pub Holds-give : {A : Type 0} (a : A) → Holds (give a)
  Holds-give a = record { from = λ f s. s }

  pub Holds-throw : {A : Type 0} (e : Error) → IsInTurn e → Holds {A = A} (throw e)
  Holds-throw e plain = record { from = λ f s. (plain, λ other. s) }

  pub put_out-Holds : (o : Output) → Holds (put_out o)
  put_out-Holds o = record { from = λ f s. s }

  pub Holds-if :
      {A : Type 0} (b : Bool) {m k : M (Forktrace K) A}
      → Holds m
      → Holds k
      → Holds (if b then m else k)
  Holds-if true h g = h
  Holds-if false h g = g

  for_trees-Holds :
      (act : ℕ → Ref → M (Forktrace K) (Unit {0}))
      → ((i : ℕ) (r : Ref) → Holds (act i r))
      → (i : ℕ) (rs : List Ref) → Holds (for_trees act i rs)
  unfolding for_trees
  for_trees-Holds act h i [] = Holds-give tt
  for_trees-Holds act h i (r ∷ rs) = Holds-then (h i r) (λ u. for_trees-Holds act h (i + 1) rs)

  at_tree-Holds :
      (act : ℕ → Ref → M (Forktrace K) (Unit {0}))
      → ((i : ℕ) (r : Ref) → Holds (act i r))
      → (i : ℕ) (r : Option Ref) → Holds (at_tree act i r)
  at_tree-Holds act h i none = Holds-throw runtime_error tt
  at_tree-Holds act h i (some r) = h i r

  at_index-Holds :
      (act : ℕ → Ref → M (Forktrace K) (Unit {0}))
      → ((i : ℕ) (r : Ref) → Holds (act i r))
      → (o : Option ℕ) → Holds (at_index act o)
  at_index-Holds act h none = Holds-throw runtime_error tt
  at_index-Holds act h (some i) = record {
    from = λ f s. (at_tree-Holds act h i (get_elem? f.trees i)).from f s;
  }

  no_trees_yet-Holds : Holds no_trees_yet
  no_trees_yet-Holds = record { from = λ f s. some_left f.trees f s }
    where
      some_left :
          (rs : List Ref) (f : Forktrace K)
          → IsSound f.world
          → Left (elim rs as (λ l. Forktrace K × Outcome (Unit {0})) [
            | [] ↦ put_out no_trees f
            | x ∷ xs ↦ (f, done tt)
          ])
      some_left [] f s = s
      some_left (x ∷ xs) f s = s

  on_trees-Holds :
      (act : ℕ → Ref → M (Forktrace K) (Unit {0}))
      → ((i : ℕ) (r : Ref) → Holds (act i r))
      → (args : List Str) → Holds (on_trees act args)
  unfolding on_trees
  on_trees-Holds act h [] = record {
    from = λ f s. (Holds-then no_trees_yet-Holds (λ u. for_trees-Holds act h 0 f.trees)).from f s;
  }
  on_trees-Holds act h (a ∷ []) = at_index-Holds act h (parse_size a)
  on_trees-Holds act h (a ∷ b ∷ args) = Holds-throw runtime_error tt

  pub do_tree-Holds : (args : List Str) → Holds (do_tree args)
  unfolding do_tree
  do_tree-Holds args = on_trees-Holds _ (λ i r. put_out-Holds (tree_shown i r)) args

  pub do_trees-Holds : Holds do_trees
  unfolding do_trees
  do_trees-Holds = on_trees-Holds _ (λ i r. put_out-Holds (tree_listed i r)) []

  show_diagram-Holds :
      (way : Way) (i : ℕ) (o : Outcome (Picture × Drawer))
      → IsPlain o
      → Holds (show_diagram way i o)
  show_diagram-Holds way i (done (p, d)) plain = put_out-Holds (diagram_shown way i p d)
  show_diagram-Holds way i (raised e) plain = Holds-throw e plain

drawn-IsPlain :
    (h : Heap) (leader : Ref) (w : ℕ) (p : Placed) (lines : List Line) (o : Option Drawer)
    → IsPlain (drawn h leader w p lines o)
drawn-IsPlain h leader w p lines none = tt
drawn-IsPlain h leader w p lines (some d) = tt

laid_out-IsPlain :
    (h : Heap) (leader : Ref) (w : ℕ) (lines : List Line) (o : Option Placed)
    → IsPlain (laid_out h leader w lines o)
laid_out-IsPlain h leader w lines none = tt
laid_out-IsPlain h leader w lines (some p) = drawn-IsPlain h leader w p lines _

-- A diagram fails an assertion or ends its fuel, if it fails.
new_diagram-IsPlain :
    (bound : ℕ) (h : Heap) (leader : Ref) (w flags : ℕ)
    → IsPlain (new_diagram bound h leader w flags)
unfolding new_diagram
new_diagram-IsPlain bound h leader w flags = of_lines (redraw flags h leader bound)
  where
    of_lines :
        (o : Option (List Line × Paths × Bool))
        → IsPlain (elim o as (λ x. Outcome (Picture × Drawer)) [
          | none ↦ raised assertion
          | some (lines, ps, false) ↦ raised starved
          | some (lines, ps, true) ↦
              laid_out h leader w
                (reverse lines)
                (allocate bound h (record { lanes = [] ∷ []; paths = ps }) leader)
        ])
    of_lines none = tt
    of_lines (some (lines, ps, false)) = tt
    of_lines (some (lines, ps, true)) = laid_out-IsPlain h leader w (reverse lines) _

module _ {K : Type 0} where
  draw_tree-Holds :
      (bound : ℕ) (way : Way) (i : ℕ) (r : Ref) → Holds {K = K} (draw_tree bound way i r)
  unfolding draw_tree
  draw_tree-Holds bound way i r = record {
    from = λ f s.
        (show_diagram-Holds way i _ (
            new_diagram-IsPlain bound f.world.heap r f.opts.lane_width (diagram_flags f.opts))).from
          f s;
  }

  pub do_draw-Holds :
      (bound : ℕ) (way : Way) (args : List Str) → Holds {K = K} (do_draw bound way args)
  unfolding do_draw
  do_draw-Holds bound way args = on_trees-Holds _ (λ i r. draw_tree-Holds bound way i r) args

module _ {K : Type 0} (kernel : Kernel K) (fuel rounds : ℕ) where
  pub do_start-Holds : (args : List Str) → Holds (do_start kernel fuel rounds args)
  unfolding do_start
  do_start-Holds [] = Holds-throw runtime_error tt
  do_start-Holds (program ∷ args) =
      Holds-then (on_tracer-Holds (start-Safe kernel fuel rounds program (program ∷ args)))
        (λ r. record { from = λ f s. s })

  step-Holds : Holds (step kernel fuel rounds)
  step-Holds = on_tracer-Holds (step-Safe kernel fuel rounds)

  pub do_go-Holds : (n : ℕ) → Holds (do_go kernel fuel rounds n)
  unfolding do_go
  do_go-Holds zero = Holds-throw starved tt
  do_go-Holds (suc n) = Holds-then step-Holds (λ more.
      Holds-if (not more) (Holds-give tt)
        (record { from = λ f s. go_on (do_go-Holds n) (is_over f) f s }))
    where
      go_on :
          Holds (do_go kernel fuel rounds n)
          → (b : Bool) (f : Forktrace K) → IsSound f.world
          → Left (if b then (f, done tt) else do_go kernel fuel rounds n f)
      go_on rest true f s = s
      go_on rest false f s = rest.from f s

  pub do_run-Holds : (n : ℕ) (args : List Str) → Holds (do_run kernel fuel rounds n args)
  unfolding do_run
  do_run-Holds n args = Holds-then (do_start-Holds args) (λ u. do_go-Holds n)

  pub do_march-Holds : Holds (do_march kernel fuel rounds)
  unfolding do_march
  do_march-Holds = record {
    from = λ f s.
        (Holds-then (Holds-if (tracees_exist f.world) (Holds-give tt) (put_out-Holds no_tracees))
            (λ u. Holds-then step-Holds (λ b. Holds-give tt))).from
          f s;
  }

  pub do_next-Holds : (bound : ℕ) → Holds (do_next kernel fuel rounds bound)
  unfolding do_next
  do_next-Holds bound = record { from = λ f s. either (tracees_exist f.world) f s }
    where
      either :
          (b : Bool) (f : Forktrace K)
          → IsSound f.world
          → Left (
              if b
              then (step kernel fuel rounds >> do_draw bound draw []) f
              else put_out no_tracees f)
      either true f s = (Holds-then step-Holds (λ b. do_draw-Holds bound draw [])).from f s
      either false f s = s
