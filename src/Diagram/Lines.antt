-- ===== src/Diagram/Lines.antt =====
-- The lines of the diagram (`_build_next_line` and its helpers in src/tracer/diagram.cpp). `none` is
-- a failed assertion. The process tree, the options and the leader do not change meanwhile.
pub mod Pending
pub mod Steps
pub mod Order
use forktrace.Prelude.{
  ℕ, zero, suc, ◌+◌, ◌-◌, ℤ, pos, negsuc, leb_ℤ, ◌==ℤ◌, Bool, true, false, ◌&&◌, ◌||◌, ◌==◌,
  if◌then◌else◌, Option, none, some, List, [], ◌∷◌, ◌++◌, get_elem?, length,
}
use forktrace.Event.{
  Ref, KillInfo, Kind, fork_event, reap_event, kill_event, Event, is_link, kill_partner,
}
use forktrace.Tree.{Heap}
use forktrace.Diagram.{
  DiagramPath, new_path, Node, Paths, put_path, events, get_next_event, next_event, end_of_path,
}

abbrev pub Line : Type 0
Line = List Node

-- What a step over one node has made of the line and the paths: the nodes to append, the process
-- that a linking line ends on, and the paths.
pub record Drawn : Type 0 where
  pub nodes : List Node
  pub link_end : Option Ref
  pub paths : Paths

infixl 5 ◌>>=◌
abbrev pub ◌>>=◌ {ℓ κ} : {A : Type ℓ} {B : Type κ} → Option A → (A → Option B) → Option B
none >>= f = none
some a >>= f = f a

abbrev max_ℤ : ℤ → ℤ → ℤ
max_ℤ a b = if leb_ℤ a b then b else a

abbrev is_none {ℓ} : {A : Type ℓ} → Option A → Bool
is_none none = true
is_none (some a) = false

abbrev pub is_ref : Option Ref → Ref → Bool
is_ref none r = false
is_ref (some q) r = q == r

-- `_path_ready_to_end`.
unfoldable pub path_ready_to_end : Heap → Line → Ref → Bool
path_ready_to_end h [] r = false
path_ready_to_end h (n ∷ ns) r =
    if n.process == r then is_none (next_event h n) else path_ready_to_end h ns r

-- `_continue_path`.
abbrev pub continue_path : Node → Node
continue_path n = record n { event = none }

module _ (opts : ℕ) (h : Heap) where
  -- The body of `_get_successor`, for a node of `r` whose next event has the given index.
  unfoldable pub successor_at : Paths → Ref → ℤ → Option (Node × Paths)
  successor_at ps r (negsuc m) = some (record { process = r; event = none; next = negsuc 0 }, ps)
  successor_at ps r (pos i) = do
    e ← get_elem? (events (h r)) i
    (next, ps') ← get_next_event opts h ps r (i + 1)
    some (record { process = r; event = some e; next = next }, ps')

  -- `_get_successor`.
  unfoldable pub get_successor : Paths → Node → Option (Node × Paths)
  get_successor ps n = successor_at ps n.process n.next

  -- `_start_path`.
  unfoldable pub start_path : Paths → Ref → Option (Node × Paths)
  start_path ps r = do
    (next, ps') ← get_next_event opts h ps r 0
    some (record { process = r; event = none; next = next }, ps')

  -- The node that consumes the next event of the path.
  unfoldable pub advance : Paths → Node → Option Ref → Option Drawn
  advance ps n end' = do
    (n', ps') ← get_successor ps n
    some (record { nodes = n' ∷ []; link_end = end'; paths = ps' })

  abbrev pub hold : Paths → Node → Option Drawn
  hold ps n = some (record { nodes = continue_path n ∷ []; link_end = none; paths = ps })

  -- The fork case of `_do_link_event`: a new path begins.
  unfoldable pub do_fork : Paths → ℕ → Node → Ref → Option Drawn
  do_fork ps line n child = elim (ps child) [
    | some p ↦ none
    | none ↦ do
      (n', ps₁) ← get_successor (put_path ps child (new_path line)) n
      (c, ps₂) ← start_path ps₁ child
      some (record { nodes = n' ∷ c ∷ []; link_end = none; paths = ps₂ })
  ]

  -- The reap case: the child's path ends here, if it has come to its end.
  unfoldable pub do_reap : Paths → Line → ℕ → Node → Ref → Option Drawn
  do_reap ps prev line n child = elim (ps child) [
    | none ↦ none
    | some p ↦
        if path_ready_to_end h prev child
        then advance (put_path ps child (record p { end_line = pos line })) n (some child)
        else hold ps n
  ]

  -- The kill case: both paths link on the line where both have come to the event. `path` is the
  -- node's own path.
  unfoldable pub do_kill : Paths → DiagramPath → Node → Ref → Option Drawn
  do_kill ps path n other = elim (ps other) [
    | none ↦ hold ps n
    | some partner ↦ elim path.partner [
      | none ↦ if is_none partner.partner then advance ps n none else none
      | some awaited ↦
          if is_ref partner.partner n.process
          then advance
              (put_path (put_path ps n.process (record path { partner = none })) other
                (record partner { partner = none }))
              n (some other)
          else hold ps n
    ]
  ]

  -- `_do_link_event`.
  unfoldable pub do_link_event : Paths → Line → ℕ → DiagramPath → Node → Kind → Option Drawn
  do_link_event ps prev line path n (fork_event child) = do_fork ps line n child
  do_link_event ps prev line path n (reap_event child w) = do_reap ps prev line n child
  do_link_event ps prev line path n (kill_event i sender) =
      do_kill ps path n (kill_partner i sender)
  do_link_event ps prev line path n _ = none

  module _ (leader : Ref) where
    -- Does the path end now? It has no reaper to wait for, and nothing left to do.
    abbrev pub ends_now : Node → DiagramPath → Bool
    ends_now n p =
        ((n.process == leader && is_none (next_event h n)) || end_of_path h n)
        && p.end_line ==ℤ negsuc 0

    abbrev pub end_path : ℕ → Node → DiagramPath → DiagramPath
    end_path line n p =
        if ends_now n p then record p { end_line = max_ℤ (pos (line - 1)) p.start_line } else p

    -- The body of the loop of `_build_next_line`, from the test for the event on.
    unfoldable pub step_node :
        Paths → Line → ℕ → DiagramPath → Option Ref → Node → Option Event → Option Drawn
    step_node ps prev line path end' n none =
        if path.end_line ==ℤ negsuc 0 || leb_ℤ (pos line) path.end_line
        then some (record { nodes = continue_path n ∷ []; link_end = end'; paths = ps })
        else some (record { nodes = []; link_end = end'; paths = ps })
    step_node ps prev line path end' n (some e) =
        if is_link e.kind
        then elim end' [
          | some r ↦ some (record { nodes = continue_path n ∷ []; link_end = some r; paths = ps })
          | none ↦ do_link_event ps prev line path n e.kind
        ]
        else advance ps n end'

    -- The whole body: the path may end, and a linking line may have reached its end.
    unfoldable pub visit_node : Paths → Line → ℕ → Option Ref → Node → Option Drawn
    visit_node ps prev line end' n = elim (ps n.process) [
      | none ↦ none
      | some p ↦
          let path = end_path line n p in
          step_node (put_path ps n.process path) prev line path
            (if is_ref end' n.process then none else end') n (next_event h n)
    ]

    -- The loop over the previous line.
    unfoldable pub visit_nodes : Paths → Line → ℕ → Option Ref → List Node → Option (Line × Paths)
    visit_nodes ps prev line end' [] = some ([], ps)
    visit_nodes ps prev line end' (n ∷ ns) = do
      d ← visit_node ps prev line end' n
      (rest, ps') ← visit_nodes d.paths prev line d.link_end ns
      some (d.nodes ++ rest, ps')

    -- `_build_next_line` on the lines so far, the last one first: the next line and the paths. The
    -- source stops where the line is empty.
    unfoldable pub build_next_line : Paths → List Line → Option (Line × Paths)
    build_next_line ps [] = none
    build_next_line ps (prev ∷ lines) = visit_nodes ps prev (length (prev ∷ lines)) none prev

    -- The loop of `redraw`, for a number of rounds: the lines and whether they are complete.
    unfoldable pub build_lines : ℕ → Paths → List Line → Option (List Line × Paths × Bool)
    build_lines zero ps lines = some (lines, ps, false)
    build_lines (suc rounds) ps lines = elim (build_next_line ps lines) [
      | none ↦ none
      | some ([], ps') ↦ some (lines, ps', true)
      | some (n ∷ ns, ps') ↦ build_lines rounds ps' ((n ∷ ns) ∷ lines)
    ]

    -- `redraw`, up to the allocation of the lanes.
    unfoldable pub redraw : ℕ → Option (List Line × Paths × Bool)
    redraw rounds = do
      (n, ps) ← start_path (put_path (λ r. none) leader (new_path 0)) leader
      build_lines rounds ps ((n ∷ []) ∷ [])
