-- ===== src/Diagram/Draw.antt =====
-- The picture (`_draw_line` and `_draw` of src/tracer/diagram.cpp). `none` is a failed assertion.
use forktrace.Prelude.{
  ℕ, zero, suc, ◌+◌, ◌-◌, ℤ, pos, negsuc, Bool, false, not, ltb, if◌then◌else◌, Option, none, some,
  List, [], ◌∷◌,
}
use forktrace.Event.{Ref, Kind, kill_event, is_link}
use forktrace.Tree.{Heap}
use forktrace.Diagram.{Node, Paths, is_zombie_node}
use forktrace.Diagram.Lines.{Line, is_ref, ◌>>=◌}
use forktrace.Canvas.Drawer.{
  Drawer, start_lane, start_line, draw_link, draw_continuation, draw_event_char,
}
use forktrace.Diagram.Events.{linked_path, link_char, link_colour, draw_event}

-- Where `_draw_line` is in its line: the link that it is drawing, whether backwards, the last lane.
pub record Pen : Type 0 where
  pub drawer : Drawer
  pub link : Option Kind
  pub is_reversed : Bool
  pub prev_lane : ℕ

module _ (h : Heap) where
  abbrev pub with_link : Option Kind → (Kind → Drawer → Option Drawer) → Drawer → Option Drawer
  with_link none draw d = some d
  with_link (some k) draw d = draw k d

  abbrev pub link_on : Kind → Drawer → Option Drawer
  link_on k d = draw_link d (link_colour h k) (link_char h k)

  -- The lanes that a link passes, `count` of them from `lane` on.
  unfoldable pub draw_skipped : ℕ → ℕ → Kind → Drawer → Option Drawer
  draw_skipped zero lane k d = some d
  draw_skipped (suc count) lane k d =
      link_on k (start_lane d lane) >>= λ d'. draw_skipped count (lane + 1) k d'

  abbrev pub ends_at : Option Kind → Ref → Bool
  ends_at none r = false
  ends_at (some k) r = is_ref (linked_path k) r

  -- A link that begins at a node: a received signal's is drawn backwards.
  abbrev pub goes_back : Kind → Bool → Bool
  goes_back (kill_event i sender) was = not sender
  goes_back _ was = was

  unfoldable pub begin_link : Ref → Kind → Pen → Option Pen
  begin_link r k p = elim p.link [
    | some other ↦ none
    | none ↦
        let back = goes_back k p.is_reversed in
        (if back then draw_event_char p.drawer 0 b'+' 1 else draw_event h r k p.drawer) >>= λ d.
        some (record p { drawer = d; link = some k; is_reversed = back })
  ]

  -- The end of the link at the process `r`.
  unfoldable pub end_link : Ref → Pen → Option Pen
  end_link r p =
      (if p.is_reversed
        then with_link p.link (draw_event h r) p.drawer
        else draw_event_char p.drawer 0 b'+' 1)
      >>= λ d. some (record p { drawer = d; link = none; is_reversed = false })

  abbrev pub path_char : Node → ℕ
  path_char n = if is_zombie_node h n then b'.' else b'|'

  -- What a node shows in its lane.
  unfoldable pub draw_mark : Node → Pen → Option Pen
  unfolding begin_link end_link
  draw_mark n p = if ends_at p.link n.process then end_link n.process p else elim n.event [
    | none ↦ draw_event_char p.drawer 0 (path_char n) 1 >>= λ d. some (record p { drawer = d })
    | some e ↦
        if is_link e.kind
        then begin_link n.process e.kind p
        else (draw_event h n.process e.kind p.drawer >>= λ d. some (record p { drawer = d }))
  ]

  abbrev pub continue_below : ℕ → ℤ → ℕ → ℕ → Drawer → Option Drawer
  continue_below line (negsuc n) lane c d = none
  continue_below line (pos last) lane c d =
      if ltb line last then draw_continuation d lane 0 c else some d

  -- The body of the loop, for a node in the lane `lane`.
  unfoldable pub draw_in_lane : ℕ → ℤ → ℕ → Node → Pen → Option Pen
  unfolding draw_mark draw_skipped
  draw_in_lane line last lane n p =
      if ltb lane p.prev_lane
      then none
      else (with_link p.link (draw_skipped (lane - (p.prev_lane + 1)) (p.prev_lane + 1)) p.drawer
          >>= λ d. draw_mark n (record p { drawer = start_lane d lane; prev_lane = lane }) >>= λ q.
              with_link q.link link_on q.drawer >>= λ d'.
              continue_below line last lane (path_char n) d' >>= λ d''.
              some (record q { drawer = d'' }))

  unfoldable pub draw_node : Paths → ℕ → Node → Pen → Option Pen
  unfolding draw_in_lane
  draw_node ps line n p = elim (ps n.process) [
    | none ↦ none
    | some path ↦ elim path.lane [
      | negsuc m ↦ none
      | pos lane ↦ draw_in_lane line path.end_line lane n p
    ]
  ]

  unfoldable pub draw_nodes : Paths → ℕ → Line → Pen → Option Pen
  draw_nodes ps line [] p = some p
  draw_nodes ps line (n ∷ ns) p = draw_node ps line n p >>= draw_nodes ps line ns

  -- `_draw_line`.
  unfoldable pub draw_line : Paths → ℕ → Line → Drawer → Option Drawer
  unfolding draw_nodes
  draw_line ps line ns d =
      draw_nodes ps line ns
        (record { drawer = start_line d line; link = none; is_reversed = false; prev_lane = 0 })
      >>= λ p. some p.drawer

  -- `_draw`, from the line numbered `line` on.
  unfoldable pub draw_lines : Paths → ℕ → List Line → Drawer → Option Drawer
  draw_lines ps line [] d = some d
  draw_lines ps line (ns ∷ lines) d = draw_line ps line ns d >>= draw_lines ps (line + 1) lines
