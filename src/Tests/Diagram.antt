-- ===== src/Tests/Diagram.antt =====
-- Runs of the diagram (src/tracer/diagram.cpp).
use forktrace.Prelude.{
  ℕ, ◌≡◌, refl, pos, negsuc, Bool, true, false, Option, none, some, List, [], ◌∷◌, arith, length,
  ◌<◌, ◌⊎◌, max, ◌+◌, ◌-◌, get_or, ◌≤◌, ◌==◌, if◌then◌else◌, Bool-cases, inl, inr,
}
use forktrace.Event.{Ref, fork_event}
use forktrace.Process.{
  new_process, new_child, notify_waiting, notify_forked, notify_ended, resolve_wait,
}
use forktrace.Tree.{
  Heap, Notice, started, born, waiting, reaped_child, forked, ended, sent_signal, notify_all,
  notify_reaped, notify_sent_signal, receive_kill, link_kill,
}
use forktrace.Diagram.{
  DiagramPath, new_path, Paths, default_opts, get_next_event, next_event, end_of_path,
}
use forktrace.Diagram.Lines.{
  Line, redraw, build_lines, build_next_line, visit_nodes, visit_node, step_node, do_link_event,
  do_fork, do_reap, do_kill, advance, get_successor, successor_at, start_path, path_ready_to_end,
}
use forktrace.Diagram.Lanes.{Lane, collides, fall, place, forks, Placed, allocate}
use forktrace.Diagram.Lanes.Disjoint.{place_rests}
use forktrace.Diagram.Lanes.Children.{IsForest, IsLaid, allocate_succeeds}
use forktrace.Diagram.Lines.Order.{IsDiagram, redraw-IsDiagram}

after : List (Ref × Notice) → Heap
unfolding notify_all notify_reaped notify_sent_signal receive_kill link_kill notify_ended
    notify_waiting notify_forked resolve_wait new_process new_child
after = notify_all (λ r. new_process (pos 0) [] [])

-- The lines, the paths and whether the lines are complete, after at most 20 rounds.
drawn : Heap → Option (List Line × Paths × Bool)
unfolding redraw build_lines build_next_line visit_nodes visit_node step_node do_link_event do_fork
    do_reap do_kill advance get_successor successor_at start_path path_ready_to_end new_path
    get_next_event next_event end_of_path
drawn h = redraw default_opts h 0 20

abbrev line_count : Option (List Line × Paths × Bool) → ℕ
line_count none = 0
line_count (some (lines, ps, done)) = length lines

abbrev family : List (Ref × Notice)
family =
    (0, started (pos 10) [] [])
    ∷ (1, born (pos 11) 0)
    ∷ (0, forked 1)
    ∷ (0, waiting (pos 11) false)
    ∷ (1, ended 256)
    ∷ (0, reaped_child 1)
    ∷ (0, ended 0)
    ∷ []

family_lines : line_count (drawn (after family)) ≡ 5
unfolding after drawn
family_lines = refl

-- A process that sends two signals in a row to its child.
abbrev twice : List (Ref × Notice)
twice =
    (0, started (pos 10) [] [])
    ∷ (1, born (pos 11) 0)
    ∷ (0, forked 1)
    ∷ (0, sent_signal (pos 11) (some 1) (pos 10) false)
    ∷ (0, sent_signal (pos 11) (some 1) (pos 12) false)
    ∷ []

twice_fails : line_count (drawn (after twice)) ≡ 0
unfolding after drawn
twice_fails = refl

-- One signal is drawn: both paths come to it on one line.
once_succeeds :
    line_count (
      drawn (
        after (
          (0, started (pos 10) [] [])
          ∷ (1, born (pos 11) 0)
          ∷ (0, forked 1)
          ∷ (0, sent_signal (pos 11) (some 1) (pos 10) false)
          ∷ (0, ended 0)
          ∷ (1, ended 0)
          ∷ [])))
    ≡ 4
unfolding after drawn
once_succeeds = refl

abbrev or_empty : Option (List Line × Paths × Bool) → List Line × Paths × Bool
or_empty none = ([], (λ r. none), false)
or_empty (some d) = d

family_drawn : List Line × Paths × Bool
unfolding drawn
family_drawn = or_empty (drawn (after family))

redraw-IsDiagram_example : IsDiagram default_opts (after family) family_drawn.0
unfolding after drawn family_drawn
redraw-IsDiagram_example =
    redraw-IsDiagram default_opts (after family) 0 20 family_drawn.0 family_drawn.1 family_drawn.2
      refl

abbrev span : ℕ → ℕ → DiagramPath
span a b = record { start_line = pos a; end_line = pos b; lane = negsuc 0; partner = none }

abbrev two_lanes : List Lane
two_lanes = (span 0 9 ∷ []) ∷ (span 2 4 ∷ []) ∷ []

place_rests_example :
    let (lane, lanes') = place two_lanes (span 6 7) in
    ((1 < lane) ⊎ (collides (span 6 7) (span 2 4 ∷ []) ≡ false))
    × ((lane ≡ 0) ⊎ (collides (span 6 7) (get_or two_lanes (lane - 1) []) ≡ true))
    × (lane ≤ 2)
    × (length lanes' ≡ max (lane + 1) 2)
place_rests_example = place_rests two_lanes (span 6 7) 1 (omega arith) (omega arith)

place_above : (place two_lanes (span 6 7)).0 ≡ 1
unfolding place fall collides
place_above = refl

-- A leader that has forked the process at address 1.
abbrev forking : Heap
forking r =
    if r == 0
    then record (new_process (pos 10) [] []) {
      history = record { kind = fork_event 1; location = none } ∷ [];
    }
    else new_process (pos 11) [] []

forking-IsForest : IsForest forking 2
unfolding forks new_process
forking-IsForest r = elim (Bool-cases (r == 0)) [
  | inl leads ↦ rw leads ((ground (arith, leads), omega arith), tt)
  | inr other ↦ rw other tt
]

abbrev unplaced : Placed
unplaced = record { lanes = [] ∷ []; paths = λ r. some (span r 9) }

allocate_succeeds_example : (d' : Placed) × (allocate 2 forking unplaced 0 ≡ some d') × IsLaid d'
allocate_succeeds_example =
    allocate_succeeds forking 2 unplaced 0 forking-IsForest (λ r h e. cc) (omega arith)
      (omega arith, (tt, tt))
