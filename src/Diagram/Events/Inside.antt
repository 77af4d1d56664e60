-- ===== src/Diagram/Events/Inside.antt =====
-- Events draw inside the window.
use forktrace.Prelude.{
  ℕ, ◌≤◌, ◌<◌, ◌≡◌, refl, ◌∙◌, true, wrap_add, Bool-cases, inl, inr, leb, Option, some, [], ◌∷◌,
  Str, arith,
}
use forktrace.Event.{
  Ref, Kind, fork_event, wait_event, reap_event, raise_event, kill_event, signal_event, exit_event,
  exec_event,
}
use forktrace.Process.{State, alive, zombie, reaped, orphaned}
use forktrace.Tree.{Heap}
use forktrace.Canvas.{Colour, Window, set_colour, draw_each, draw_char}
use forktrace.Canvas.Cells.{draw_each-size}
use forktrace.Canvas.Drawer.{Drawer, backtrack, draw_event_char, draw_event_string}
use forktrace.Canvas.Strings.{written, fitting, draw_event_string-fitting}
use forktrace.Diagram.Lines.{◌>>=◌}
use forktrace.Diagram.Events.{
  draw_event, before_signal, if_orphan, show_int, wait_char, signal_colour, killed_colour,
  exited_colour, send_colour,
}

-- The drawer stands in row `y` of a window of that size, at most at its right edge.
abbrev pub Inside : ℕ → ℕ → ℕ → Drawer → Type 0
Inside width height y d =
    (w : Window) × (d.win ≡ some w)
    × (w.width ≡ width)
    × (w.height ≡ height)
    × (d.y ≡ y)
    × (d.x ≤ width)

module _ (width height y : ℕ) (low : y < height) where
  -- The drawing succeeds, and the drawer is still inside.
  abbrev Draws : Option Drawer → Type 0
  Draws o = (d : Drawer) × (o ≡ some d) × Inside width height y d

  then-Draws :
      (o : Option Drawer) (f : Drawer → Option Drawer)
      → Draws o
      → ((d : Drawer) → Inside width height y d → Draws (f d))
      → Draws (o >>= f)
  then-Draws o f (d, done, inside) next = rw done (next d inside)

  draw_event_char-Draws :
      (d : Drawer) (c : Colour) (ch : ℕ)
      → Inside width height y d
      → Draws (draw_event_char d c ch 1)
  unfolding draw_event_char draw_char draw_each
  draw_event_char-Draws d c ch (w, there, wide, high, row, inside) =
      elim (Bool-cases (leb w.width d.x)) [
        | inl past' ↦ (
          record d { is_truncated = true },
          rw (there, past') refl,
          (w, there, wide, high, row, inside),
        )
        | inr room ↦
            let w' : Window = set_colour (draw_each (set_colour w c) d.x d.y (ch ∷ [])) w.current in
            (
              record d { win = some w'; x = wrap_add d.x 1; x_extent = wrap_add d.x 1 },
              ground (arith, there, room, low, high, row),
              (w', refl, wide, high, row, ground (arith, room, wide)),
            )
      ]

  draw_event_string-Draws :
      (d : Drawer) (c : Colour) (s : Str)
      → Inside width height y d
      → Draws (draw_event_string d c s)
  draw_event_string-Draws d c s (w, there, wide, high, row, inside) = (
    _,
    draw_event_string-fitting d w c s there (omega (arith, low, high, row))
        (omega (arith, wide, inside)),
    (
      written d w c s,
      refl,
      (draw_each-size (set_colour w c) d.x d.y (fitting d w s)).0 ∙ wide,
      (draw_each-size (set_colour w c) d.x d.y (fitting d w s)).1 ∙ high,
      row,
      omega (arith, wide),
    ),
  )

  backtrack-Inside :
      (d : Drawer) → 0 < d.x → Inside width height y d → Inside width height y (backtrack d 1)
  unfolding backtrack
  backtrack-Inside d moved (w, there, wide, high, row, inside) =
      (w, there, wide, high, row, ground (arith, inside))

  done-Draws : (d : Drawer) → Inside width height y d → Draws (some d)
  done-Draws d inside = (d, refl, inside)

  if_orphan-Draws :
      (s : State) (draw : Drawer → Option Drawer) (d : Drawer)
      → Inside width height y d
      → Draws (draw d)
      → Draws (if_orphan s draw d)
  if_orphan-Draws orphaned draw d inside k = k
  if_orphan-Draws alive draw d inside k = done-Draws d inside
  if_orphan-Draws zombie draw d inside k = done-Draws d inside
  if_orphan-Draws reaped draw d inside k = done-Draws d inside

  before_signal-Draws :
      (s : State) (d : Drawer) → 0 < d.x → Inside width height y d → Draws (before_signal s d)
  unfolding before_signal
  before_signal-Draws orphaned d moved inside =
      draw_event_char-Draws (backtrack d 1) 0 b'[' (backtrack-Inside d moved inside)
  before_signal-Draws reaped d moved inside = done-Draws d inside
  before_signal-Draws alive d moved inside =
      draw_event_char-Draws (backtrack d 1) killed_colour b'~' (backtrack-Inside d moved inside)
  before_signal-Draws zombie d moved inside =
      draw_event_char-Draws (backtrack d 1) killed_colour b'~' (backtrack-Inside d moved inside)

  closed-Draws :
      (s : State) (c : Colour) (text : Str) (ch : ℕ) (d : Drawer)
      → Inside width height y d
      → Draws
          (draw_event_string d c text >>= λ d'. if_orphan s (λ d''. draw_event_char d'' 0 ch 1) d')
  closed-Draws s c text ch d inside =
      then-Draws _ _ (draw_event_string-Draws d c text inside) (λ d' inside'.
        if_orphan-Draws s (λ d''. draw_event_char d'' 0 ch 1) d' inside'
          (draw_event_char-Draws d' 0 ch inside'))

  -- In every state of the tree and for every event, with the drawer in a row of the window, at most
  -- at the right edge and past the first column: the event's drawing fails no assertion, and leaves
  -- the drawer in that row of a window of the same size, at most at its right edge.
  pub draw_event-Inside :
      (h : Heap) (owner : Ref) (k : Kind) (d : Drawer)
      → 0 < d.x
      → Inside width height y d
      → (d' : Drawer) × (draw_event h owner k d ≡ some d') × Inside width height y d'
  unfolding draw_event
  draw_event-Inside h owner (fork_event child) d moved inside =
      draw_event_char-Draws d _ b'+' inside
  draw_event-Inside h owner (wait_event w) d moved inside = draw_event_char-Draws d _ b'w' inside
  draw_event-Inside h owner (reap_event child w) d moved inside =
      draw_event_char-Draws d _ (wait_char w.waited_id) inside
  draw_event-Inside h owner (raise_event id sig thread) d moved inside =
      draw_event_string-Draws d send_colour (show_int sig) inside
  draw_event-Inside h owner (kill_event i sender) d moved inside =
      draw_event_string-Draws d send_colour (show_int i.signal) inside
  draw_event-Inside h owner (signal_event s) d moved inside = elim (Bool-cases s.killed) [
    | inr received ↦
        rw received (draw_event_string-Draws d signal_colour (show_int s.signal) inside)
    | inl fatal ↦ rw fatal (
        then-Draws _ _ (before_signal-Draws (h owner).state d moved inside)
          (closed-Draws (h owner).state killed_colour (show_int s.signal) b']'))
  ]
  draw_event-Inside h owner (exit_event status) d moved inside =
      then-Draws _ _
        (if_orphan-Draws (h owner).state (λ d₁. draw_event_char (backtrack d₁ 1) 0 b'(' 1) d inside
          (draw_event_char-Draws (backtrack d 1) 0 b'(' (backtrack-Inside d moved inside)))
        (closed-Draws (h owner).state exited_colour (show_int status) b')')
  draw_event-Inside h owner (exec_event x) d moved inside = draw_event_char-Draws d _ b'E' inside
