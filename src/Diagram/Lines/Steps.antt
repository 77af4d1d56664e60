-- ===== src/Diagram/Lines/Steps.antt =====
-- A step over a node: it shows the first pending event of the node's path, or none.
use forktrace.Prelude.{
  ℕ, ◌+◌, ◌≡◌, refl, sym, ◌∙◌, ap, ℤ, pos, negsuc, ◌==ℤ◌, leb_ℤ, ◌||◌, false, Bool-cases, inl, inr,
  ◌⊎◌, Option, none, some, Option-cases, List, [], ◌∷◌, drop, arith,
}
use forktrace.Event.{Ref, Event, Kind, is_link, fork_event, reap_event, kill_event, kill_partner}
use forktrace.Tree.{Heap}
use forktrace.Diagram.{
  DiagramPath, Node, Paths, events, get_next_event, next_event, is_hidden, put_path, new_path,
}
use forktrace.Diagram.Lines.{
  Line, Drawn, successor_at, continue_path, get_successor, start_path, advance, do_fork, do_reap,
  do_kill, do_link_event, step_node, visit_node, is_ref, path_ready_to_end,
}
use forktrace.Diagram.Lines.Pending.{
  shown_events, pending_at, IsReady, get_next_event-pending, drop-get_elem?,
}

abbrev pub consumed : Option Event → List Event → List Event
consumed none es = es
consumed (some e) es = e ∷ es

module _ (opts : ℕ) (h : Heap) where
  -- The node follows `n` on its path: it shows the first of the pending events, or none.
  abbrev pub Emits : Node → Node → Type 0
  Emits n n' =
      (n'.process ≡ n.process)
      × (pending_at opts h n.process n.next
          ≡ consumed n'.event (pending_at opts h n'.process n'.next))
      × IsReady opts h n'.process n'.next

  -- The node begins a path: all the events that the options show are pending.
  abbrev pub Begins : Node → Type 0
  Begins n' =
      (n'.event ≡ none)
      × (pending_at opts h n'.process n'.next ≡ shown_events opts (events (h n'.process)))
      × IsReady opts h n'.process n'.next

  successor_at-Emits :
      (ps ps' : Paths) (r : Ref) (next : ℤ) (n' : Node)
      → IsReady opts h r next
      → successor_at opts h ps r next ≡ some (n', ps')
      → (n'.process ≡ r)
        × (pending_at opts h r next ≡ consumed n'.event (pending_at opts h n'.process n'.next))
        × IsReady opts h n'.process n'.next
  unfolding successor_at
  successor_at-Emits ps ps' r (negsuc m) n' ready e =
      let same : n' ≡ record { process = r; event = none; next = negsuc 0 } = ground arith in
      rw same (refl, refl, tt)
  successor_at-Emits ps ps' r (pos i) n' (x, found, shown) e =
      elim (Option-cases (get_next_event opts h ps r (i + 1))) [
        | inl failed ↦ ground (arith, found, failed)
        | inr ((next', ps₁), done) ↦
            let same : n' ≡ record { process = r; event = some x; next = next' } =
              ground (arith, found, done) in
            let (left, ready') = get_next_event-pending opts h ps r (i + 1) next' ps₁ done in
            rw same (
              refl,
              ap (shown_events opts) (drop-get_elem? i (events (h r)) x found)
                  ∙ shown-cons x (drop (i + 1) (events (h r))) shown
                  ∙ ap (λ es. x ∷ es) left,
              ready',
            )
      ]
    where
      shown-cons :
          (y : Event) (es : List Event)
          → is_hidden opts y.kind ≡ false
          → shown_events opts (y ∷ es) ≡ y ∷ shown_events opts es
      shown-cons y es v = rw v

  get_successor-Emits :
      (ps ps' : Paths) (n n' : Node)
      → IsReady opts h n.process n.next
      → get_successor opts h ps n ≡ some (n', ps')
      → Emits n n'
  unfolding get_successor
  get_successor-Emits ps ps' n n' ready e = successor_at-Emits ps ps' n.process n.next n' ready e

  pub start_path-Begins :
      (ps ps' : Paths) (r : Ref) (n' : Node) → start_path opts h ps r ≡ some (n', ps') → Begins n'
  unfolding start_path
  start_path-Begins ps ps' r n' e = elim (Option-cases (get_next_event opts h ps r 0)) [
    | inl failed ↦ ground (arith, failed)
    | inr ((next', ps₁), done) ↦
        let same : n' ≡ record { process = r; event = none; next = next' } = ground (arith, done) in
        let (left, ready') = get_next_event-pending opts h ps r 0 next' ps₁ done in
        rw same (refl, sym left, ready')
  ]

  -- What a step over the node `n` may append.
  abbrev pub Appends : Node → List Node → Type 0
  Appends n [] = Unit {0}
  Appends n (n' ∷ ns) = (Emits n n' ⊎ Begins n') × Appends n ns

  abbrev pub Appended : Node → Option Drawn → Type 0
  Appended n none = Unit {0}
  Appended n (some d) = Appends n d.nodes

  module _ (n : Node) (ready : IsReady opts h n.process n.next) where
    hold-Appends : Appends n (continue_path n ∷ [])
    hold-Appends = (inl (refl, refl, ready), tt)

    advance-Appended : (ps : Paths) (end' : Option Ref) → Appended n (advance opts h ps n end')
    unfolding advance
    advance-Appended ps end' = elim (Option-cases (get_successor opts h ps n)) [
      | inl failed ↦ rw failed tt
      | inr ((n', ps'), done) ↦ rw done (inl (get_successor-Emits ps ps' n n' ready done), tt)
    ]

    do_fork-Appended :
        (ps : Paths) (line : ℕ) (child : Ref) → Appended n (do_fork opts h ps line n child)
    unfolding do_fork
    do_fork-Appended ps line child = elim (Option-cases (ps child)) [
      | inr (p, there) ↦ rw (there, do_fork) tt
      | inl fresh ↦
          let ps₀ = put_path ps child (new_path line) in
          elim (Option-cases (get_successor opts h ps₀ n)) [
            | inl failed ↦ rw (fresh, do_fork, failed) tt
            | inr ((n', ps₁), done) ↦ elim (Option-cases (start_path opts h ps₁ child)) [
              | inl failed ↦ rw (fresh, do_fork, done, failed) tt
              | inr ((c, ps₂), began) ↦
                  rw (fresh, do_fork, done, began)
                    (
                      inl (get_successor-Emits ps₀ ps₁ n n' ready done),
                      (inr (start_path-Begins ps₁ ps₂ child c began), tt),
                    )
            ]
          ]
    ]

    do_reap-Appended :
        (ps : Paths) (prev : Line) (line : ℕ) (child : Ref)
        → Appended n (do_reap opts h ps prev line n child)
    unfolding do_reap
    do_reap-Appended ps prev line child = elim (Option-cases (ps child)) [
      | inl missing ↦ rw (missing, do_reap) tt
      | inr (p, there) ↦ elim (Bool-cases (path_ready_to_end h prev child)) [
        | inl ends ↦ rw (there, do_reap, ends) (advance-Appended _ (some child))
        | inr runs ↦ rw (there, do_reap, runs) hold-Appends
      ]
    ]

    do_kill-Appended :
        (ps : Paths) (path : DiagramPath) (other : Ref)
        → Appended n (do_kill opts h ps path n other)
    unfolding do_kill
    do_kill-Appended ps path other = elim (Option-cases (ps other)) [
      | inl missing ↦ rw (missing, do_kill) hold-Appends
      | inr (partner, there) ↦ elim (Option-cases path.partner) [
        | inl seen ↦ elim (Option-cases partner.partner) [
          | inl free ↦ rw (there, do_kill, seen, free) (advance-Appended ps none)
          | inr (q, waits) ↦ rw (there, do_kill, seen, waits) tt
        ]
        | inr (q, awaited) ↦ elim (Bool-cases (is_ref partner.partner n.process)) [
          | inl both ↦ rw (there, do_kill, awaited, both) (advance-Appended _ (some other))
          | inr one ↦ rw (there, do_kill, awaited, one) hold-Appends
        ]
      ]
    ]

    do_link_event-Appended :
        (ps : Paths) (prev : Line) (line : ℕ) (path : DiagramPath) (k : Kind)
        → Appended n (do_link_event opts h ps prev line path n k)
    unfolding do_link_event
    do_link_event-Appended ps prev line path (fork_event child) = do_fork-Appended ps line child
    do_link_event-Appended ps prev line path (reap_event child w) =
        do_reap-Appended ps prev line child
    do_link_event-Appended ps prev line path (kill_event i sender) =
        do_kill-Appended ps path (kill_partner i sender)
    do_link_event-Appended ps prev line path _ = tt

    step_node-Appended :
        (leader : Ref) (ps : Paths) (prev : Line) (line : ℕ) (path : DiagramPath)
        (end' : Option Ref) (event : Option Event)
        → Appended n (step_node opts h leader ps prev line path end' n event)
    unfolding step_node
    step_node-Appended leader ps prev line path end' none =
        elim (Bool-cases (path.end_line ==ℤ negsuc 0 || leb_ℤ (pos line) path.end_line)) [
          | inl goes_on ↦ rw goes_on hold-Appends
          | inr over ↦ rw over tt
        ]
    step_node-Appended leader ps prev line path end' (some e) = elim (Bool-cases (is_link e.kind)) [
      | inr plain ↦ rw plain (advance-Appended ps end')
      | inl link ↦ elim (Option-cases end') [
        | inl free ↦ rw (link, free, step_node) (do_link_event-Appended ps prev line path e.kind)
        | inr (r, busy) ↦ rw (link, busy, step_node) hold-Appends
      ]
    ]

    pub visit_node-Appended :
        (leader : Ref) (ps : Paths) (prev : Line) (line : ℕ) (end' : Option Ref)
        → Appended n (visit_node opts h leader ps prev line end' n)
    unfolding visit_node
    visit_node-Appended leader ps prev line end' = elim (Option-cases (ps n.process)) [
      | inl missing ↦ rw (missing, visit_node) tt
      | inr (p, there) ↦
          rw (there, visit_node) (step_node-Appended leader _ prev line _ _ (next_event h n))
    ]
