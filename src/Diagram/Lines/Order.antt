-- ===== src/Diagram/Lines/Order.antt =====
-- A line shows at most one event of each path, and passes over none.
use forktrace.Prelude.{
  ℕ, zero, suc, ◌≡◌, Bool, inl, inr, ◌⊎◌, Option, none, some, Option-cases, List, [], ◌∷◌, ◌++◌,
  arith,
}
use forktrace.Event.{Ref}
use forktrace.Tree.{Heap}
use forktrace.Diagram.{Node, Paths, put_path, new_path}
use forktrace.Diagram.Lines.{
  Line, start_path, visit_node, visit_nodes, build_next_line, build_lines, redraw,
}
use forktrace.Diagram.Lines.Pending.{IsReady}
use forktrace.Diagram.Lines.Steps.{Emits, Begins, Appends, visit_node-Appended, start_path-Begins}

module _ (opts : ℕ) (h : Heap) where
  abbrev pub AllReady : Line → Type 0
  AllReady [] = Unit {0}
  AllReady (n ∷ ns) = IsReady opts h n.process n.next × AllReady ns

  abbrev pub EmitsFrom : Line → Node → Type 0
  EmitsFrom [] n' = ⊥
  EmitsFrom (n ∷ ns) n' = Emits opts h n n' ⊎ EmitsFrom ns n'

  -- Each node of a line follows a node of the line before, or begins a path.
  abbrev pub Follows : Line → Node → Type 0
  Follows prev n' = EmitsFrom prev n' ⊎ Begins opts h n'

  abbrev pub AllFollow : Line → Line → Type 0
  AllFollow prev [] = Unit {0}
  AllFollow prev (n' ∷ ns) = Follows prev n' × AllFollow prev ns

  Appends-AllFollow :
      (n : Node) (prev : Line) (xs rest : List Node)
      → Appends opts h n xs
      → AllFollow prev rest
      → AllFollow (n ∷ prev) (xs ++ rest)
  Appends-AllFollow n prev [] [] a all = tt
  Appends-AllFollow n prev [] (y ∷ rest) a all =
      (weaken all.0, Appends-AllFollow n prev [] rest tt all.1)
    where
      weaken : Follows prev y → Follows (n ∷ prev) y
      weaken (inl e) = inl (inr e)
      weaken (inr b) = inr b
  Appends-AllFollow n prev (x ∷ xs) rest a all =
      (head a.0, Appends-AllFollow n prev xs rest a.1 all)
    where
      head : Emits opts h n x ⊎ Begins opts h x → Follows (n ∷ prev) x
      head (inl e) = inl (inl e)
      head (inr b) = inr b

  EmitsFrom-IsReady :
      (prev : Line) (n' : Node) → EmitsFrom prev n' → IsReady opts h n'.process n'.next
  EmitsFrom-IsReady [] n' e = absurd e
  EmitsFrom-IsReady (n ∷ ns) n' (inl e) = e.2
  EmitsFrom-IsReady (n ∷ ns) n' (inr e) = EmitsFrom-IsReady ns n' e

  AllFollow-AllReady : (prev line : Line) → AllFollow prev line → AllReady line
  AllFollow-AllReady prev [] all = tt
  AllFollow-AllReady prev (n' ∷ ns) all = (ready all.0, AllFollow-AllReady prev ns all.1)
    where
      ready : Follows prev n' → IsReady opts h n'.process n'.next
      ready (inl e) = EmitsFrom-IsReady prev n' e
      ready (inr b) = b.2

  module _ (leader : Ref) where
    visit_nodes-AllFollow :
        (ps : Paths) (prev : Line) (count : ℕ) (end' : Option Ref) (ns line : Line) (ps' : Paths)
        → AllReady ns
        → visit_nodes opts h leader ps prev count end' ns ≡ some (line, ps')
        → AllFollow ns line
    unfolding visit_nodes
    visit_nodes-AllFollow ps prev count end' [] line ps' ready e =
        let same : [] ≡ line = cc in rw (← same) tt
    visit_nodes-AllFollow ps prev count end' (n ∷ ns) line ps' ready e =
        elim (Option-cases (visit_node opts h leader ps prev count end' n)) [
          | inl failed ↦ ground (arith, failed)
          | inr (d, done) ↦
              elim (Option-cases (visit_nodes opts h leader d.paths prev count d.link_end ns)) [
                | inl failed ↦ ground (arith, done, failed)
                | inr ((rest, ps₁), later) ↦
                    let same : line ≡ d.nodes ++ rest = ground (arith, done, later) in
                    rw same (
                      Appends-AllFollow n ns d.nodes rest
                        (rw done at
                          (visit_node-Appended opts h n ready.0 leader ps prev count end'))
                        (visit_nodes-AllFollow d.paths prev count d.link_end ns rest ps₁ ready.1
                          later))
              ]
        ]

    -- A new line follows the one before it: every node in it belongs to a path of that line and
    -- shows the first of its pending events or none, which stay pending, or begins a path with all
    -- events pending.
    pub build_next_line-AllFollow :
        (ps ps' : Paths) (prev : Line) (lines : List Line) (line : Line)
        → AllReady prev
        → build_next_line opts h leader ps (prev ∷ lines) ≡ some (line, ps')
        → AllFollow prev line
    unfolding build_next_line
    build_next_line-AllFollow ps ps' prev lines line ready e =
        visit_nodes-AllFollow ps prev _ none prev line ps' ready e

  -- The lines of a diagram, the last one first: each follows the one before, and the first begins.
  abbrev pub IsDiagram : List Line → Type 0
  IsDiagram [] = ⊥
  IsDiagram (first ∷ []) = AllFollow [] first
  IsDiagram (line ∷ prev ∷ lines) = AllFollow prev line × IsDiagram (prev ∷ lines)

  IsDiagram-AllReady : (line : Line) (lines : List Line) → IsDiagram (line ∷ lines) → AllReady line
  IsDiagram-AllReady line [] d = AllFollow-AllReady [] line d
  IsDiagram-AllReady line (prev ∷ lines) d = AllFollow-AllReady prev line d.0

  module _ (leader : Ref) where
    build_lines-IsDiagram :
        (rounds : ℕ) (ps : Paths) (prev : Line) (lines lines' : List Line) (ps' : Paths) (b : Bool)
        → IsDiagram (prev ∷ lines)
        → build_lines opts h leader rounds ps (prev ∷ lines) ≡ some (lines', ps', b)
        → IsDiagram lines'
    unfolding build_lines
    build_lines-IsDiagram zero ps prev lines lines' ps' b d e =
        let same : prev ∷ lines ≡ lines' = cc in rw (← same) d
    build_lines-IsDiagram (suc rounds) ps prev lines lines' ps' b d e =
        elim (Option-cases (build_next_line opts h leader ps (prev ∷ lines))) [
          | inl failed ↦ ground (arith, failed)
          | inr (([], ps₁), done) ↦
              let same : prev ∷ lines ≡ lines' = ground (arith, done) in rw (← same) d
          | inr ((n ∷ ns, ps₁), done) ↦
              build_lines-IsDiagram rounds ps₁ (n ∷ ns) (prev ∷ lines) lines' ps' b
                (
                  build_next_line-AllFollow leader ps ps₁ prev lines (n ∷ ns)
                      (IsDiagram-AllReady prev lines d) done,
                  d,
                )
                (rw (done, build_lines) at e)
        ]

    -- In the lines that `redraw` gives, after any number of rounds, every node either begins a path,
    -- with all the events that the options show pending, or follows a node of the same path in the
    -- line before: it shows the first of the events pending there and leaves the others pending, or
    -- shows none and leaves all. The first line only begins paths.
    pub redraw-IsDiagram :
        (rounds : ℕ) (lines : List Line) (ps : Paths) (b : Bool)
        → redraw opts h leader rounds ≡ some (lines, ps, b)
        → IsDiagram lines
    unfolding redraw
    redraw-IsDiagram rounds lines ps b e =
        elim (Option-cases (start_path opts h (put_path (λ r. none) leader (new_path 0)) leader)) [
          | inl failed ↦ ground (arith, failed)
          | inr ((n, ps₁), began) ↦
              build_lines-IsDiagram rounds ps₁ (n ∷ []) [] lines ps b
                (inr (start_path-Begins opts h _ ps₁ leader n began), tt) (rw (began, redraw) at e)
        ]
