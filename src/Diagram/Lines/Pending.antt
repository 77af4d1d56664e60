-- ===== src/Diagram/Lines/Pending.antt =====
-- The events that a path has still to show, and what the search for the next one finds.
use forktrace.Prelude.{
  ℕ, zero, suc, ◌+◌, ◌≡◌, refl, sym, ◌∙◌, ap, ℤ, pos, negsuc, false, Bool-cases, inl, inr, ◌⊎◌,
  if◌then◌else◌, none, some, Option-cases, List, [], ◌∷◌, get_elem?, drop, arith,
}
use forktrace.Event.{Ref, Event}
use forktrace.Tree.{Heap}
use forktrace.Diagram.{Paths, events, is_hidden, next_shown, get_next_event}

-- The events of a list that the options show.
abbrev pub shown_events : ℕ → List Event → List Event
shown_events opts [] = []
shown_events opts (e ∷ es) =
    if is_hidden opts e.kind then shown_events opts es else e ∷ shown_events opts es

-- The events that a path has still to show, where `next` is the index that its node holds.
abbrev pub pending_at : ℕ → Heap → Ref → ℤ → List Event
pending_at opts h r (pos i) = shown_events opts (drop i (events (h r)))
pending_at opts h r (negsuc n) = []

-- An index that a node holds is that of an event which the options show.
abbrev pub IsReady : ℕ → Heap → Ref → ℤ → Type 0
IsReady opts h r (pos i) =
    (e : Event) × (get_elem? (events (h r)) i ≡ some e) × (is_hidden opts e.kind ≡ false)
IsReady opts h r (negsuc n) = Unit {0}

drop-nil : (n : ℕ) → drop {A = Event} n [] ≡ []
drop-nil zero = refl
drop-nil (suc n) = refl

drop-drop : (i k : ℕ) (es : List Event) → drop k (drop i es) ≡ drop (i + k) es
drop-drop zero k es = ap (λ (n : ℕ). drop n es) (omega arith)
drop-drop (suc i) k [] = drop-nil k ∙ sym (drop-nil (suc i + k))
drop-drop (suc i) k (e ∷ es) =
    drop-drop i k es ∙ ap (λ (n : ℕ). drop n (e ∷ es)) {x = suc (i + k)} (omega arith)

get_elem?-drop : (i k : ℕ) (es : List Event) → get_elem? (drop i es) k ≡ get_elem? es (i + k)
get_elem?-drop zero k es = ap (λ (n : ℕ). get_elem? es n) (omega arith)
get_elem?-drop (suc i) k [] = refl
get_elem?-drop (suc i) k (e ∷ es) =
    get_elem?-drop i k es ∙ ap (λ (n : ℕ). get_elem? (e ∷ es) n) {x = suc (i + k)} (omega arith)

pub drop-get_elem? :
    (i : ℕ) (es : List Event) (e : Event)
    → get_elem? es i ≡ some e
    → drop i es ≡ e ∷ drop (i + 1) es
drop-get_elem? zero [] e h = cc
drop-get_elem? zero (x ∷ es) e h = ground arith
drop-get_elem? (suc i) [] e h = cc
drop-get_elem? (suc i) (x ∷ es) e h =
    drop-get_elem? i es e h ∙ ap (λ (n : ℕ). e ∷ drop n (x ∷ es)) {x = suc (i + 1)} (omega arith)

-- What the loop finds at `i + k`, behind hidden events only.
next_shown-some :
    (opts : ℕ) (es : List Event) (i j : ℕ) (e : Event)
    → next_shown opts es i ≡ some (j, e)
    → (k : ℕ) × (j ≡ i + k)
      × (get_elem? es k ≡ some e)
      × (is_hidden opts e.kind ≡ false)
      × (shown_events opts es ≡ shown_events opts (drop k es))
unfolding next_shown
next_shown-some opts [] i j e h = cc
next_shown-some opts (x ∷ es) i j e h = elim (Bool-cases (is_hidden opts x.kind)) [
  | inl hidden ↦
      let (k, at', found, shown, same) = next_shown-some opts es (i + 1) j e (rw hidden at h) in
      (suc k, omega arith, found, shown, ground (arith, hidden, same))
  | inr shown ↦ (0, ground (arith, shown), ground (arith, shown), ground (arith, shown), refl)
]

next_shown-none :
    (opts : ℕ) (es : List Event) (i : ℕ) → next_shown opts es i ≡ none → shown_events opts es ≡ []
unfolding next_shown
next_shown-none opts [] i h = refl
next_shown-none opts (x ∷ es) i h = ground (arith, next_shown-none opts es (i + 1))

await_partner-paths :
    (opts : ℕ) (h : Heap) (ps : Paths) (r : Ref) (start : ℕ) (next : ℤ) (ps' : Paths)
    → get_next_event opts h ps r start ≡ some (next, ps')
    → (next_shown opts (drop start (events (h r))) start ≡ none) × (next ≡ negsuc 0)
      ⊎ ((j : ℕ) × (e : Event) × (next_shown opts (drop start (events (h r))) start ≡ some (j, e))
          × (next ≡ pos j))
unfolding get_next_event
await_partner-paths opts h ps r start next ps' e =
    elim (Option-cases (next_shown opts (drop start (events (h r))) start)) [
      | inl stop ↦ inl (stop, ground (arith, stop))
      | inr ((j, x), found) ↦ inr (j, x, found, ground (arith, found))
    ]

-- The search from an index leaves the events pending from there on, and a ready index.
pub get_next_event-pending :
    (opts : ℕ) (h : Heap) (ps : Paths) (r : Ref) (start : ℕ) (next : ℤ) (ps' : Paths)
    → get_next_event opts h ps r start ≡ some (next, ps')
    → (shown_events opts (drop start (events (h r))) ≡ pending_at opts h r next)
      × IsReady opts h r next
get_next_event-pending opts h ps r start next ps' e =
    elim (await_partner-paths opts h ps r start next ps' e) [
      | inl (stop, end') ↦ rw end' (next_shown-none opts _ start stop, tt)
      | inr (j, x, found, at') ↦
          let (k, there, hit, shown, same) = next_shown-some opts _ start j x found in
          rw (at', there)
            (
              same ∙ ap (shown_events opts) (drop-drop start k (events (h r))),
              (x, sym (get_elem?-drop start k (events (h r))) ∙ hit, shown),
            )
    ]
