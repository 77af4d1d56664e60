-- ===== src/Process/Search.antt =====
-- The search for the latest wait (`notify_failed_wait` and `notify_reaped` of
-- src/tracer/process.cpp), by the loop with an unsigned index and from the newest event on.
use forktrace.Prelude.{
  ◌≡◌, refl, sym, ◌∙◌, ◌-◌, ◌<◌, ◌^◌, ◌==ℤ◌, pos, Bool, true, false, Bool-cases, Option-cases, ◌⊎◌,
  subst, inl, inr, ltb, leb, if◌then◌else◌, none, some, List, [], ◌∷◌, ◌++◌, append-nil,
  append_assoc, length, length-append, get_elem?, set, wrap_sub, ℕ, zero, suc, ap, arith,
}
use forktrace.Event.{WaitEvent, Kind, Event}
use forktrace.Process.{
  Fault, wild_read, no_end, wait_failed, Result, ok, fault, ◌>>=◌, as_wait, event_at, put_event,
  resolve_from, resolve_wait,
}

-- The search over the history itself, which ends in `lost` where no wait is found.
abbrev pub search_wait : (WaitEvent → Kind) → Fault → List Event → Result (List Event)
search_wait f lost [] = fault lost
search_wait f lost (e ∷ es) = elim (as_wait e.kind) [
  | none ↦ search_wait f lost es >>= λ es'. ok (e ∷ es')
  | some w ↦ if w.error ==ℤ pos 0 then ok (record e { kind = f w } ∷ es) else fault wait_failed
]

-- The end of a search that finds no wait.
abbrev pub without_wait : List Event → Fault
without_wait es = if leb (2 ^ 64) (length es) then no_end else wild_read

abbrev NoWaits : List Event → Type 0
NoWaits [] = Unit {0}
NoWaits (e ∷ es) = (as_wait e.kind ≡ none) × NoWaits es

NoWaits-append :
    (es : List Event) (e : Event) → NoWaits es → as_wait e.kind ≡ none → NoWaits (es ++ e ∷ [])
NoWaits-append [] e h k = (k, tt)
NoWaits-append (x ∷ es) e (a, h) k = (a, NoWaits-append es e h k)

NoWaits-get_elem? :
    (es : List Event) (i : ℕ)
    → NoWaits es
    → i < length es
    → (e : Event) × (get_elem? es i ≡ some e) × (as_wait e.kind ≡ none)
NoWaits-get_elem? [] i h k = absurd (omega arith)
NoWaits-get_elem? (e ∷ es) zero (a, h) k = (e, refl, a)
NoWaits-get_elem? (e ∷ es) (suc i) (a, h) k = NoWaits-get_elem? es i h (omega arith)

get_elem?-append :
    (new : List Event) (e : Event) (old : List Event)
    → get_elem? (new ++ e ∷ old) (length new) ≡ some e
get_elem?-append [] e old = refl
get_elem?-append (x ∷ new) e old = get_elem?-append new e old

set-append :
    (new : List Event) (e e' : Event) (old : List Event)
    → set (new ++ e ∷ old) (length new) e' ≡ new ++ e' ∷ old
set-append [] e e' old = refl
set-append (x ∷ new) e e' old = ap (λ es. x ∷ es) (set-append new e e' old)

-- In a vector, the event behind `old` older ones.
place_of :
    (new : List Event) (e : Event) (old : List Event)
    → length (new ++ e ∷ old) - suc (length old) ≡ length new
place_of new e old = omega (arith, length-append new (e ∷ old))

event_at-append :
    (new : List Event) (e : Event) (old : List Event)
    → event_at (new ++ e ∷ old) (length old) ≡ some e
unfolding event_at
event_at-append new e old = elim (Bool-cases (ltb (length old) (length (new ++ e ∷ old)))) [
  | inl y ↦ rw (y, place_of new e old) (get_elem?-append new e old)
  | inr n ↦ absurd (ground (arith, n, length-append new (e ∷ old)))
]

put_event-append :
    (new : List Event) (e e' : Event) (old : List Event)
    → put_event (new ++ e ∷ old) (length old) e' ≡ new ++ e' ∷ old
unfolding put_event
put_event-append new e e' old = rw (place_of new e old) (set-append new e e' old)

abbrev behind : List Event → Result (List Event) → Result (List Event)
behind new m = m >>= λ es. ok (new ++ es)

behind-cons :
    (new : List Event) (e : Event) (m : Result (List Event))
    → behind (new ++ e ∷ []) m ≡ behind new (m >>= λ es. ok (e ∷ es))
behind-cons new e (ok es) = ap ok (append_assoc new (e ∷ []) es)
behind-cons new e (fault x) = refl

behind-nil : (m : Result (List Event)) → behind [] m ≡ m
behind-nil (ok es) = refl
behind-nil (fault x) = refl

wrap_sub-suc : (n : ℕ) → wrap_sub (suc n) 1 ≡ n
wrap_sub-suc n = ground arith

-- Below index 0.
event_at-wrapped :
    (es : List Event)
    → NoWaits es
    → (leb (2 ^ 64) (length es) ≡ true)
        × ((e : Event) × (event_at es (wrap_sub 0 1) ≡ some e) × (as_wait e.kind ≡ none))
      ⊎ (leb (2 ^ 64) (length es) ≡ false) × (event_at es (wrap_sub 0 1) ≡ none)
unfolding event_at
event_at-wrapped es h = elim (Bool-cases (leb (2 ^ 64) (length es))) [
  | inr n ↦ inr (n, ground (arith, n))
  | inl y ↦
      let (e, there, other) = NoWaits-get_elem? es (length es - 2 ^ 64) h (ground (arith, y)) in
      inl (y, (e, ground (arith, y, there), other))
]

module _ (f : WaitEvent → Kind) where
  resolve_from-none :
      (rounds : ℕ) (es : List Event) (i : ℕ)
      → event_at es i ≡ none
      → resolve_from f (suc rounds) es i ≡ fault wild_read
  unfolding resolve_from
  resolve_from-none rounds es i h = rw (h, resolve_from) refl

  resolve_from-other :
      (rounds : ℕ) (es : List Event) (i : ℕ) (e : Event)
      → event_at es i ≡ some e
      → as_wait e.kind ≡ none
      → resolve_from f (suc rounds) es i ≡ resolve_from f rounds es (wrap_sub i 1)
  unfolding resolve_from
  resolve_from-other rounds es i e h k = rw (h, k, resolve_from) refl

  -- What is done with the latest wait.
  abbrev resolved : Bool → List Event → Event → List Event → WaitEvent → Result (List Event)
  resolved true new e old w = ok (new ++ record e { kind = f w } ∷ old)
  resolved false new e old w = fault wait_failed

  resolve_from-wait :
      (rounds : ℕ) (new : List Event) (e : Event) (old : List Event) (w : WaitEvent)
      → as_wait e.kind ≡ some w
      → resolve_from f (suc rounds) (new ++ e ∷ old) (length old)
        ≡ resolved (w.error ==ℤ pos 0) new e old w
  unfolding resolve_from
  resolve_from-wait rounds new e old w k = elim (Bool-cases (w.error ==ℤ pos 0)) [
    | inl y ↦
        rw
          (
            event_at-append new e old,
            k,
            y,
            put_event-append new e (record e { kind = f w }) old,
            resolve_from,
          )
          refl
    | inr n ↦ rw (event_at-append new e old, k, n, resolve_from) refl
  ]

  search_wait-wait :
      (lost : Fault) (new : List Event) (e : Event) (old : List Event) (w : WaitEvent)
      → as_wait e.kind ≡ some w
      → behind new (search_wait f lost (e ∷ old)) ≡ resolved (w.error ==ℤ pos 0) new e old w
  search_wait-wait lost new e old w k = elim (Bool-cases (w.error ==ℤ pos 0)) [
    | inl y ↦ rw (k, y, search_wait) refl
    | inr n ↦ rw (k, n, search_wait) refl
  ]

  search_wait-other :
      (lost : Fault) (e : Event) (old : List Event)
      → as_wait e.kind ≡ none
      → search_wait f lost (e ∷ old) ≡ (search_wait f lost old >>= λ es. ok (e ∷ es))
  search_wait-other lost e old k = rw (k, search_wait) refl

  resolve_from-wrapped :
      (es : List Event) → NoWaits es → resolve_from f 1 es (wrap_sub 0 1) ≡ fault (without_wait es)
  unfolding resolve_from
  resolve_from-wrapped es h = elim (event_at-wrapped es h) [
    | inl (y, (e, there, other)) ↦ resolve_from-other 0 es (wrap_sub 0 1) e there other ∙ rw y refl
    | inr (n, gone) ↦ resolve_from-none 0 es (wrap_sub 0 1) gone ∙ rw n refl
  ]

  resolve_from-append :
      (new old : List Event)
      → NoWaits new
      → resolve_from f (suc (length old)) (new ++ old) (wrap_sub (length old) 1)
        ≡ behind new (search_wait f (without_wait (new ++ old)) old)
  resolve_from-append new [] h = rw (append-nil new) (resolve_from-wrapped new h)
  resolve_from-append new (e ∷ old) h = elim (Option-cases (as_wait e.kind)) [
    | inl other ↦
        let lost = without_wait (new ++ e ∷ old) in
        ap (resolve_from f (suc (suc (length old))) (new ++ e ∷ old)) (wrap_sub-suc (length old))
        ∙ resolve_from-other (suc (length old)) (new ++ e ∷ old) (length old) e
            (event_at-append new e old) other
        ∙ subst
            (λ es.
              resolve_from f (suc (length old)) es (wrap_sub (length old) 1)
              ≡ behind (new ++ e ∷ []) (search_wait f (without_wait es) old))
            (append_assoc new (e ∷ []) old)
            (resolve_from-append (new ++ e ∷ []) old (NoWaits-append new e h other))
        ∙ behind-cons new e (search_wait f lost old)
        ∙ ap (behind new) (sym (search_wait-other lost e old other))
    | inr (w, is_wait) ↦
        ap (resolve_from f (suc (suc (length old))) (new ++ e ∷ old)) (wrap_sub-suc (length old))
        ∙ resolve_from-wait (suc (length old)) new e old w is_wait
        ∙ sym (search_wait-wait (without_wait (new ++ e ∷ old)) new e old w is_wait)
  ]

-- The loop finds what a search from the newest event on finds: the latest wait, which it replaces in
-- its place if that has not failed, and throws if it has. Without any wait it reads outside the
-- vector, behind index 0, or, in a vector of 2 ^ 64 events or more, does not end.
pub resolve_wait_lem :
    (f : WaitEvent → Kind) (es : List Event)
    → resolve_wait f es ≡ search_wait f (without_wait es) es
unfolding resolve_wait
resolve_wait_lem f es = resolve_from-append f [] es tt ∙ behind-nil _
