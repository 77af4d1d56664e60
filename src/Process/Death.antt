-- ===== src/Process/Death.antt =====
-- Each method of a process keeps its state in line with its history.
use forktrace.Prelude.{
  sym, ◌∙◌, ℕ, ◌≡◌, refl, inl, inr, Option-cases, ℤ, Bool, true, false, Option, none, some, List,
  [], ◌∷◌, Str, arith, if◌then◌else◌,
}
use forktrace.Event.{WaitEvent, Kind, Event, exit_event, signal_event}
use forktrace.Process.{
  Fault, Process, Result-cases, State, alive, Result, ok, fault, ◌>>=◌, as_wait, add_event,
  notify_waiting, resolve_wait, notify_failed_wait, notify_exec, notify_ended, notify_orphaned,
}
use forktrace.Process.Search.{search_wait, without_wait, resolve_wait_lem}

-- Is this the event that a process ended by, and was that a signal?
abbrev pub death : Kind → Option Bool
death (exit_event status) = some false
death (signal_event s) = if s.killed then some true else none
death _ = none

abbrev pub is_none {ℓ} : {A : Type ℓ} → Option A → Bool
is_none none = true
is_none (some _) = false

abbrev pub no_death : List Event → Bool
no_death [] = true
no_death (e ∷ es) = if is_none (death e.kind) then no_death es else false

-- A process that is alive has no death in its history; of one that is not, the last event is its
-- only death, and `killed` tells its kind.
abbrev pub Coherent : State → List Event → Bool → Type 0
Coherent alive es k = (no_death es ≡ true) × (k ≡ false)
Coherent _ [] k = ⊥
Coherent _ (e ∷ es) k = (death e.kind ≡ some k) × (no_death es ≡ true)

abbrev pub IsCoherent : Process → Type 0
IsCoherent p = Coherent p.state p.history p.killed

-- The result of a method, if it returns.
abbrev pub After : (Process → Type 0) → Result Process → Type 0
After P (ok p) = P p
After P (fault f) = Unit {0}

pub add_event-IsCoherent :
    (p : Process) (k : Kind) (consume : Bool)
    → death k ≡ none
    → IsCoherent p
    → After IsCoherent (add_event p k consume)
unfolding add_event
add_event-IsCoherent p k consume d c = ground arith

pub notify_waiting-IsCoherent :
    (p : Process) (id : ℤ) (hang : Bool)
    → IsCoherent p
    → After IsCoherent (notify_waiting p id hang)
unfolding notify_waiting
notify_waiting-IsCoherent p id hang c = ground arith

pub notify_exec-IsCoherent :
    (p : Process) (file : Str) (args : List Str) (err : ℤ)
    → IsCoherent p
    → After IsCoherent (notify_exec p file args err)
unfolding notify_exec
notify_exec-IsCoherent p file args err c = ground arith

pub notify_ended-IsCoherent :
    (p : Process) (status : ℕ) → IsCoherent p → After IsCoherent (notify_ended p status)
unfolding notify_ended
notify_ended-IsCoherent p status c = ground arith

module _ (f : WaitEvent → Kind) (harmless : (w : WaitEvent) → death (f w) ≡ none)
    (lost : Fault) where
  search_wait-no_death :
      (es es' : List Event) → search_wait f lost es ≡ ok es' → no_death es' ≡ no_death es
  search_wait-no_death [] es' h = cc
  search_wait-no_death (e ∷ es) es' h = elim (Option-cases (as_wait e.kind)) [
    | inl no_wait ↦ elim (Result-cases (search_wait f lost es)) [
      | inl (rest, r) ↦ ground (arith, no_wait, r, search_wait-no_death es rest r)
      | inr (x, r) ↦ ground (arith, no_wait, r)
    ]
    | inr (w, is_wait) ↦ ground (arith, is_wait, harmless w)
  ]

  search_wait-Coherent :
      (s : State) (es : List Event) (k : Bool) (es' : List Event)
      → search_wait f lost es ≡ ok es'
      → Coherent s es k
      → Coherent s es' k
  search_wait-Coherent s [] k es' h c = cc
  search_wait-Coherent s (e ∷ es) k es' h c = elim (Option-cases (as_wait e.kind)) [
    | inl no_wait ↦ elim (Result-cases (search_wait f lost es)) [
      | inl (rest, r) ↦ ground (arith, no_wait, r, search_wait-no_death es rest r)
      | inr (x, r) ↦ ground (arith, no_wait, r)
    ]
    | inr (w, is_wait) ↦ ground (arith, is_wait, harmless w)
  ]

pub resolve_wait-IsCoherent :
    (f : WaitEvent → Kind)
    → ((w : WaitEvent) → death (f w) ≡ none)
    → (p : Process) → IsCoherent p
    → After IsCoherent (resolve_wait f p.history >>= λ es. ok (record p { history = es }))
resolve_wait-IsCoherent f harmless p c = elim (Result-cases (resolve_wait f p.history)) [
  | inl (es, r) ↦ rw r (
      search_wait-Coherent f harmless (without_wait p.history) p.state p.history p.killed es
        (sym (resolve_wait_lem f p.history) ∙ r) c)
  | inr (x, r) ↦ rw r tt
]

pub notify_failed_wait-IsCoherent :
    (p : Process) (err : ℤ) → IsCoherent p → After IsCoherent (notify_failed_wait p err)
unfolding notify_failed_wait
notify_failed_wait-IsCoherent p err c = resolve_wait-IsCoherent _ (λ w. refl) p c

pub notify_orphaned-IsCoherent : (p : Process) → IsCoherent p → After IsCoherent (notify_orphaned p)
unfolding notify_orphaned
notify_orphaned-IsCoherent p c = ground arith
