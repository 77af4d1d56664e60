-- ===== src/Tracer/Sound/Notices.antt =====
-- What the tracer tells the process tree of a process that is alive.
use forktrace.Prelude.{
  ◌≡◌, refl, ◌∙◌, ◌==◌, ==_iff, ℤ, Bool, true, false, Bool-cases, Option-cases, ◌==ℤ◌, pos, inl,
  inr, Option, none, some, List, [], ◌∷◌, length, leb, ◌^◌, Str, arith,
}
use forktrace.Event.{Ref, WaitEvent, KillInfo, Kind, Event, kill_event}
use forktrace.Process.{
  Process, alive, Fault, Result, ok, fault, Result-cases, ◌>>=◌, as_wait, add_event, notify_waiting,
  resolve_wait, notify_failed_wait, notify_forked, notify_exec, notify_signaled, update_location,
}
use forktrace.Process.Search.{search_wait, without_wait, resolve_wait_lem}
use forktrace.Process.Death.{IsCoherent, add_event-IsCoherent}
use forktrace.Tree.{
  Heap, update, on_process, receive_kill, link_kill, is_distinct, notify_sent_signal, Notice,
  started, born, reaped_child, ended, orphan, waiting, failed_wait, forked, execed, signaled,
  sent_signal, moved, notify,
}
use forktrace.Tree.Coherence.{AllCoherent, update-AllCoherent}
use forktrace.Action.{tree_error}
use forktrace.Tracer.{outcome_of}
use forktrace.Tracer.Sound.{IsPlain, IsInTurn}
use forktrace.Tracer.Sound.Maps.{IsSame, AllSame}

-- A method that leaves pid and state, and that throws no fault of an event out of turn.
abbrev pub IsMild : Process → Result Process → Type 0
IsMild p (ok q) = IsSame p q
IsMild p (fault f) = IsInTurn (tree_error f)

add_event-IsMild :
    (p : Process) (k : Kind) (consume : Bool) → p.state ≡ alive → IsMild p (add_event p k consume)
unfolding add_event
add_event-IsMild p k consume a = ground arith

notify_waiting-IsMild :
    (p : Process) (id : ℤ) (hang : Bool) → p.state ≡ alive → IsMild p (notify_waiting p id hang)
unfolding notify_waiting add_event
notify_waiting-IsMild p id hang a = ground arith

notify_exec-IsMild :
    (p : Process) (file : Str) (args : List Str) (err : ℤ)
    → p.state ≡ alive
    → IsMild p (notify_exec p file args err)
unfolding notify_exec add_event
notify_exec-IsMild p file args err a = ground arith

-- The search for the wait throws no fault of an event out of turn.
abbrev pub FaultsInTurn : {A : Type 0} → Result A → Type 0
FaultsInTurn (ok a) = Unit {0}
FaultsInTurn (fault f) = IsInTurn (tree_error f)

FaultsInTurn-then :
    {A B : Type 0} (m : Result A) (f : A → Result B)
    → FaultsInTurn m
    → ((a : A) → FaultsInTurn (f a))
    → FaultsInTurn (m >>= f)
FaultsInTurn-then (ok a) f h k = k a
FaultsInTurn-then (fault e) f h k = h

search_wait-FaultsInTurn :
    (f : WaitEvent → Kind) (lost : Fault) (es : List Event)
    → IsInTurn (tree_error lost)
    → FaultsInTurn (search_wait f lost es)
search_wait-FaultsInTurn f lost [] h = h
search_wait-FaultsInTurn f lost (e ∷ es) h = elim (Option-cases (as_wait e.kind)) [
  | inl other ↦
      rw (other, FaultsInTurn, search_wait)
        (FaultsInTurn-then _ _ (search_wait-FaultsInTurn f lost es h) (λ es'. tt))
  | inr (w, found) ↦ elim (Bool-cases (w.error ==ℤ pos 0)) [
    | inl is_open ↦ rw (found, is_open, FaultsInTurn, search_wait) tt
    | inr closed ↦ rw (found, closed, FaultsInTurn, search_wait) tt
  ]
]

without_wait-IsInTurn : (es : List Event) → IsInTurn (tree_error (without_wait es))
without_wait-IsInTurn es = elim (Bool-cases (leb (2 ^ 64) (length es))) [
  | inl y ↦ rw y tt
  | inr n ↦ rw n tt
]

pub resolve_wait-FaultsInTurn :
    (f : WaitEvent → Kind) (es : List Event) → FaultsInTurn (resolve_wait f es)
resolve_wait-FaultsInTurn f es =
    rw (resolve_wait_lem f es)
      (search_wait-FaultsInTurn f (without_wait es) es (without_wait-IsInTurn es))

pub resolved-IsMild :
    (p : Process) (m : Result (List Event))
    → FaultsInTurn m
    → IsMild p (m >>= λ es. ok (record p { history = es }))
resolved-IsMild p (ok es) h = (refl, refl)
resolved-IsMild p (fault f) h = h

AllSame-refl : (h : Heap) → AllSame h h
AllSame-refl h r = (refl, refl)

update-AllSame : (h : Heap) (r : Ref) (p : Process) → IsSame (h r) p → AllSame h (update h r p)
update-AllSame h r p same q = elim (Bool-cases (r == q)) [
  | inl hit ↦ rw (hit, ← (==_iff r q).0 hit) same
  | inr miss ↦ rw miss (refl, refl)
]

abbrev pub MildOutcome : Heap → Heap × Option Fault → Type 0
MildOutcome h (h', f) = AllSame h h' × IsPlain (outcome_of f)

pub on_process-Mild :
    (h : Heap) (r : Ref) (m : Result Process) → IsMild (h r) m → MildOutcome h (on_process h r m)
on_process-Mild h r (ok p) mild = (update-AllSame h r p mild, tt)
on_process-Mild h r (fault f) mild = (AllSame-refl h, mild)

-- The receiver of a signal keeps its pid and state, and a coherent one can take it.
receive_kill-IsMild : (p : Process) (i : KillInfo) → IsCoherent p → IsMild p (receive_kill p i)
unfolding receive_kill
receive_kill-IsMild p i c = ground arith

AllSame-trans : (h h' h'' : Heap) → AllSame h h' → AllSame h' h'' → AllSame h h''
AllSame-trans h h' h'' a b r = ((b r).0 ∙ (a r).0, (b r).1 ∙ (a r).1)

Mild-then :
    (h h' : Heap) (o : Heap × Option Fault) → AllSame h h' → MildOutcome h' o → MildOutcome h o
Mild-then h h' (h'', f) same (same', plain) = (AllSame-trans h h' h'' same same', plain)

link_kill-Mild :
    (h : Heap) (source dest : Ref) (i : KillInfo)
    → (h source).state ≡ alive
    → AllCoherent h
    → MildOutcome h (link_kill h source dest i)
unfolding link_kill
link_kill-Mild h source dest i living all =
    elim (Result-cases (add_event (h source) (kill_event i true) true)) [
      | inl (p, sent) ↦
          let h' : Heap = update h source p in
          let p_coherent : IsCoherent p =
            rw sent at
              (add_event-IsCoherent (h source) (kill_event i true) true refl (all source)) in
          let mild : IsMild (h source) (ok p) =
            rw sent at (add_event-IsMild (h source) (kill_event i true) true living) in
          rw (sent, link_kill)
            (Mild-then h h' (on_process h' dest (receive_kill (h' dest) i))
              (update-AllSame h source p mild)
              (on_process-Mild h' dest _ (
                receive_kill-IsMild (h' dest) i
                  (update-AllCoherent h source p all p_coherent dest))))
      | inr (f, failed) ↦
          rw (failed, link_kill)
            (
              AllSame-refl h,
              rw failed at (add_event-IsMild (h source) (kill_event i true) true living),
            )
    ]

notify_sent_signal-Mild :
    (h : Heap) (id : ℤ) (source : Ref) (dest : Option Ref) (sig : ℤ) (thread : Bool)
    → (h source).state ≡ alive
    → AllCoherent h
    → MildOutcome h (notify_sent_signal h id source dest sig thread)
unfolding notify_sent_signal
notify_sent_signal-Mild h id source none sig thread living all =
    on_process-Mild h source _ (add_event-IsMild (h source) _ true living)
notify_sent_signal-Mild h id source (some dest) sig thread living all =
    elim (Bool-cases (is_distinct h source dest id)) [
      | inl distinct ↦ rw distinct (link_kill-Mild h source dest _ living all)
      | inr other ↦
          rw other (on_process-Mild h source _ (add_event-IsMild (h source) _ true living))
    ]

-- The notifications of what a living process does, its end excepted.
abbrev pub IsDeed : Notice → Type 0
IsDeed (waiting id hang) = Unit {0}
IsDeed (failed_wait err) = Unit {0}
IsDeed (forked child) = Unit {0}
IsDeed (execed file args err) = Unit {0}
IsDeed (signaled sender sig) = Unit {0}
IsDeed (sent_signal id dest sig thread) = Unit {0}
IsDeed (moved l) = Unit {0}
IsDeed _ = ⊥

pub notify-Mild :
    (h : Heap) (r : Ref) (n : Notice)
    → IsDeed n
    → (h r).state ≡ alive
    → AllCoherent h
    → MildOutcome h (notify h r n)
unfolding notify notify_failed_wait notify_forked notify_signaled update_location
notify-Mild h r (waiting id hang) d a all =
    on_process-Mild h r _ (notify_waiting-IsMild (h r) id hang a)
notify-Mild h r (failed_wait err) d a all =
    on_process-Mild h r _ (resolved-IsMild (h r) _ (resolve_wait-FaultsInTurn _ (h r).history))
notify-Mild h r (forked child) d a all = on_process-Mild h r _ (add_event-IsMild (h r) _ true a)
notify-Mild h r (execed file args err) d a all =
    on_process-Mild h r _ (notify_exec-IsMild (h r) file args err a)
notify-Mild h r (signaled sender sig) d a all =
    on_process-Mild h r _ (add_event-IsMild (h r) _ false a)
notify-Mild h r (sent_signal id dest sig thread) d a all =
    notify_sent_signal-Mild h id r dest sig thread a all
notify-Mild h r (moved l) d a all = (update-AllSame h r _ (refl, refl), tt)
notify-Mild h r (started pid name args) d a all = elim d [ ]
notify-Mild h r (born pid parent) d a all = elim d [ ]
notify-Mild h r (reaped_child child) d a all = elim d [ ]
notify-Mild h r (ended status) d a all = elim d [ ]
notify-Mild h r orphan d a all = elim d [ ]
