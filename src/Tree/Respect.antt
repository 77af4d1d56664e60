-- ===== src/Tree/Respect.antt =====
-- Relations between a process before and after a notification: what each method does, carried over
-- to every process of the tree.
use forktrace.Prelude.{
  ◌≡◌, refl, ◌==◌, ==_iff, Bool, true, false, Bool-cases, inl, inr, ℤ, Option, none, some,
}
use forktrace.Event.{Ref, SourceLocation, WaitEvent, KillInfo, Kind, kill_event, reap_event}
use forktrace.Process.{
  Process, reaped, Result, ok, fault, ◌>>=◌, as_exec, Result-cases, is_zombie, add_event,
  notify_waiting, resolve_wait, notify_failed_wait, notify_forked, notify_exec, notify_ended,
  notify_signaled, notify_orphaned, update_location,
}
use forktrace.Process.Death.{After}
use forktrace.Tree.{
  Heap, update, on_process, notify_reaped, receive_kill, link_kill, is_distinct, notify_sent_signal,
  Notice, started, born, waiting, failed_wait, reaped_child, forked, execed, ended, signaled,
  sent_signal, orphan, moved, notify,
}

-- What a relation must satisfy for the methods that any process may run.
pub record Respected (R : Process → Process → Type 0) : Type 0 where
  pub stays : (p : Process) → R p p
  pub chains : (p q s : Process) → R p q → R q s → R p s
  pub adds :
      (p : Process) (k : Kind) (consume : Bool)
      → as_exec k ≡ none
      → After (R p) (add_event p k consume)
  pub waits : (p : Process) (id : ℤ) (hang : Bool) → After (R p) (notify_waiting p id hang)
  pub resolves :
      (f : WaitEvent → Kind)
      → ((w : WaitEvent) → as_exec (f w) ≡ none)
      → (p : Process)
      → After (R p) (resolve_wait f p.history >>= λ es. ok (record p { history = es }))
  pub receives : (p : Process) (i : KillInfo) → After (R p) (receive_kill p i)
  pub is_reaped : (p : Process) → is_zombie p.state ≡ true → R p (record p { state = reaped })
  pub is_orphaned : (p : Process) → After (R p) (notify_orphaned p)
  pub moves : (p : Process) (l : SourceLocation) → R p (update_location p l)

-- What is left to show of the notifications that a relation may single out.
abbrev pub Remains : (Process → Process → Type 0) → Heap → Ref → Notice → Type 0
Remains R h r (started pid name args) = ⊥
Remains R h r (born pid parent) = ⊥
Remains R h r (execed file args err) = After (R (h r)) (notify_exec (h r) file args err)
Remains R h r (ended status) = After (R (h r)) (notify_ended (h r) status)
Remains R h r _ = Unit {0}

module _ (R : Process → Process → Type 0) (laws : Respected R) where
  update-R : (h : Heap) (r : Ref) (p : Process) → R (h r) p → (q : Ref) → R (h q) (update h r p q)
  update-R h r p step q = elim (Bool-cases (r == q)) [
    | inl same ↦ rw (same, ← (==_iff r q).0 same) step
    | inr other ↦ rw other (laws.stays (h q))
  ]

  on_process-R :
      (h : Heap) (r : Ref) (m : Result Process)
      → After (R (h r)) m
      → (q : Ref) → R (h q) ((on_process h r m).0 q)
  on_process-R h r (ok p) step q = update-R h r p step q
  on_process-R h r (fault f) step q = laws.stays (h q)

  notify_reaped-R : (h : Heap) (self child q : Ref) → R (h q) ((notify_reaped h self child).0 q)
  unfolding notify_reaped
  notify_reaped-R h self child q = elim (Bool-cases (is_zombie (h child).state)) [
    | inl z ↦
        let h' : Heap = update h child (record (h child) { state = reaped }) in
        rw z (
          laws.chains (h q) (h' q) _ (update-R h child _ (laws.is_reaped (h child) z) q)
            (on_process-R h' self _ (laws.resolves (reap_event child) (λ w. refl) (h' self)) q))
    | inr alive ↦ rw alive (laws.stays (h q))
  ]

  link_kill-R :
      (h : Heap) (source dest : Ref) (i : KillInfo) (q : Ref)
      → R (h q) ((link_kill h source dest i).0 q)
  unfolding link_kill
  link_kill-R h source dest i q =
      elim (Result-cases (add_event (h source) (kill_event i true) true)) [
        | inl (p, sent) ↦
            let h' : Heap = update h source p in
            let first : R (h source) p =
              rw sent at (laws.adds (h source) (kill_event i true) true refl) in
            rw (sent, link_kill)
              (laws.chains (h q) (h' q) _ (update-R h source p first q)
                (on_process-R h' dest _ (laws.receives (h' dest) i) q))
        | inr (f, failed) ↦ rw (failed, link_kill) (laws.stays (h q))
      ]

  notify_sent_signal-R :
      (h : Heap) (id : ℤ) (source : Ref) (dest : Option Ref) (sig : ℤ) (thread : Bool) (q : Ref)
      → R (h q) ((notify_sent_signal h id source dest sig thread).0 q)
  unfolding notify_sent_signal
  notify_sent_signal-R h id source none sig thread q =
      on_process-R h source _ (laws.adds (h source) _ true refl) q
  notify_sent_signal-R h id source (some dest) sig thread q =
      elim (Bool-cases (is_distinct h source dest id)) [
        | inl distinct ↦ rw distinct (link_kill-R h source dest _ q)
        | inr unclear ↦ rw unclear (on_process-R h source _ (laws.adds (h source) _ true refl) q)
      ]

  pub notify-R :
      (h : Heap) (r : Ref) (n : Notice) → Remains R h r n → (q : Ref) → R (h q) ((notify h r n).0 q)
  unfolding notify notify_failed_wait notify_forked notify_signaled
  notify-R h r (started pid name args) left q = absurd left
  notify-R h r (born pid parent) left q = absurd left
  notify-R h r (waiting id hang) left q = on_process-R h r _ (laws.waits (h r) id hang) q
  notify-R h r (failed_wait err) left q = on_process-R h r _ (laws.resolves _ (λ w. refl) (h r)) q
  notify-R h r (reaped_child child) left q = notify_reaped-R h r child q
  notify-R h r (forked child) left q = on_process-R h r _ (laws.adds (h r) _ true refl) q
  notify-R h r (execed file args err) left q = on_process-R h r _ left q
  notify-R h r (ended status) left q = on_process-R h r _ left q
  notify-R h r (signaled sender sig) left q = on_process-R h r _ (laws.adds (h r) _ false refl) q
  notify-R h r (sent_signal id dest sig thread) left q =
      notify_sent_signal-R h id r dest sig thread q
  notify-R h r orphan left q = on_process-R h r _ (laws.is_orphaned (h r)) q
  notify-R h r (moved l) left q = update-R h r _ (laws.moves (h r) l) q
