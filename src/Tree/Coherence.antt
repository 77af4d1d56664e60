-- ===== src/Tree/Coherence.antt =====
-- What every history of notifications keeps: the states of the processes fit their events.
use forktrace.Prelude.{
  ◌≡◌, inl, inr, refl, ℤ, Bool, true, false, Bool-cases, ◌==◌, Option, none, some, List, [], ◌∷◌,
  arith,
}
use forktrace.Event.{Ref, KillInfo, kill_event, reap_event}
use forktrace.Process.{
  Process, Result, ok, fault, Result-cases, reaped, is_zombie, add_event, notify_forked,
  notify_signaled, update_location, new_process, new_child,
}
use forktrace.Process.Death.{
  IsCoherent, After, add_event-IsCoherent, notify_waiting-IsCoherent, notify_exec-IsCoherent,
  notify_ended-IsCoherent, notify_failed_wait-IsCoherent, resolve_wait-IsCoherent,
  notify_orphaned-IsCoherent,
}
use forktrace.Tree.{
  goes_on, Heap, update, on_process, notify_reaped, receive_kill, link_kill, notify_sent_signal,
  started, born, notify_all, Notice, waiting, failed_wait, reaped_child, forked, execed, ended,
  signaled, sent_signal, orphan, moved, notify, is_distinct,
}

-- Every process of the tree is coherent.
abbrev pub AllCoherent : Heap → Type 0
AllCoherent h = (r : Ref) → IsCoherent (h r)

pub update-AllCoherent :
    (h : Heap) (r : Ref) (p : Process) → AllCoherent h → IsCoherent p → AllCoherent (update h r p)
update-AllCoherent h r p all c q = elim (Bool-cases (r == q)) [
  | inl same ↦ rw same c
  | inr other ↦ rw other (all q)
]

on_process-AllCoherent :
    (h : Heap) (r : Ref) (m : Result Process)
    → AllCoherent h
    → After IsCoherent m
    → AllCoherent (on_process h r m).0
on_process-AllCoherent h r (ok p) all c = update-AllCoherent h r p all c
on_process-AllCoherent h r (fault f) all c = all

reaped-IsCoherent :
    (p : Process)
    → is_zombie p.state ≡ true
    → IsCoherent p
    → IsCoherent (record p { state = reaped })
reaped-IsCoherent p z c = ground arith

notify_reaped-AllCoherent :
    (h : Heap) (self child : Ref) → AllCoherent h → AllCoherent (notify_reaped h self child).0
unfolding notify_reaped
notify_reaped-AllCoherent h self child all = elim (Bool-cases (is_zombie (h child).state)) [
  | inl z ↦
      let h' : Heap = update h child (record (h child) { state = reaped }) in
      let all' : AllCoherent h' =
        update-AllCoherent h child _ all (reaped-IsCoherent (h child) z (all child)) in
      rw z (
        on_process-AllCoherent h' self _ all'
          (resolve_wait-IsCoherent (reap_event child) (λ w. refl) (h' self) (all' self)))
  | inr alive ↦ rw alive all
]

receive_kill-IsCoherent :
    (p : Process) (i : KillInfo) → IsCoherent p → After IsCoherent (receive_kill p i)
unfolding receive_kill
receive_kill-IsCoherent p i c = ground arith

link_kill-AllCoherent :
    (h : Heap) (source dest : Ref) (i : KillInfo)
    → AllCoherent h
    → AllCoherent (link_kill h source dest i).0
unfolding link_kill
link_kill-AllCoherent h source dest i all =
    elim (Result-cases (add_event (h source) (kill_event i true) true)) [
      | inl (p, sent) ↦
          let h' : Heap = update h source p in
          let all' : AllCoherent h' = update-AllCoherent h source p all (
            rw sent at
              (add_event-IsCoherent (h source) (kill_event i true) true refl (all source))) in
          rw (sent, link_kill)
            (on_process-AllCoherent h' dest _ all'
              (receive_kill-IsCoherent (h' dest) i (all' dest)))
      | inr (f, failed) ↦ rw (failed, link_kill) all
    ]

notify_sent_signal-AllCoherent :
    (h : Heap) (id : ℤ) (source : Ref) (dest : Option Ref) (sig : ℤ) (thread : Bool)
    → AllCoherent h
    → AllCoherent (notify_sent_signal h id source dest sig thread).0
unfolding notify_sent_signal
notify_sent_signal-AllCoherent h id source none sig thread all =
    on_process-AllCoherent h source _ all (add_event-IsCoherent (h source) _ true refl (all source))
notify_sent_signal-AllCoherent h id source (some dest) sig thread all =
    elim (Bool-cases (is_distinct h source dest id)) [
      | inl distinct ↦ rw distinct (link_kill-AllCoherent h source dest _ all)
      | inr unclear ↦ rw unclear (
          on_process-AllCoherent h source _ all
            (add_event-IsCoherent (h source) _ true refl (all source)))
    ]

new_child-IsCoherent : (pid : ℤ) (r : Ref) (p : Process) → IsCoherent (new_child pid r p)
unfolding new_child
new_child-IsCoherent pid r p = ground arith

-- Every notification, whether it returns or throws, keeps the whole tree coherent.
pub notify-AllCoherent :
    (h : Heap) (r : Ref) (n : Notice) → AllCoherent h → AllCoherent (notify h r n).0
unfolding notify new_process notify_forked notify_signaled update_location
notify-AllCoherent h r (started pid name args) all = update-AllCoherent h r _ all (refl, refl)
notify-AllCoherent h r (born pid parent) all =
    update-AllCoherent h r _ all (new_child-IsCoherent pid parent (h parent))
notify-AllCoherent h r (waiting id hang) all =
    on_process-AllCoherent h r _ all (notify_waiting-IsCoherent (h r) id hang (all r))
notify-AllCoherent h r (failed_wait err) all =
    on_process-AllCoherent h r _ all (notify_failed_wait-IsCoherent (h r) err (all r))
notify-AllCoherent h r (reaped_child child) all = notify_reaped-AllCoherent h r child all
notify-AllCoherent h r (forked child) all =
    on_process-AllCoherent h r _ all (add_event-IsCoherent (h r) _ true refl (all r))
notify-AllCoherent h r (execed file args err) all =
    on_process-AllCoherent h r _ all (notify_exec-IsCoherent (h r) file args err (all r))
notify-AllCoherent h r (ended status) all =
    on_process-AllCoherent h r _ all (notify_ended-IsCoherent (h r) status (all r))
notify-AllCoherent h r (signaled sender sig) all =
    on_process-AllCoherent h r _ all (add_event-IsCoherent (h r) _ false refl (all r))
notify-AllCoherent h r (sent_signal id dest sig thread) all =
    notify_sent_signal-AllCoherent h id r dest sig thread all
notify-AllCoherent h r orphan all =
    on_process-AllCoherent h r _ all (notify_orphaned-IsCoherent (h r) (all r))
notify-AllCoherent h r (moved l) all = update-AllCoherent h r _ all (all r)

-- Any sequence of notifications, those that throw included, leads from a tree of coherent processes
-- to one, and so does any that ends in a failed assertion, a loop without end, or an access outside a
-- vector or through a dangling reference, to the tree just before it: a process is alive exactly if
-- its history has no death and the killed flag is clear, and of any other the newest event is the
-- only death, by a signal exactly if the flag is set.
pub notify_all-AllCoherent :
    (h : Heap) (ns : List (Ref × Notice)) → AllCoherent h → AllCoherent (notify_all h ns)
unfolding notify_all
notify_all-AllCoherent h [] all = all
notify_all-AllCoherent h ((r, n) ∷ ns) all =
    let one = notify-AllCoherent h r n all in
    elim (Bool-cases (goes_on (notify h r n).1)) [
      | inl y ↦ rw y (notify_all-AllCoherent (notify h r n).0 ns one)
      | inr n' ↦ rw n' one
    ]
