-- ===== src/Tree.antt =====
-- The process tree: the processes on a heap, and the notifications that reach two of them
-- (src/tracer/process.cpp). Where a notification throws, the heap that it leaves comes back too.
pub mod Coherence
pub mod Respect
pub mod Lifecycle
pub mod CommandLine
pub mod Waits
pub mod Capacity
pub mod Signals
use forktrace.Prelude.{
  ℕ, zero, suc, ◌+◌, max, length, ℤ, ◌==ℤ◌, Bool, true, false, not, ◌&&◌, ◌==◌, if◌then◌else◌,
  Option, none, some, List, [], ◌∷◌, Str,
}
use forktrace.Event.{Ref, SourceLocation, KillInfo, reap_event, raise_event, kill_event, Event}
use forktrace.Process.{
  Process, reaped, Fault, not_zombie, assertion_failed, wild_read, dangling_ref, no_end, Result, ok,
  fault, ◌>>=◌, is_alive, is_zombie, add_event, notify_waiting, resolve_wait, notify_failed_wait,
  notify_forked, new_process, new_child, notify_exec, notify_ended, notify_signaled,
  notify_orphaned, update_location,
}

abbrev pub Heap : Type 0
Heap = Ref → Process

abbrev pub update : Heap → Ref → Process → Heap
update h r p q = if r == q then p else h q

abbrev pub Outcome : Type 0
Outcome = Heap × Option Fault

-- A method of one process, called on the heap.
abbrev pub on_process : Heap → Ref → Result Process → Outcome
on_process h r (ok p) = (update h r p, none)
on_process h r (fault f) = (h, some f)

-- `notify_reaped`: the child is marked before the search for the wait, so it stays marked where the
-- search fails.
unfoldable pub notify_reaped : Heap → Ref → Ref → Outcome
notify_reaped h self child =
    let h' = update h child (record (h child) { state = reaped }) in
    if is_zombie (h child).state
    then on_process h' self (
        resolve_wait (reap_event child) (h' self).history >>= λ es.
        ok (record (h' self) { history = es }))
    else (h, some not_zombie)

-- The room of a vector that `push_back` has brought to `n` elements: where there is no room left,
-- it moves its elements to twice the room.
unfoldable pub capacity : ℕ → ℕ
capacity zero = 0
capacity (suc n) = let room = capacity n in if room == n then n + max n 1 else room

-- Does the next `push_back` move the elements?
unfoldable pub is_full : ℕ → Bool
unfolding capacity
is_full n = capacity n == n

-- The receiver's half of `notify_sent_signal`: in the history of a receiver that has died, the event
-- is swapped with the death, by a reference to the death that was taken before the `push_back`.
-- Where that moved the elements, the swap is through a reference to freed memory.
unfoldable pub receive_kill : Process → KillInfo → Result Process
receive_kill p i =
    let e : Event = record { kind = kill_event i false; location = none } in
    if is_alive p.state then ok (record p { history = e ∷ p.history }) else elim p.history [
      | [] ↦ fault assertion_failed
      | death ∷ es ↦
          if is_full (length p.history)
          then fault dangling_ref
          else ok (record p { history = death ∷ e ∷ es })
    ]

-- Both halves, the sender's first.
unfoldable pub link_kill : Heap → Ref → Ref → KillInfo → Outcome
unfolding add_event
link_kill h source dest i = elim (add_event (h source) (kill_event i true) true) [
  | fault f ↦ (h, some f)
  | ok p ↦ let h' = update h source p in on_process h' dest (receive_kill (h' dest) i)
]

-- The guard of `notify_sent_signal`: is the receiver another process, and the one named?
abbrev pub is_distinct : Heap → Ref → Ref → ℤ → Bool
is_distinct h source dest id = not (dest == source) && (h dest).pid ==ℤ id

-- `notify_sent_signal`: without a clear receiver in the tree, the sender alone gets an event.
unfoldable pub notify_sent_signal : Heap → ℤ → Ref → Option Ref → ℤ → Bool → Outcome
unfolding add_event
notify_sent_signal h id source none sig thread =
    on_process h source (add_event (h source) (raise_event id sig thread) true)
notify_sent_signal h id source (some dest) sig thread =
    if is_distinct h source dest id
    then link_kill h source dest
        (record { source = source; dest = dest; signal = sig; to_thread = thread })
    else on_process h source (add_event (h source) (raise_event id sig thread) true)

-- The notifications that the tracer gives, to the process that they are about. The first two are
-- the constructors of `Process`, which run at the address of the new object.
pub data Notice : Type 0 where
  started : ℤ → Str → List Str → Notice
  born : ℤ → Ref → Notice
  waiting : ℤ → Bool → Notice
  failed_wait : ℤ → Notice
  reaped_child : Ref → Notice
  forked : Ref → Notice
  execed : Str → List Str → ℤ → Notice
  ended : ℕ → Notice
  signaled : ℤ → ℤ → Notice
  sent_signal : ℤ → Option Ref → ℤ → Bool → Notice
  orphan : Notice
  moved : SourceLocation → Notice

unfoldable pub notify : Heap → Ref → Notice → Outcome
notify h r (started pid name args) = (update h r (new_process pid name args), none)
notify h r (born pid parent) = (update h r (new_child pid parent (h parent)), none)
notify h r (waiting id hang) = on_process h r (notify_waiting (h r) id hang)
notify h r (failed_wait err) = on_process h r (notify_failed_wait (h r) err)
notify h r (reaped_child child) = notify_reaped h r child
notify h r (forked child) = on_process h r (notify_forked (h r) child)
notify h r (execed file args err) = on_process h r (notify_exec (h r) file args err)
notify h r (ended status) = on_process h r (notify_ended (h r) status)
notify h r (signaled sender sig) = on_process h r (notify_signaled (h r) sender sig)
notify h r (sent_signal id dest sig thread) = notify_sent_signal h id r dest sig thread
notify h r orphan = on_process h r (notify_orphaned (h r))
notify h r (moved l) = (update h r (update_location (h r) l), none)

-- Does the program go on after a notification? What is thrown can be caught; after the rest of the
-- faults there is nothing to say.
abbrev pub goes_on : Option Fault → Bool
goes_on (some assertion_failed) = false
goes_on (some wild_read) = false
goes_on (some dangling_ref) = false
goes_on (some no_end) = false
goes_on _ = true

-- A history of notifications: one that throws changes what it had changed before, and no more, and
-- one after which the program does not go on is the last. The heap is that before the fault.
unfoldable pub notify_all : Heap → List (Ref × Notice) → Heap
unfolding notify
notify_all h [] = h
notify_all h ((r, n) ∷ ns) =
    let rest = notify_all (notify h r n).0 ns in
    if goes_on (notify h r n).1 then rest else (notify h r n).0
