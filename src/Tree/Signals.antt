-- ===== src/Tree/Signals.antt =====
-- Signals between two processes of the tree.
use forktrace.Prelude.{
  ◌≡◌, ◌≢◌, Bool, true, false, ◌==◌, ℤ, ==ℤ_iff, Option, none, some, List, [], ◌∷◌, arith, ℕ, ◌^◌,
  length, ◌⊎◌, inl, inr, refl,
}
use forktrace.Event.{Ref, SourceLocation, KillInfo, Kind, Event, kill_event}
use forktrace.Process.{Process, State, alive, dangling_ref, Result, ok, fault, add_event}
use forktrace.Process.Death.{IsCoherent}
use forktrace.Tree.{
  Heap, update, on_process, is_full, receive_kill, is_distinct, link_kill, notify_sent_signal,
}
use forktrace.Tree.Capacity.{is_full-power}

abbrev pub kill_at : KillInfo → Bool → Option SourceLocation → Event
kill_at i sender loc = record { kind = kill_event i sender; location = loc }

-- The receiver's history: its death, if it has died, stays the newest event.
abbrev pub received : State → List Event → Event → List Event
received alive es e = e ∷ es
received _ [] e = e ∷ []
received _ (death ∷ es) e = death ∷ e ∷ es

receive_kill-received :
    (p : Process) (i : KillInfo)
    → IsCoherent p
    → (p.state ≡ alive) ⊎ (is_full (length p.history) ≡ false)
    → receive_kill p i
      ≡ ok (record p { history = received p.state p.history (kill_at i false none) })
unfolding receive_kill
receive_kill-received p i c (inl living) = ground (arith, living)
receive_kill-received p i c (inr room) = ground (arith, room)

receive_kill-full :
    (p : Process) (i : KillInfo)
    → IsCoherent p
    → p.state ≢ alive
    → is_full (length p.history) ≡ true
    → receive_kill p i ≡ fault dangling_ref
unfolding receive_kill
receive_kill-full p i c dead full = ground (arith, dead, full)

add_event-sends :
    (p : Process) (k : Kind)
    → p.state ≡ alive
    → add_event p k true
      ≡ ok (record p {
        history = record { kind = k; location = p.location } ∷ p.history;
        location = none;
      })
unfolding add_event
add_event-sends p k living = ground arith

-- The tree after the sender's half.
abbrev pub sent : Heap → Ref → KillInfo → Heap
sent h source i = update h source (record (h source) {
  history = kill_at i true (h source).location ∷ (h source).history;
  location = none;
})

link_kill_links :
    (h : Heap) (source dest : Ref) (i : KillInfo) (m : Result Process)
    → (source == dest) ≡ false
    → (h source).state ≡ alive
    → receive_kill (h dest) i ≡ m
    → link_kill h source dest i ≡ on_process (sent h source i) dest m
unfolding link_kill
link_kill_links h source dest i m other living e =
    rw (add_event-sends (h source) (kill_event i true) living, link_kill, other, e) refl

module _ (h : Heap) (id : ℤ) (source dest : Ref) (sig : ℤ) (thread : Bool) where
  abbrev info : KillInfo
  info = record { source = source; dest = dest; signal = sig; to_thread = thread }

  both_halves :
      (m : Result Process)
      → dest ≢ source
      → (h dest).pid ≡ id
      → (h source).state ≡ alive
      → receive_kill (h dest) info ≡ m
      → notify_sent_signal h id source (some dest) sig thread
        ≡ on_process (sent h source info) dest m
  unfolding notify_sent_signal
  both_halves m distinct named living e =
      rw clear (link_kill_links h source dest info m other living e)
    where
      other : (source == dest) ≡ false
      other = ground (arith, distinct)

      clear : is_distinct h source dest id ≡ true
      clear = ground (arith, distinct, ==ℤ_iff (h dest).pid id)

-- A signal from a living process to another process of the tree that has the target's pid, that is
-- coherent, and that is alive or whose history's vector has room: both get an event with the same
-- information, the sender's marked so and with its pending location, the receiver's placed before
-- its death if it has died; no other process changes.
pub notify_sent_signal_links :
    (h : Heap) (id : ℤ) (source dest : Ref) (sig : ℤ) (thread : Bool)
    → dest ≢ source
    → (h dest).pid ≡ id
    → (h source).state ≡ alive
    → IsCoherent (h dest)
    → ((h dest).state ≡ alive) ⊎ (is_full (length (h dest).history) ≡ false)
    → let i : KillInfo = record {
      source = source;
      dest = dest;
      signal = sig;
      to_thread = thread;
    } in
      notify_sent_signal h id source (some dest) sig thread ≡ (
        update
            (update h source (record (h source) {
              history = kill_at i true (h source).location ∷ (h source).history;
              location = none;
            }))
            dest
            (record (h dest) {
              history = received (h dest).state (h dest).history (kill_at i false none);
            }),
        none,
      )
notify_sent_signal_links h id source dest sig thread distinct named living c room =
    both_halves h id source dest sig thread _ distinct named living
      (receive_kill-received (h dest) _ c room)

-- A signal from a living process to another process of the tree that has the target's pid, and that
-- is coherent and has died, with a history of 2 ^ k events: the sender gets its event, and then the
-- receiver's death is swapped with its new event through a dangling reference.
pub notify_sent_signal_dangles :
    (h : Heap) (id : ℤ) (source dest : Ref) (sig : ℤ) (thread : Bool) (k : ℕ)
    → dest ≢ source
    → (h dest).pid ≡ id
    → (h source).state ≡ alive
    → IsCoherent (h dest)
    → (h dest).state ≢ alive
    → length (h dest).history ≡ 2 ^ k
    → notify_sent_signal h id source (some dest) sig thread ≡ (
      sent h source (record { source = source; dest = dest; signal = sig; to_thread = thread }),
      some dangling_ref,
    )
notify_sent_signal_dangles h id source dest sig thread k distinct named living c dead size =
    both_halves h id source dest sig thread (fault dangling_ref) distinct named living
      (receive_kill-full (h dest) _ c dead (is_full-power k _ size))
