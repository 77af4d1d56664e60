-- ===== src/Tree/Waits.antt =====
-- The protocol of waits: `notify_waiting`, then other events, then `notify_reaped` or
-- `notify_failed_wait`.
use forktrace.Prelude.{
  ◌∙◌, ◌≡◌, ◌≢◌, refl, Bool, true, false, if◌then◌else◌, ◌==◌, ℤ, pos, Option, none, ==ℤ_iff, List,
  [], ◌∷◌, ◌++◌, arith,
}
use forktrace.Event.{Ref, SourceLocation, WaitEvent, Kind, Event, wait_event, reap_event}
use forktrace.Process.{
  Fault, Process, zombie, is_zombie, reaped, ok, fault, as_wait, notify_waiting, resolve_wait,
}
use forktrace.Process.Search.{search_wait, resolve_wait_lem}
use forktrace.Process.Death.{is_none}
use forktrace.Tree.{Heap, update, notify_reaped}

abbrev pub no_wait : List Event → Bool
no_wait [] = true
no_wait (e ∷ es) = if is_none (as_wait e.kind) then no_wait es else false

abbrev pub wait_at : WaitEvent → Option SourceLocation → Event
wait_at w loc = record { kind = wait_event w; location = loc }

-- The search passes over other events and replaces the wait in its place.
search_wait-append :
    (f : WaitEvent → Kind) (lost : Fault) (new old : List Event) (w : WaitEvent)
    (loc : Option SourceLocation)
    → no_wait new ≡ true
    → w.error ≡ pos 0
    → search_wait f lost (new ++ wait_at w loc ∷ old)
      ≡ ok (new ++ record { kind = f w; location = loc } ∷ old)
search_wait-append f lost [] old w loc h e = ground arith
search_wait-append f lost (x ∷ new) old w loc h e =
    ground (arith, search_wait-append f lost new old w loc)

resolve_wait-append :
    (f : WaitEvent → Kind) (new old : List Event) (w : WaitEvent) (loc : Option SourceLocation)
    → no_wait new ≡ true
    → w.error ≡ pos 0
    → resolve_wait f (new ++ wait_at w loc ∷ old)
      ≡ ok (new ++ record { kind = f w; location = loc } ∷ old)
resolve_wait-append f new old w loc h e =
    resolve_wait_lem f _ ∙ search_wait-append f _ new old w loc h e

search_wait-no_wait :
    (f : WaitEvent → Kind) (lost : Fault) (es : List Event)
    → no_wait es ≡ true
    → search_wait f lost es ≡ fault lost
search_wait-no_wait f lost [] h = refl
search_wait-no_wait f lost (e ∷ es) h = ground (arith, search_wait-no_wait f lost es)

abbrev newest_location : List Event → Option SourceLocation
newest_location [] = none
newest_location (e ∷ es) = e.location

abbrev older : List Event → List Event
older [] = []
older (e ∷ es) = es

-- A wait that returns leaves an open wait as the newest event: a new one, which takes the pending
-- source location, or the one that a signal had interrupted, which keeps its own.
pub notify_waiting_opens :
    (p q : Process) (id : ℤ) (hang : Bool)
    → notify_waiting p id hang ≡ ok q
    → (loc : Option SourceLocation) × (old : List Event) × (q.history
        ≡ wait_at (record { waited_id = id; error = pos 0; nohang = hang }) loc ∷ old)
unfolding notify_waiting
notify_waiting_opens p q id hang h =
    (newest_location q.history, older q.history, grind (arith, ==ℤ_iff))

-- A zombie is reaped by a process whose latest wait has not failed: the reaping takes the wait's
-- place and location, the events around it stay, the child is reaped, and no other process changes.
pub notify_reaped_resolves :
    (h : Heap) (self child : Ref) (new old : List Event) (w : WaitEvent)
    (loc : Option SourceLocation)
    → self ≢ child
    → (h child).state ≡ zombie
    → (h self).history ≡ new ++ wait_at w loc ∷ old
    → no_wait new ≡ true
    → w.error ≡ pos 0
    → notify_reaped h self child ≡ (
      update (update h child (record (h child) { state = reaped })) self (record (h self) {
        history = new ++ record { kind = reap_event child w; location = loc } ∷ old;
      }),
      none,
    )
unfolding notify_reaped
notify_reaped_resolves h self child new old w loc distinct z shape quiet open' =
    rw (is_z, other, shape, resolve_wait-append (reap_event child) new old w loc quiet open')
  where
    is_z : is_zombie (h child).state ≡ true
    is_z = rw z

    other : (child == self) ≡ false
    other = ground (arith, distinct)
