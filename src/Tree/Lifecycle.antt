-- ===== src/Tree/Lifecycle.antt =====
-- The states of a process over a history of notifications.
use forktrace.Prelude.{◌≡◌, ◌≢◌, refl, Bool, true, Bool-cases, inl, inr, ℤ, ℕ, List, [], ◌∷◌, arith}
use forktrace.Event.{Ref, Kind, KillInfo}
use forktrace.Process.{
  Process, State, alive, zombie, reaped, orphaned, Result, ok, fault, ◌>>=◌, is_zombie, add_event,
  notify_waiting, resolve_wait, notify_exec, notify_ended, notify_orphaned, update_location,
}
use forktrace.Process.Death.{After}
use forktrace.Tree.{
  goes_on, Heap, receive_kill, Notice, started, born, execed, ended, notify, notify_all,
}
use forktrace.Tree.Respect.{Respected, Remains, notify-R}

-- What may become of a state: a process that has died stays dead, and one that was reaped or
-- orphaned has reached its end.
abbrev pub Follows : State → State → Type 0
Follows alive t = Unit {0}
Follows zombie t = t ≢ alive
Follows reaped t = t ≡ reaped
Follows orphaned t = t ≡ orphaned

abbrev Onward : Process → Process → Type 0
Onward p q = Follows p.state q.state

Follows-refl : (s : State) → Follows s s
Follows-refl alive = tt
Follows-refl zombie = λ e. cc
Follows-refl reaped = refl
Follows-refl orphaned = refl

Follows-trans : (s t u : State) → Follows s t → Follows t u → Follows s u
Follows-trans alive t u h k = tt
Follows-trans zombie t u h k = ground arith
Follows-trans reaped t u h k = ground arith
Follows-trans orphaned t u h k = ground arith

-- A method that leaves the state alone.
unmoved : (p : Process) (m : Result Process) → After (λ q. q.state ≡ p.state) m → After (Onward p) m
unmoved p (ok q) e = rw e (Follows-refl p.state)
unmoved p (fault f) e = tt

add_event-state :
    (p : Process) (k : Kind) (consume : Bool)
    → After (λ q. q.state ≡ p.state) (add_event p k consume)
unfolding add_event
add_event-state p k consume = ground arith

notify_waiting-state :
    (p : Process) (id : ℤ) (hang : Bool) → After (λ q. q.state ≡ p.state) (notify_waiting p id hang)
unfolding notify_waiting
notify_waiting-state p id hang = ground arith

notify_exec-state :
    (p : Process) (file : List ℕ) (args : List (List ℕ)) (err : ℤ)
    → After (λ q. q.state ≡ p.state) (notify_exec p file args err)
unfolding notify_exec
notify_exec-state p file args err = ground arith

receive_kill-state :
    (p : Process) (i : KillInfo) → After (λ q. q.state ≡ p.state) (receive_kill p i)
unfolding receive_kill
receive_kill-state p i = ground arith

resolve-state :
    (p : Process) (m : Result (List _))
    → After (λ q. q.state ≡ p.state) (m >>= λ es. ok (record p { history = es }))
resolve-state p (ok es) = refl
resolve-state p (fault f) = tt

orphaned-Onward : (p : Process) → After (Onward p) (notify_orphaned p)
unfolding notify_orphaned
orphaned-Onward p = ground arith

Onward-Respected : Respected Onward
unfolding update_location
Onward-Respected = record {
  stays = λ p. Follows-refl p.state;
  chains = λ p q s. Follows-trans p.state q.state s.state;
  adds = λ p k consume _. unmoved p _ (add_event-state p k consume);
  waits = λ p id hang. unmoved p _ (notify_waiting-state p id hang);
  resolves = λ f _ p. unmoved p _ (resolve-state p (resolve_wait f p.history));
  receives = λ p i. unmoved p _ (receive_kill-state p i);
  is_reaped = λ p z. reaps p z;
  is_orphaned = orphaned-Onward;
  moves = λ p l. Follows-refl p.state;
}
  where
    reaps : (p : Process) → is_zombie p.state ≡ true → Onward p (record p { state = reaped })
    reaps p z = ground arith

-- The tracer's side: an end is told of a process that is alive, and no object is built anew.
abbrev pub Permitted : Heap → Ref → Notice → Type 0
Permitted h r (started pid name args) = ⊥
Permitted h r (born pid parent) = ⊥
Permitted h r (ended status) = (h r).state ≡ alive
Permitted h r _ = Unit {0}

abbrev pub AllPermitted : Heap → List (Ref × Notice) → Type 0
AllPermitted h [] = Unit {0}
AllPermitted h ((r, n) ∷ ns) = Permitted h r n × AllPermitted (notify h r n).0 ns

ended-Onward :
    (p : Process) (status : ℕ) → p.state ≡ alive → After (Onward p) (notify_ended p status)
unfolding notify_ended
ended-Onward p status a = ground arith

Permitted-Remains : (h : Heap) (r : Ref) (n : Notice) → Permitted h r n → Remains Onward h r n
Permitted-Remains h r (started pid name args) ok' = ok'
Permitted-Remains h r (born pid parent) ok' = ok'
Permitted-Remains h r (ended status) a = ended-Onward (h r) status a
Permitted-Remains h r (execed file args err) u =
    unmoved (h r) _ (notify_exec-state (h r) file args err)
Permitted-Remains h r _ u = tt

pub notify-Follows :
    (h : Heap) (r : Ref) (n : Notice)
    → Permitted h r n
    → (q : Ref) → Follows (h q).state ((notify h r n).0 q).state
notify-Follows h r n allowed q =
    notify-R Onward Onward-Respected h r n (Permitted-Remains h r n allowed) q

-- Over a history in which no object is built anew and ends are told of living processes only, up to
-- a fault after which the program does not go on if there is one, no process leaves death, and none
-- leaves the reaped or the orphaned state.
pub notify_all-Follows :
    (h : Heap) (ns : List (Ref × Notice))
    → AllPermitted h ns
    → (q : Ref) → Follows (h q).state (notify_all h ns q).state
unfolding notify_all
notify_all-Follows h [] allowed q = Follows-refl (h q).state
notify_all-Follows h ((r, n) ∷ ns) (now, later) q =
    let one = notify-Follows h r n now q in
    elim (Bool-cases (goes_on (notify h r n).1)) [
      | inl y ↦
          rw y (Follows-trans (h q).state _ _ one (notify_all-Follows (notify h r n).0 ns later q))
      | inr n' ↦ rw n' one
    ]
