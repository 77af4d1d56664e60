-- ===== src/Process.antt =====
-- Processes and their histories (src/tracer/process.hpp, src/tracer/process.cpp). A method returns
-- the new process, or the fault that it throws; a method that reaches another process works on the
-- heap (Tree.antt). Logging is left out.
pub mod Death
pub mod Search
use forktrace.Prelude.{
  ℕ, suc, zero, ◌≡◌, refl, ◌⊎◌, inl, inr, ◌-◌, ℤ, pos, negsuc, ◌==ℤ◌, Bool, true, false, not, ◌&&◌,
  ◌||◌, ◌==◌, ltb, if◌then◌else◌, Option, none, some, List, [], ◌∷◌, length, get_elem?, set,
  wrap_sub, ◌+◌, drop, ◌++◌, Str, codes, str_eq, strs_eq,
}
use forktrace.Status.{is_exited, is_signaled, wexitstatus, wtermsig}
use forktrace.Util.{get_base_name, join}
use forktrace.Event.{
  Ref, SourceLocation, WaitEvent, SignalEvent, ExecEvent, Kind, fork_event, wait_event,
  signal_event, exit_event, exec_event, Event, succeeded, new_exec, add_call,
}

pub data State : Type 0 where
  alive zombie reaped orphaned : State

-- `history` is the vector `_events` read from its back: the newest event comes first.
pub record Process : Type 0 where
  pub pid : ℤ
  pub parent : Option Ref
  pub history : List Event
  pub initial_name : Str
  pub initial_args : List Str
  pub state : State
  pub killed : Bool
  pub location : Option SourceLocation

-- How a method fails: it throws a `ProcessTreeError` or the `out_of_range` of `at`, or an `assert`
-- fails, or it does what C++ does not define: it reads outside a vector (`wild_read`), or it uses a
-- reference to an element of a vector that has moved (`dangling_ref`). `no_end` is a loop that does
-- not end.
pub data Fault : Type 0 where
  not_alive wait_changed wait_failed not_zombie out_of_range : Fault
  assertion_failed wild_read dangling_ref no_end : Fault

pub data Result {ℓ} (A : Type ℓ) : Type ℓ where
  ok : A → Result A
  fault : Fault → Result A

infixl 5 ◌>>=◌
abbrev pub ◌>>=◌ {ℓ κ} : {A : Type ℓ} {B : Type κ} → Result A → (A → Result B) → Result B
ok a >>= f = f a
fault e >>= f = fault e

pub Result-cases {ℓ} :
    {A : Type ℓ} (m : Result A) → ((a : A) × (m ≡ ok a)) ⊎ ((f : Fault) × (m ≡ fault f))
Result-cases (ok a) = inl (a, refl)
Result-cases (fault f) = inr (f, refl)

abbrev pub same_flag : Bool → Bool → Bool
same_flag true b = b
same_flag false b = not b

abbrev pub is_alive : State → Bool
is_alive alive = true
is_alive _ = false

abbrev pub is_zombie : State → Bool
is_zombie zombie = true
is_zombie _ = false

abbrev pub as_wait : Kind → Option WaitEvent
as_wait (wait_event w) = some w
as_wait _ = none

abbrev pub as_exec : Kind → Option ExecEvent
as_exec (exec_event x) = some x
as_exec _ = none

abbrev pub as_signal : Kind → Option SignalEvent
as_signal (signal_event s) = some s
as_signal _ = none

-- The loop of `_most_recent_exec`: backwards, to the first exec that succeeded.
unfoldable pub search_exec : List Event → Option ExecEvent
search_exec [] = none
search_exec (e ∷ es) = elim (as_exec e.kind) [
  | none ↦ search_exec es
  | some x ↦ if succeeded x then some x else search_exec es
]

-- `_most_recent_exec(start)`: a negative `start` searches all events, any other those before it.
unfoldable pub most_recent_exec : Process → ℤ → Result (Option ExecEvent)
unfolding search_exec
most_recent_exec p (negsuc n) = ok (search_exec p.history)
most_recent_exec p (pos zero) = ok none
most_recent_exec p (pos (suc n)) =
    let size = length p.history in
    if size == 0
    then ok none
    else if ltb size (suc n)
    then fault out_of_range
    else ok (search_exec (drop (size - suc n) p.history))

-- The constructor for a process without a traced parent.
unfoldable pub new_process : ℤ → Str → List Str → Process
new_process pid name args = record {
  pid = pid;
  parent = none;
  history = [];
  initial_name = name;
  initial_args = args;
  state = alive;
  killed = false;
  location = none;
}

-- The constructor for a forked child: it starts with its parent's current command line.
unfoldable pub new_child : ℤ → Ref → Process → Process
unfolding new_process search_exec
new_child pid r p =
    let child : Process = elim (search_exec p.history) [
      | none ↦ new_process pid p.initial_name p.initial_args
      | some x ↦ new_process pid x.call.file x.args
    ] in
    record child { parent = some r }

-- `_add_event`.
unfoldable pub add_event : Process → Kind → Bool → Result Process
add_event p k consume =
    if is_alive p.state
    then (if consume
        then ok (record p {
          history = record { kind = k; location = p.location } ∷ p.history;
          location = none;
        })
        else ok (record p { history = record { kind = k; location = none } ∷ p.history }))
    else fault not_alive

abbrev pub erestartsys : ℤ
erestartsys = pos 512

-- `notify_waiting`: a wait that a signal interrupted is taken up again, under its old parameters.
unfoldable pub notify_waiting : Process → ℤ → Bool → Result Process
unfolding add_event
notify_waiting p id hang =
    let fresh =
      add_event p (wait_event (record { waited_id = id; error = pos 0; nohang = hang })) true in
    elim p.history [
      | [] ↦ fresh
      | e ∷ es ↦ elim (as_wait e.kind) [
        | none ↦ fresh
        | some w ↦
            if w.error ==ℤ erestartsys
            then (if w.waited_id ==ℤ id && same_flag w.nohang hang
                then ok (record p {
                  history = record e { kind = wait_event (record w { error = pos 0 }) } ∷ es;
                })
                else fault wait_changed)
            else fresh
      ]
    ]

-- `_events[i]`, which is not checked: `none` is a read outside the vector.
unfoldable pub event_at : List Event → ℕ → Option Event
event_at es i = if ltb i (length es) then get_elem? es (length es - suc i) else none

-- An assignment to `_events[i]`.
unfoldable pub put_event : List Event → ℕ → Event → List Event
put_event es i e = set es (length es - suc i) e

-- The loop of `notify_failed_wait` and `notify_reaped`, from the index `i` on, which is a `size_t`:
-- `i >= 0` always holds, and below 0 comes the largest index.
unfoldable pub resolve_from : (WaitEvent → Kind) → ℕ → List Event → ℕ → Result (List Event)
unfolding event_at put_event
resolve_from f zero es i = fault no_end
resolve_from f (suc rounds) es i =
    let further = resolve_from f rounds es (wrap_sub i 1) in
    elim (event_at es i) [
      | none ↦ fault wild_read
      | some e ↦ elim (as_wait e.kind) [
        | none ↦ further
        | some w ↦
            if w.error ==ℤ pos 0
            then ok (put_event es i (record e { kind = f w }))
            else fault wait_failed
      ]
    ]

-- The search for the latest wait, which must not have failed, from the last event on. The rounds
-- are one for each event, and one for the index after the first event's; only a vector of 2 ^ 64
-- events or more has an element there, and goes on.
unfoldable pub resolve_wait : (WaitEvent → Kind) → List Event → Result (List Event)
unfolding resolve_from
resolve_wait f es = resolve_from f (suc (length es)) es (wrap_sub (length es) 1)

unfoldable pub notify_failed_wait : Process → ℤ → Result Process
notify_failed_wait p err =
    resolve_wait (λ w. wait_event (record w { error = err })) p.history >>= λ es.
    ok (record p { history = es })

unfoldable pub notify_forked : Process → Ref → Result Process
unfolding add_event
notify_forked p child = add_event p (fork_event child) true

-- `notify_exec`: another try at the program that the last exec failed to find joins that event.
unfoldable pub notify_exec : Process → Str → List Str → ℤ → Result Process
unfolding add_event get_base_name
notify_exec p file args err =
    let fresh = add_event p (exec_event (new_exec file args err)) true in
    elim p.history [
      | [] ↦ fresh
      | e ∷ es ↦ elim (as_exec e.kind) [
        | none ↦ fresh
        | some x ↦
            if succeeded x || not (strs_eq x.args args)
            then fresh
            else if not (str_eq (get_base_name file) (get_base_name x.call.file))
                || not (strs_eq x.args args)
            then fresh
            else ok
                (record p { history = record e { kind = exec_event (add_call x file err) } ∷ es })
      ]
    ]

-- The end of `notify_ended` for a signal that no event has announced.
end_by_signal : Process → ℕ → Result Process
unfolding add_event
end_by_signal p sig =
    add_event p (signal_event (record { origin = negsuc 0; signal = pos sig; killed = true })) false
    >>= λ q. ok (record q { state = zombie; killed = true })

-- `notify_ended`: a death by the signal that came last promotes that event.
unfoldable pub notify_ended : Process → ℕ → Result Process
unfolding add_event end_by_signal
notify_ended p status =
    if not (is_exited status || is_signaled status)
    then fault assertion_failed
    else if is_exited status
    then (add_event p (exit_event (pos (wexitstatus status))) false >>= λ q.
        ok (record q { state = zombie }))
    else elim p.history [
      | [] ↦ end_by_signal p (wtermsig status)
      | e ∷ es ↦ elim (as_signal e.kind) [
        | none ↦ end_by_signal p (wtermsig status)
        | some s ↦
            if s.signal ==ℤ pos (wtermsig status)
            then ok (record p {
              history = record e { kind = signal_event (record s { killed = true }) } ∷ es;
              killed = true;
              state = zombie;
            })
            else end_by_signal p (wtermsig status)
      ]
    ]

unfoldable pub notify_signaled : Process → ℤ → ℤ → Result Process
unfolding add_event
notify_signaled p sender sig =
    add_event p (signal_event (record { origin = sender; signal = sig; killed = false })) false

unfoldable pub notify_orphaned : Process → Result Process
notify_orphaned p =
    if is_zombie p.state then ok (record p { state = orphaned }) else fault not_zombie

unfoldable pub update_location : Process → SourceLocation → Process
update_location p l = record p { location = some l }

-- The text that `command_line` formats: the name, then the arguments in brackets.
unfoldable pub show_command : Str → List Str → Str
show_command name args = name ++ codes " [ " ++ join b' ' args ++ codes " ]"

-- `command_line(index)`.
unfoldable pub command_line : Process → ℤ → Result Str
unfolding most_recent_exec
command_line p i = most_recent_exec p i >>= λ found. ok (elim found [
  | none ↦ show_command p.initial_name p.initial_args
  | some x ↦ show_command x.call.file x.args
])
