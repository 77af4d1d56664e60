-- ===== src/Tree/CommandLine.antt =====
-- The command line that a process runs, over a history of notifications.
use forktrace.Prelude.{
  sym, ℕ, ◌≡◌, ◌≢◌, refl, ◌∙◌, Bool, inl, inr, ℤ, pos, negsuc, none, some, List, [], ◌∷◌, arith,
  Str, ==ℤ_iff, strs_eq_iff, Option-cases,
}
use forktrace.Event.{Ref, WaitEvent, Kind, KillInfo, Event}
use forktrace.Process.{
  Fault, Process, ok, ◌>>=◌, Result-cases, as_exec, as_wait, add_event, notify_waiting,
  resolve_wait, notify_exec, notify_ended, notify_orphaned, update_location, search_exec,
  command_line, show_command, new_child,
}
use forktrace.Process.Search.{search_wait, without_wait, resolve_wait_lem}
use forktrace.Process.Death.{After}
use forktrace.Tree.{Heap, receive_kill, Notice, started, born, execed, ended, notify}
use forktrace.Tree.Respect.{Respected, Remains, notify-R}

abbrev SameCommand : Process → Process → Type 0
SameCommand p q =
    (search_exec q.history ≡ search_exec p.history)
    × (q.initial_name ≡ p.initial_name)
    × (q.initial_args ≡ p.initial_args)

add_event-SameCommand :
    (p : Process) (k : Kind) (consume : Bool)
    → as_exec k ≡ none
    → After (SameCommand p) (add_event p k consume)
unfolding add_event search_exec
add_event-SameCommand p k consume e = ground arith

notify_waiting-SameCommand :
    (p : Process) (id : ℤ) (hang : Bool) → After (SameCommand p) (notify_waiting p id hang)
unfolding notify_waiting search_exec
notify_waiting-SameCommand p id hang = ground arith

receive_kill-SameCommand : (p : Process) (i : KillInfo) → After (SameCommand p) (receive_kill p i)
unfolding receive_kill search_exec
receive_kill-SameCommand p i = ground arith

as_wait-as_exec : (k : Kind) (w : WaitEvent) → as_wait k ≡ some w → as_exec k ≡ none
as_wait-as_exec k w h = ground arith

module _ (f : WaitEvent → Kind) (harmless : (w : WaitEvent) → as_exec (f w) ≡ none) where
  search_wait-search_exec :
      (lost : Fault) (es es' : List Event)
      → search_wait f lost es ≡ ok es'
      → search_exec es' ≡ search_exec es
  unfolding search_exec
  search_wait-search_exec lost [] es' h = cc
  search_wait-search_exec lost (e ∷ es) es' h = elim (Option-cases (as_wait e.kind)) [
    | inl no_wait ↦ elim (Result-cases (search_wait f lost es)) [
      | inl (rest, r) ↦ ground (arith, no_wait, r, search_wait-search_exec lost es rest r)
      | inr (x, r) ↦ ground (arith, no_wait, r)
    ]
    | inr (w, is_wait) ↦ ground (arith, is_wait, harmless w, as_wait-as_exec e.kind w)
  ]

  resolve-SameCommand :
      (p : Process)
      → After (SameCommand p) (resolve_wait f p.history >>= λ es. ok (record p { history = es }))
  resolve-SameCommand p = elim (Result-cases (resolve_wait f p.history)) [
    | inl (es, r) ↦ rw r (
      search_wait-search_exec (without_wait p.history) p.history es
          (sym (resolve_wait_lem f p.history) ∙ r),
      refl,
      refl,
    )
    | inr (x, r) ↦ rw r tt
  ]

orphaned-SameCommand : (p : Process) → After (SameCommand p) (notify_orphaned p)
unfolding notify_orphaned
orphaned-SameCommand p = ground arith

SameCommand-Respected : Respected SameCommand
unfolding update_location
SameCommand-Respected = record {
  stays = λ p. (refl, refl, refl);
  chains = λ p q s h k. (k.0 ∙ h.0, k.1 ∙ h.1, k.2 ∙ h.2);
  adds = add_event-SameCommand;
  waits = notify_waiting-SameCommand;
  resolves = resolve-SameCommand;
  receives = receive_kill-SameCommand;
  is_reaped = λ p z. (refl, refl, refl);
  is_orphaned = orphaned-SameCommand;
  moves = λ p l. (refl, refl, refl);
}

ended-SameCommand : (p : Process) (status : ℕ) → After (SameCommand p) (notify_ended p status)
unfolding notify_ended search_exec
ended-SameCommand p status = ground arith

failed_exec-SameCommand :
    (p : Process) (file : Str) (args : List Str) (err : ℤ)
    → err ≢ pos 0
    → After (SameCommand p) (notify_exec p file args err)
unfolding notify_exec search_exec
failed_exec-SameCommand p file args err failed = ground (arith, ==ℤ_iff err (pos 0))

-- The notices that leave command lines alone: all but new objects and execs that succeed.
abbrev pub IsQuiet : Notice → Type 0
IsQuiet (started pid name args) = ⊥
IsQuiet (born pid parent) = ⊥
IsQuiet (execed file args err) = err ≢ pos 0
IsQuiet _ = Unit {0}

IsQuiet-Remains : (h : Heap) (r : Ref) (n : Notice) → IsQuiet n → Remains SameCommand h r n
IsQuiet-Remains h r (started pid name args) quiet = quiet
IsQuiet-Remains h r (born pid parent) quiet = quiet
IsQuiet-Remains h r (ended status) quiet = ended-SameCommand (h r) status
IsQuiet-Remains h r (execed file args err) failed =
    failed_exec-SameCommand (h r) file args err failed
IsQuiet-Remains h r _ quiet = tt

command_line_of_same :
    (p q : Process) → SameCommand p q → command_line q (negsuc 0) ≡ command_line p (negsuc 0)
unfolding command_line
command_line_of_same p q h = ground arith

-- A notification that builds no object and is no successful exec leaves the current command line of
-- every process as it was, whether it returns or throws.
pub command_line-notify :
    (h : Heap) (r : Ref) (n : Notice)
    → IsQuiet n
    → (q : Ref) → command_line ((notify h r n).0 q) (negsuc 0) ≡ command_line (h q) (negsuc 0)
command_line-notify h r n quiet q =
    command_line_of_same (h q) _
      (notify-R SameCommand SameCommand-Respected h r n (IsQuiet-Remains h r n quiet) q)

-- After an exec that succeeded and was recorded, be it as a new event or merged with failed tries,
-- the current command line is that of the exec.
pub command_line-notify_exec :
    (p : Process) (file : Str) (args : List Str) (q : Process)
    → notify_exec p file args (pos 0) ≡ ok q
    → command_line q (negsuc 0) ≡ ok (show_command file args)
unfolding notify_exec command_line
command_line-notify_exec p file args q h = grind (arith, strs_eq_iff)

-- A forked child starts with the current command line of its parent.
pub command_line-new_child :
    (pid : ℤ) (r : Ref) (p : Process)
    → command_line (new_child pid r p) (negsuc 0) ≡ command_line p (negsuc 0)
unfolding command_line new_child
command_line-new_child pid r p = ground arith
