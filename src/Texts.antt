-- ===== src/Texts.antt =====
-- The texts of events, signals and statuses (src/tracer/event.cpp, src/tracer/system.cpp,
-- src/tracer/util.cpp, src/tracer/process.cpp). `none` is a failed assertion or a read out of bounds;
-- the C library's `strerror`, the table of system calls that the build makes, and the tracer's own
-- pid are parameters.
pub mod Death
use mathlib.Core.List.{reverse}
use forktrace.Prelude.{
  ℕ, zero, suc, ◌+◌, ◌<◌, ℤ, pos, negsuc, neg_ℤ, ◌==ℤ◌, is_pos, Bool, true, false, ◌||◌, ◌==◌, ltb,
  if◌then◌else◌, Option, none, some, List, [], ◌∷◌, ◌++◌, length, get_elem?, Str, codes,
}
use forktrace.Util.{join, is_empty}
use forktrace.Status.{
  is_exited, is_signaled, is_stopped, wexitstatus, wtermsig, wstopsig, is_fork_event, is_exec_event,
  is_clone_event, is_exit_event, is_syscall_event,
}
use forktrace.Event.{
  Ref, SourceLocation, WaitEvent, KillInfo, SignalEvent, ExecCall, ExecEvent, Kind, fork_event,
  wait_event, reap_event, raise_event, kill_event, signal_event, exit_event, exec_event, Event,
}
use forktrace.Process.{
  Process, is_alive, State, alive, zombie, reaped, orphaned, command_line, Result, ok, fault,
}
use forktrace.Tree.{Heap}
use forktrace.Diagram.Lines.{◌>>=◌}
use forktrace.Diagram.Events.{show_int}

-- The table of signals.
abbrev pub signals : List Str
signals =
    codes "None"
    ∷ codes "SIGHUP"
    ∷ codes "SIGINT"
    ∷ codes "SIGQUIT"
    ∷ codes "SIGILL"
    ∷ codes "SIGTRAP"
    ∷ codes "SIGABRT"
    ∷ codes "SIGBUS"
    ∷ codes "SIGFPE"
    ∷ codes "SIGKILL"
    ∷ codes "SIGUSR1"
    ∷ codes "SIGSEGV"
    ∷ codes "SIGUSR2"
    ∷ codes "SIGPIPE"
    ∷ codes "SIGALRM"
    ∷ codes "SIGTERM"
    ∷ codes "SIGSTKFLT"
    ∷ codes "SIGCHLD"
    ∷ codes "SIGCONT"
    ∷ codes "SIGSTOP"
    ∷ codes "SIGTSTP"
    ∷ codes "SIGTTIN"
    ∷ codes "SIGTTOU"
    ∷ codes "SIGURG"
    ∷ codes "SIGXCPU"
    ∷ codes "SIGXFSZ"
    ∷ codes "SIGVTALRM"
    ∷ codes "SIGPROF"
    ∷ codes "SIGWINCH"
    ∷ codes "SIGIO"
    ∷ codes "SIGPWR"
    ∷ codes "SIGSYS"
    ∷ []

abbrev pub or_unknown : Option Str → Str
or_unknown none = codes "?????"
or_unknown (some s) = s

-- `get_signal_name`.
unfoldable pub get_signal_name : ℤ → Str
get_signal_name (negsuc n) = codes "?????"
get_signal_name (pos n) = or_unknown (get_elem? signals n)

-- `SyscallInfo`, and the names and numbers of arguments of a table of them.
pub record SyscallInfo : Type 0 where
  pub arg_count : ℕ
  pub name : Str

abbrev pub name_of : Option SyscallInfo → Str
name_of none = codes "?????"
name_of (some i) = i.name

abbrev pub arg_count_of : Option SyscallInfo → Option ℤ
arg_count_of none = none
arg_count_of (some i) = some (pos i.arg_count)

unfoldable pub get_syscall_name : List SyscallInfo → ℤ → Str
get_syscall_name syscalls (pos n) = name_of (get_elem? syscalls n)
get_syscall_name syscalls (negsuc n) = if n == 1 then codes "forktrace" else codes "?????"

unfoldable pub get_syscall_arg_count : List SyscallInfo → ℤ → Option ℤ
get_syscall_arg_count syscalls (negsuc n) = some (negsuc 0)
get_syscall_arg_count syscalls (pos n) =
    if ltb n (length syscalls + 1) then arg_count_of (get_elem? syscalls n) else some (negsuc 0)

-- The number and the name of a signal, as the texts give them.
abbrev pub signal_text : ℤ → Str
signal_text n = get_signal_name n ++ codes " (" ++ show_int n ++ codes ")"

-- `diagnose_wait_status`.
unfoldable pub diagnose_wait_status : ℕ → Str
unfolding get_signal_name show_int
diagnose_wait_status status =
    if is_exited status
    then codes "exited with " ++ show_int (pos (wexitstatus status))
    else if is_signaled status
    then codes "killed by " ++ signal_text (pos (wtermsig status))
    else if is_stopped status
    then (if is_fork_event status
        then codes "fork event"
        else if is_exec_event status
        then codes "exec event"
        else if is_clone_event status
        then codes "clone event"
        else if is_exit_event status
        then codes "exit event"
        else if is_syscall_event status
        then codes "syscall event"
        else codes "stopped by " ++ signal_text (pos (wstopsig status)))
    else codes "unknown status " ++ show_int (pos status)

-- `SourceLocation::to_string`.
unfoldable pub location_text : SourceLocation → Str
unfolding show_int
location_text l = l.file ++ codes ":" ++ l.func ++ codes ":" ++ show_int (pos l.line)

unfoldable pub get_wait_target_string : ℤ → Str
get_wait_target_string id =
    if id ==ℤ negsuc 0
    then codes "any child"
    else if is_pos id
    then show_int id
    else if id ==ℤ pos 0
    then codes "their group"
    else show_int (neg_ℤ id)

abbrev pub kind_text : Bool → Str
kind_text to_thread = if to_thread then codes "thread" else codes "process"

-- The texts of the other events begin with the pid of their process.
unfoldable pub raise_text : ℤ → ℤ → ℤ → Bool → Str
raise_text pid killed_id signal to_thread =
    let sent = show_int pid ++ codes " sent " ++ signal_text signal ++ codes " to " in
    if killed_id ==ℤ negsuc 0
    then sent ++ codes "everyone"
    else if killed_id ==ℤ pos 0
    then sent ++ codes "their group"
    else (if killed_id ==ℤ pid then sent ++ codes "themself" else sent ++ show_int killed_id)
      ++ codes " {as a "
      ++ kind_text to_thread
      ++ codes "}"

-- A `KillEvent` names the sender first, whichever of the two has it.
unfoldable pub kill_text : Heap → KillInfo → Str
kill_text h i =
    show_int (h i.source).pid
    ++ codes " sent "
    ++ signal_text i.signal
    ++ codes " to "
    ++ show_int (h i.dest).pid
    ++ codes " {as a "
    ++ kind_text i.to_thread
    ++ codes "}"

unfoldable pub exit_text : ℤ → ℤ → Str
exit_text pid status = show_int pid ++ codes " exited " ++ show_int status

abbrev pub reap_text : ℤ → WaitEvent → Str → Str
reap_text pid w death =
    show_int pid
    ++ codes " reaped "
    ++ death
    ++ codes " {waited for "
    ++ get_wait_target_string w.waited_id
    ++ (if w.nohang then codes " (WNOHANG)}" else codes "}")

-- `death_event`.
abbrev pub death_event : Process → Option Event
death_event p = if is_alive p.state then none else elim p.history [ [] ↦ none | e ∷ es ↦ some e ]

module _ (strerror : ℤ → Str) (own_pid : ℤ) where
  -- `strerror_s`.
  unfoldable pub strerror_s : ℤ → Str
  strerror_s err =
      if err ==ℤ pos 512
      then codes "ERESTARTNOINTR"
      else if err ==ℤ pos 513
      then codes "ERESTARTSYS"
      else strerror err

  -- The message of a `SystemError`.
  unfoldable pub system_error_text : ℤ → Str → Str
  system_error_text err cause =
      cause ++ codes ": " ++ strerror_s err ++ codes " (errno=" ++ show_int err ++ codes ")"

  -- `to_string` of a `WaitEvent` of the process with this pid, and so on for the other events.
  unfoldable pub wait_text : ℤ → WaitEvent → Str
  wait_text pid w =
      let target = get_wait_target_string w.waited_id in
      let failed = codes "{failed: " ++ strerror_s w.error ++ codes "}" in
      if w.nohang
      then show_int pid
        ++ codes " waited for "
        ++ target
        ++ codes " (WNOHANG) "
        ++ (if w.error ==ℤ pos 0 then codes "{returned 0}" else failed)
      else if w.error ==ℤ pos 0
      then show_int pid ++ codes " started waiting for " ++ target
      else show_int pid ++ codes " waited for " ++ target ++ codes " " ++ failed

  abbrev pub origin_text : ℤ → ℤ → Str
  origin_text pid origin =
      if origin ==ℤ negsuc 0
      then codes " {unknown sender}"
      else if origin ==ℤ pos 0 || origin ==ℤ pid
      then codes " {raised by self}"
      else if origin ==ℤ own_pid
      then codes " {sent by tracer}"
      else codes " {sent by " ++ show_int origin ++ codes "}"

  unfoldable pub signal_event_text : ℤ → SignalEvent → Str
  signal_event_text pid s =
      show_int pid
      ++ (if s.killed then codes " killed by " else codes " received ")
      ++ signal_text s.signal
      ++ origin_text pid s.origin

  -- `ExecCall::to_string`.
  unfoldable pub call_text : ℤ → List Str → ExecCall → Str
  call_text pid args c =
      if c.errcode ==ℤ pos 0
      then show_int pid ++ codes " execed " ++ c.file ++ codes " [ " ++ join b' ' args ++ codes " ]"
      else if is_empty c.file
      then show_int pid ++ codes " failed to exec: " ++ strerror_s c.errcode
      else show_int pid ++ codes " failed to exec " ++ c.file ++ codes ": " ++ strerror_s c.errcode

  unfoldable pub exec_text : ℤ → ExecEvent → Str
  exec_text pid e = elim e.earlier [
    | [] ↦ call_text pid e.args e.call
    | c ∷ cs ↦
        call_text pid e.args e.call
        ++ codes " ("
        ++ show_int (pos (length e.earlier + 1))
        ++ codes " attempts)"
  ]

  -- The virtual `to_string`, of an event of the process `r`: that of a reap asks the child's death
  -- event, at most `fuel` times.
  unfoldable pub event_text : ℕ → Heap → Ref → Kind → Option Str
  event_text zero h r k = none
  event_text (suc fuel) h r (fork_event child) =
      some (show_int (h r).pid ++ codes " forked " ++ show_int (h child).pid)
  event_text (suc fuel) h r (wait_event w) = some (wait_text (h r).pid w)
  event_text (suc fuel) h r (reap_event child w) = death_event (h child) >>= λ e.
      event_text fuel h child e.kind >>= λ death. some (reap_text (h r).pid w death)
  event_text (suc fuel) h r (raise_event id signal to_thread) =
      some (raise_text (h r).pid id signal to_thread)
  event_text (suc fuel) h r (kill_event i sender) = some (kill_text h i)
  event_text (suc fuel) h r (signal_event s) = some (signal_event_text (h r).pid s)
  event_text (suc fuel) h r (exit_event status) = some (exit_text (h r).pid status)
  event_text (suc fuel) h r (exec_event e) = some (exec_text (h r).pid e)

-- `Process::state`.
unfoldable pub state_text : State → Str
state_text alive = codes "alive"
state_text zombie = codes "zombie"
state_text reaped = codes "reaped"
state_text orphaned = codes "orphaned"

-- `Process::to_string`, with the current command line.
unfoldable pub process_text : Process → Result Str
process_text p = elim (command_line p (negsuc 0)) [
  | ok s ↦ ok (show_int p.pid ++ codes " " ++ s)
  | fault f ↦ fault f
]
