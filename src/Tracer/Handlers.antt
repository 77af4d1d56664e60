-- ===== src/Tracer/Handlers.antt =====
-- What the tracer does at the entry of the system calls that it follows: forks, execs, signals that
-- are sent, and locations (src/tracer/tracer.cpp).
use forktrace.Prelude.{
  ℕ, ◌-◌, ◌^◌, ℤ, pos, neg_ℤ, to_int, ◌==ℤ◌, Bool, true, false, not, ◌&&◌, ◌||◌, ◌==◌,
  if◌then◌else◌, Option, none, some, map, List, [], Str,
}
use forktrace.Status.{
  is_signaled, is_stopped, wtermsig, wstopsig, is_fork_event, is_exec_event, is_syscall_event,
}
use forktrace.Util.Escape.{escaped_string}
use forktrace.Event.{Ref}
use forktrace.Tree.{born, forked, execed, sent_signal, moved}
use forktrace.Action.{
  Outcome, bad_trace, exited, done, raised, M, ◌>>=◌, ◌>>◌, give, throw, if_some,
}
use forktrace.Kernel.{Kernel, sigkill, sigstop}
use forktrace.Ptrace.{found, get_syscall_ret}
use forktrace.Ptrace.Memory.{copy_string_from_tracee, copy_string_array_from_tracee}
use forktrace.Tracer.{
  World, Tracee, BlockingCall, stopped, syscall_none, set_execed, lift, tell, tracee, modify,
  add_tracee, new_object,
}
use forktrace.Tracer.Stops.{
  resume, wait_for_stop, resume_until_stop, expect_ended, handle_change, throw_bad_event, awaited,
}
use forktrace.Tracer.WaitCall.{prepare, is_bad_address}

-- ERESTARTNOINTR.
abbrev pub erestartnointr : ℤ
erestartnointr = pos 513

-- The receiver is the tracee that has the pid, if there is one.
abbrev pub receiver : Option Tracee → Option Ref
receiver none = none
receiver (some t) = some t.process

module _ {K : Type 0} where
  -- The strings of an exec: the file, which is only read behind the arguments, and these. A bad
  -- address leaves what was read so far.
  abbrev pub with_file : List Str → K × Str × Outcome Bool → K × Outcome (Option (Str × List Str))
  with_file args (k, file, done true) = (k, done (some (file, args)))
  with_file args (k, file, done false) = (k, done none)
  with_file args (k, file, raised e) =
      if is_bad_address e then (k, done (some (file, args))) else (k, raised e)

  abbrev pub with_args :
      (K → K × Str × Outcome Bool)
      → K × List Str × Outcome Bool
      → K × Outcome (Option (Str × List Str))
  with_args read_file (k, args, done true) = with_file args (read_file k)
  with_args read_file (k, args, done false) = (k, done none)
  with_args read_file (k, args, raised e) =
      if is_bad_address e then (k, done (some ([], args))) else (k, raised e)

  -- A string whose address is not forgiven.
  abbrev pub strictly : K × Str × Outcome Bool → K × Outcome (Option Str)
  strictly (k, s, done true) = (k, done (some s))
  strictly (k, s, done false) = (k, done none)
  strictly (k, s, raised e) = (k, raised e)

module _ {K : Type 0} (kernel : Kernel K) (fuel : ℕ) where
  abbrev pub leave_syscall : ℤ → M (World K) (Unit {0})
  leave_syscall pid = modify pid (λ t. record t { syscall = syscall_none })

  -- `_handle_failed_fork`: a fork that a signal interrupted is tried again; after any other failure
  -- the program ends.
  unfoldable pub handle_failed_fork : ℤ → M (World K) (Unit {0})
  handle_failed_fork pid = do
    o ← lift (get_syscall_ret kernel pid)
    if_some o (expect_ended kernel pid) (λ retval.
        if to_int (2 ^ 64 - retval) ==ℤ erestartnointr
        then (resume kernel pid >> give tt)
        else throw exited)

  -- `_handle_fork` from the fork event on, for the child that the event names.
  unfoldable pub adopt : ℤ → ℤ → M (World K) (Unit {0})
  adopt pid child = do
    t ← tracee pid
    process ← new_object (born child t.process)
    add_tracee child process
    tell t.process (forked process)
    o ← wait_for_stop kernel child
    if_some o (give tt) (λ status.
        if not (wstopsig status == sigstop) then throw_bad_event kernel child status else (do
          o' ← resume_until_stop kernel pid
          if_some o' (give tt) (λ status'.
              if not (is_syscall_event status')
              then throw_bad_event kernel pid status'
              else leave_syscall pid)))

  unfoldable pub handle_fork : ℤ → M (World K) (Unit {0})
  handle_fork pid = do
    o ← resume_until_stop kernel pid
    if_some o (give tt) (λ status.
        if not (is_fork_event status)
        then (if not (is_syscall_event status)
            then throw_bad_event kernel pid status
            else (leave_syscall pid >> handle_failed_fork pid))
        else (do
          o' ← lift (λ k. found (kernel.get_event_message pid k))
          if_some o' (expect_ended kernel pid) (λ child. adopt pid (to_int child))))

  unfoldable pub exec_strings : ℤ → ℕ → ℕ → M K (Option (Str × List Str))
  exec_strings pid path argv k =
      with_args (copy_string_from_tracee kernel pid fuel path)
        (copy_string_array_from_tracee kernel pid fuel fuel argv k)

  -- An exec that has failed, at its syscall-exit-stop.
  unfoldable pub fail_exec : ℤ → Str → List Str → ℕ → M (World K) (Unit {0})
  fail_exec pid file args status =
      if not (is_syscall_event status) then throw_bad_event kernel pid status else (do
        leave_syscall pid
        o ← lift (get_syscall_ret kernel pid)
        if_some o (expect_ended kernel pid) (λ retval. do
          t ← tracee pid
          tell t.process (execed file args (neg_ℤ (to_int retval)))))

  abbrev pub mark_execed : ℤ → M (World K) (Unit {0})
  mark_execed pid w = (record w { leaders = set_execed pid true w.leaders }, done tt)

  -- An exec that has succeeded, from its event on.
  unfoldable pub finish_exec : ℤ → Str → List Str → M (World K) (Unit {0})
  finish_exec pid file args = do
    o ← resume_until_stop kernel pid
    if_some o (give tt) (λ status.
        if not (is_syscall_event status) then throw_bad_event kernel pid status else (do
          leave_syscall pid
          t ← tracee pid
          tell t.process (execed file args (pos 0))
          mark_execed pid))

  unfoldable pub handle_exec : ℤ → ℕ → ℕ → M (World K) (Unit {0})
  handle_exec pid path argv = do
    o ← lift (exec_strings pid path argv)
    if_some o (expect_ended kernel pid) (λ strings. do
      o' ← resume_until_stop kernel pid
      if_some o' (give tt) (λ status.
          if is_exec_event status
          then finish_exec pid (escaped_string strings.0) (map escaped_string strings.1)
          else fail_exec pid (escaped_string strings.0) (map escaped_string strings.1) status))

  -- `_initiate_wait`.
  unfoldable pub initiate_wait : ℤ → BlockingCall → M (World K) (Unit {0})
  initiate_wait pid c = do
    t ← tracee pid
    o ← prepare kernel c pid t.process
    if_some o (expect_ended kernel pid) (λ c'. modify pid (λ t'. record t' { call = some c' }))

  -- `_on_sent_signal`.
  unfoldable pub on_sent_signal : ℤ → ℤ → ℤ → Bool → M (World K) (Unit {0})
  on_sent_signal pid target signal thread = do
    t ← tracee pid
    λ w. tell t.process (sent_signal target (receiver (w.tracees target)) signal thread) w

  -- A call of kill and the like that ended its caller. The tracee is looked at once more behind its
  -- end, for an assertion.
  unfoldable pub end_by_own_kill : ℤ → ℤ → ℤ → Bool → ℕ → M (World K) (Unit {0})
  end_by_own_kill pid target signal thread status =
      if not (is_signaled status) || not (wtermsig status == sigkill)
      then throw (bad_trace pid)
      else (do
        (if (target ==ℤ pos 0 || target ==ℤ pid || target ==ℤ neg_ℤ pid) && signal ==ℤ pos sigkill
            then on_sent_signal pid target signal thread
            else give tt)
        handle_change kernel pid status
        t ← tracee pid
        give tt)

  -- A call of kill and the like at its syscall-exit-stop.
  unfoldable pub finish_kill : ℤ → ℤ → ℤ → Bool → M (World K) (Unit {0})
  finish_kill pid target signal thread = do
    modify pid (λ t. record t { run = stopped; syscall = syscall_none })
    o ← lift (get_syscall_ret kernel pid)
    if_some o (expect_ended kernel pid) (λ retval.
        if signal ==ℤ pos 0 || not (retval == 0)
        then (resume kernel pid >> give tt)
        else on_sent_signal pid target signal thread)

  unfoldable pub handle_kill : ℤ → ℤ → ℤ → Bool → M (World K) (Unit {0})
  handle_kill pid target signal thread = do
    ok' ← resume kernel pid
    if not ok' then give tt else (do
      status ← lift (λ k. awaited pid (kernel.wait_for pid k))
      if not (is_stopped status)
          then end_by_own_kill pid target signal thread status
          else if not (is_syscall_event status)
          then throw_bad_event kernel pid status
          else finish_kill pid target signal thread)

  -- `_handle_new_location`.
  unfoldable pub handle_new_location : ℤ → ℕ → ℕ → ℕ → M (World K) (Unit {0})
  handle_new_location pid line function file = do
    o ← lift (λ k. strictly (copy_string_from_tracee kernel pid fuel function k))
    if_some o (expect_ended kernel pid) (λ func. do
      o' ← lift (λ k. strictly (copy_string_from_tracee kernel pid fuel file k))
      if_some o' (expect_ended kernel pid) (λ path. do
        t ← tracee pid
        tell t.process (moved (record { file = path; func = func; line = line }))
        resume kernel pid
        give tt))
