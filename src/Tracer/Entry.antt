-- ===== src/Tracer/Entry.antt =====
-- The stops of a tracee: entry to and exit from a system call, and the delivery of a signal
-- (src/tracer/tracer.cpp).
use forktrace.Prelude.{
  ℕ, ◌%◌, ◌^◌, ℤ, pos, negsuc, to_int, ◌==ℤ◌, Bool, true, false, not, ◌||◌, ◌==◌, if◌then◌else◌,
  none, some, List, get_or,
}
use forktrace.Status.{
  wstopsig, is_syscall_event, is_fork_event, is_clone_event, is_exec_event, is_exit_event,
}
use forktrace.Tree.{signaled}
use forktrace.Action.{bad_trace, M, ◌>>=◌, ◌>>◌, give, throw, if_some}
use forktrace.Kernel.{Kernel, sigchld, sigttin}
use forktrace.Ptrace.{found, which_syscall, set_syscall}
use forktrace.Tracer.{World, syscall_none, lift, tell, tracee, modify}
use forktrace.Tracer.Stops.{resume, expect_ended, throw_bad_event, handle_notification}
use forktrace.Tracer.WaitCall.{wait4_call, waitid_call, finalise}
use forktrace.Tracer.Handlers.{
  handle_fork, handle_exec, handle_kill, handle_new_location, initiate_wait,
}

-- What the tracer does with a system call; `banned` ones are made to fail, others go on.
pub data Policy : Type 0 where
  banned follow_fork follow_clone follow_exec follow_execveat : Policy
  follow_wait4 follow_waitid follow_kill follow_tkill follow_tgkill note_location ignored : Policy

-- The labels of the switch in `_handle_syscall_entry`, with the numbers of src/tracer/system.hpp.
unfoldable pub policy : ℤ → Policy
policy (negsuc n) = if n == 1 then note_location else ignored
policy (pos n) =
    if n == 101
    then banned
    else if n == 109
    then banned
    else if n == 112
    then banned
    else if n == 58
    then banned
    else if n == 57
    then follow_fork
    else if n == 59
    then follow_exec
    else if n == 322
    then follow_execveat
    else if n == 61
    then follow_wait4
    else if n == 247
    then follow_waitid
    else if n == 56
    then follow_clone
    else if n == 62
    then follow_kill
    else if n == 200
    then follow_tkill
    else if n == 234
    then follow_tgkill
    else ignored

-- IS_CLONE_LIKE_A_FORK(args).
abbrev pub is_clone_like_a_fork : List ℕ → Bool
is_clone_like_a_fork args = get_or args 0 0 % 256 == sigchld

module _ {K : Type 0} (kernel : Kernel K) (fuel : ℕ) where
  -- A system call that is made to fail. The tracee may be gone, which shows later.
  unfoldable pub ban : ℤ → M (World K) (Unit {0})
  ban pid = do lift (set_syscall kernel pid syscall_none); resume kernel pid; give tt

  unfoldable pub follow : ℤ → List ℕ → Policy → M (World K) (Unit {0})
  follow pid args banned = ban pid
  follow pid args follow_fork = handle_fork kernel fuel pid
  follow pid args follow_clone =
      if is_clone_like_a_fork args then handle_fork kernel fuel pid else ban pid
  follow pid args follow_exec = handle_exec kernel fuel pid (get_or args 0 0) (get_or args 1 0)
  follow pid args follow_execveat = handle_exec kernel fuel pid (get_or args 1 0) (get_or args 2 0)
  follow pid args follow_wait4 =
      initiate_wait kernel fuel pid
        (wait4_call (get_or args 0 0) (get_or args 1 0) (get_or args 2 0))
  follow pid args follow_waitid =
      initiate_wait kernel fuel pid
        (waitid_call (get_or args 0 0) (get_or args 1 0) (get_or args 2 0) (get_or args 3 0))
  follow pid args follow_kill =
      handle_kill kernel fuel pid (to_int (get_or args 0 0)) (to_int (get_or args 1 0)) false
  follow pid args follow_tkill =
      handle_kill kernel fuel pid (to_int (get_or args 0 0)) (to_int (get_or args 1 0)) true
  follow pid args follow_tgkill =
      handle_kill kernel fuel pid (to_int (get_or args 1 0)) (to_int (get_or args 2 0)) true
  follow pid args note_location =
      handle_new_location kernel fuel pid (get_or args 0 0 % 2 ^ 32) (get_or args 1 0)
        (get_or args 2 0)
  follow pid args ignored = resume kernel pid >> give tt

  -- `_handle_syscall_entry`.
  unfoldable pub handle_syscall_entry : ℤ → ℤ → List ℕ → M (World K) (Unit {0})
  handle_syscall_entry pid syscall args = do
    modify pid (λ t. record t { syscall = syscall })
    follow pid args (policy syscall)

  -- The end of `_handle_syscall_exit`.
  unfoldable pub go_on : ℤ → M (World K) (Unit {0})
  go_on pid = do resume kernel pid; modify pid (λ t. record t { syscall = syscall_none })

  -- `_handle_syscall_exit`.
  unfoldable pub handle_syscall_exit : ℤ → M (World K) (Unit {0})
  handle_syscall_exit pid = do
    t ← tracee pid
    elim t.call [
      | none ↦ go_on pid
      | some c ↦ do
        o ← finalise kernel c pid t.process
        if_some o (expect_ended kernel pid)
            (λ u. do modify pid (λ t'. record t' { call = none }); go_on pid)
    ]

  -- `_handle_signal_stop`.
  unfoldable pub handle_signal_stop : ℤ → ℕ → M (World K) (Unit {0})
  handle_signal_stop pid signal = do
    t ← tracee pid
    if not (t.signal == 0) || signal == sigttin then throw (bad_trace pid) else (do
      o ← lift (λ k. found (kernel.get_sender pid k))
      if_some o (expect_ended kernel pid) (λ sender. do
        tell t.process (signaled sender (pos signal))
        modify pid (λ t'. record t' { signal = signal })))

  -- `_handle_stopped`.
  unfoldable pub handle_stopped : ℤ → ℕ → M (World K) (Unit {0})
  handle_stopped pid status =
      if is_syscall_event status
      then (do
        t ← tracee pid
        if t.syscall ==ℤ syscall_none
            then (do
              o ← lift (which_syscall kernel pid)
              if_some o (expect_ended kernel pid) (λ call. handle_syscall_entry pid call.0 call.1))
            else handle_syscall_exit pid)
      else if is_fork_event status
          || is_clone_event status
          || is_exec_event status
          || is_exit_event status
      then throw_bad_event kernel pid status
      else handle_signal_stop pid (wstopsig status)

  -- `_handle_wait_notification`.
  unfoldable pub handle_wait_notification : ℤ → ℕ → M (World K) (Unit {0})
  handle_wait_notification = handle_notification kernel handle_stopped
