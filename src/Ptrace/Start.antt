-- ===== src/Ptrace/Start.antt =====
-- The start of a tracee, in the parent (src/tracer/ptrace.cpp). The child's half ends in `execvp`.
use forktrace.Prelude.{ℕ, zero, suc, ℤ, ◌==◌, ◌&&◌, Bool, if◌then◌else◌}
use forktrace.Status.{is_exited, is_signaled, is_stopped, wexitstatus, wstopsig}
use forktrace.Action.{
  Outcome, system_error, runtime_error, starved, done, raised, M, ◌>>=◌, ◌>>◌, give, throw,
}
use forktrace.Kernel.{
  Sys, got, failed, Kernel, eperm, esrch, eio, efault, ebusy, einval, sigkill, sigstop,
}
use forktrace.Ptrace.{must}

-- How the child tells the parent of an error, and back.
unfoldable pub errno_to_exit_status : ℕ → ℕ
errno_to_exit_status e =
    if e == ebusy
    then 1
    else if e == efault
    then 2
    else if e == einval
    then 3
    else if e == eio
    then 4
    else if e == eperm
    then 5
    else if e == esrch
    then 6
    else 7

unfoldable pub exit_status_to_errno : ℕ → ℕ
exit_status_to_errno s =
    if s == 1
    then ebusy
    else if s == 2
    then efault
    else if s == 3
    then einval
    else if s == 4
    then eio
    else if s == 5
    then eperm
    else if s == 6
    then esrch
    else 0

-- PTRACER_OPTIONS.
abbrev pub ptracer_options : ℕ
ptracer_options = 0x10001B

-- An exec that the child did not survive is learnt of later; this is the test for a stop by SIGSTOP.
abbrev pub is_sync : ℕ → Bool
is_sync status = is_stopped status && wstopsig status == sigstop

module _ {K : Type 0} (kernel : Kernel K) where
  -- The loop of `kill_and_reap` waits until there is no process left.
  unfoldable pub reap_all : ℕ → ℤ → M K (Unit {0})
  reap_all zero pid k = (k, raised starved)
  reap_all (suc fuel) pid k = elim (kernel.wait_for pid k).1 [
    | got status ↦ reap_all fuel pid (kernel.wait_for pid k).0
    | failed e ↦ ((kernel.wait_for pid k).0, done tt)
  ]

  unfoldable pub kill_and_reap : ℕ → ℤ → M K (Unit {0})
  kill_and_reap fuel pid k = elim (kernel.kill pid sigkill k).1 [
    | got u ↦ reap_all fuel pid (kernel.kill pid sigkill k).0
    | failed e ↦
        if e == esrch
        then reap_all fuel pid (kernel.kill pid sigkill k).0
        else ((kernel.kill pid sigkill k).0, raised (system_error e))
  ]

  unfoldable pub throw_failed_start : {A : Type 0} → ℕ → ℤ → ℕ → M K A
  throw_failed_start fuel pid status =
      if is_exited status
      then throw (system_error (exit_status_to_errno (wexitstatus status)))
      else if is_signaled status
      then throw runtime_error
      else (kill_and_reap fuel pid >> throw runtime_error)

  -- A request without which the tracee is of no use.
  abbrev pub or_kill : ℕ → ℤ → K × Sys (Unit {0}) → K × Outcome (Unit {0})
  or_kill fuel pid (k, got u) = (k, done u)
  or_kill fuel pid (k, failed e) = (kill_and_reap fuel pid >> throw (system_error e)) k

  -- `waitpid`, and the stop that is expected.
  unfoldable pub await_sync : ℕ → ℤ → M K (Unit {0})
  await_sync fuel pid = (λ k. must (kernel.wait_for pid k)) >>= λ status.
      if is_sync status then give tt else throw_failed_start fuel pid status

  -- `start_tracee`, in the parent.
  unfoldable pub start_tracee : ℕ → M K ℤ
  start_tracee fuel = (λ k. must (kernel.fork k)) >>= λ pid.
      await_sync fuel pid
      >> (λ k. or_kill fuel pid (kernel.cont pid k))
      >> await_sync fuel pid
      >> (λ k. or_kill fuel pid (kernel.set_options pid ptracer_options k))
      >> give pid
