-- ===== src/Tracer/Stops.antt =====
-- Waiting for a tracee and resuming it (src/tracer/tracer.cpp).
use forktrace.Prelude.{ℕ, ℤ, Bool, true, false, not, ◌||◌, ◌==◌, if◌then◌else◌, Option, none, some}
use forktrace.Status.{is_exited, is_signaled, is_stopped, is_syscall_event}
use forktrace.Action.{
  bad_trace, system_error, assertion, done, raised, Outcome, M, ◌>>=◌, ◌>>◌, give, throw,
}
use forktrace.Kernel.{Sys, got, failed, Kernel, echild}
use forktrace.Ptrace.{resume_tracee}
use forktrace.Tree.{ended}
use forktrace.Tracer.{
  World, Tracee, running, stopped, dead, is_stopped_run, is_dead, is_leader, lift, tell, tracee,
  modify, erase,
}

-- What `resume_tracee` and others give, as a Boolean.
abbrev pub is_some : {A : Type 0} → Option A → Bool
is_some none = false
is_some (some a) = true

-- `waitpid`: ECHILD means that something interfered.
abbrev pub awaited : {K A : Type 0} → ℤ → K × Sys A → K × Outcome A
awaited pid (k, got a) = (k, done a)
awaited pid (k, failed e) = (k, raised (if e == echild then bad_trace pid else system_error e))

module _ {K : Type 0} (kernel : Kernel K) where
  -- `throw diagnose_bad_event(tracee, status, ...)`: it may read the registers for its message.
  unfoldable pub throw_bad_event : {A : Type 0} → ℤ → ℕ → M (World K) A
  throw_bad_event pid status w =
      if is_syscall_event status
      then (record w { system = (kernel.get_regs pid w.system).0 }, raised (bad_trace pid))
      else (w, raised (bad_trace pid))

  -- `_resume`.
  unfoldable pub resume : ℤ → M (World K) Bool
  resume pid = do
    t ← tracee pid
    if not (is_stopped_run t.run) then give true else (do
      o ← lift (resume_tracee kernel pid t.signal)
      modify pid (λ t'. record t' { signal = 0; run = running })
      give (is_some o))

  -- The end of a tracee in `_handle_wait_notification`.
  unfoldable pub record_end : ℤ → Tracee → ℕ → M (World K) (Unit {0})
  record_end pid t status = do
    tell t.process (ended status)
    λ w.
        (if is_leader pid w.leaders
          then erase pid w
          else modify pid (λ t'. record t' { run = dead }) w)

  -- `_handle_wait_notification(tracee, status)`, with what is done for a tracee that has stopped.
  unfoldable pub handle_notification :
      (ℤ → ℕ → M (World K) (Unit {0})) → ℤ → ℕ → M (World K) (Unit {0})
  handle_notification handle_stopped pid status = do
    t ← tracee pid
    if is_dead t.run
        then throw_bad_event pid status
        else if is_exited status || is_signaled status
        then record_end pid t status
        else if not (is_stopped status)
        then throw_bad_event pid status
        else (do modify pid (λ t'. record t' { run = stopped }); handle_stopped pid status)

  -- The notification of a status that is known not to be a stop.
  unfoldable pub handle_change : ℤ → ℕ → M (World K) (Unit {0})
  handle_change = handle_notification (λ pid status. throw assertion)

  -- `_wait_for_stop`: the status, or `none` where the tracee has ended.
  unfoldable pub wait_for_stop : ℤ → M (World K) (Option ℕ)
  wait_for_stop pid = do
    status ← lift (λ k. awaited pid (kernel.wait_for pid k))
    if is_stopped status
        then (do modify pid (λ t. record t { run = stopped }); give (some status))
        else (do handle_change pid status; give none)

  -- `_expect_ended`.
  unfoldable pub expect_ended : ℤ → M (World K) (Unit {0})
  expect_ended pid = do
    status ← lift (λ k. awaited pid (kernel.wait_for pid k))
    if not (is_exited status || is_signaled status)
        then throw_bad_event pid status
        else handle_change pid status

  -- `!_resume(tracee) || !_wait_for_stop(tracee, status)`.
  unfoldable pub resume_until_stop : ℤ → M (World K) (Option ℕ)
  resume_until_stop pid = do ok' ← resume pid; if ok' then wait_for_stop pid else give none
