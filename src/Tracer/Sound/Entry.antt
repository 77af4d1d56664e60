-- ===== src/Tracer/Sound/Entry.antt =====
-- Every stop of a tracee is handled so that the world stays sound.
use forktrace.Prelude.{ℕ, refl, ℤ, pos, ◌==ℤ◌, not, ◌||◌, ◌==◌, Option, none, some, List}
use forktrace.Status.{
  wstopsig, is_syscall_event, is_fork_event, is_clone_event, is_exec_event, is_exit_event,
}
use forktrace.Tree.{signaled}
use forktrace.Action.{◌>>=◌, ◌>>◌, if_some}
use forktrace.Kernel.{Kernel, sigttin}
use forktrace.Tracer.{Tracee, BlockingCall, syscall_none, modify}
use forktrace.Tracer.Stops.{expect_ended}
use forktrace.Tracer.WaitCall.{finalise}
use forktrace.Tracer.Entry.{
  Policy, banned, follow_fork, follow_clone, follow_exec, follow_execveat, follow_wait4,
  follow_waitid, follow_kill, follow_tkill, follow_tgkill, note_location, ignored, policy,
  is_clone_like_a_fork, ban, follow, handle_syscall_entry, go_on, handle_syscall_exit,
  handle_signal_stop, handle_stopped, handle_wait_notification,
}
use forktrace.Tracer.Sound.{IsSound, LiveAs, Live, Triple-then, Keeps}
use forktrace.Tracer.Sound.Plain.{set_syscall-Plain, which_syscall-Plain, found-Plain}
use forktrace.Tracer.Sound.Waits.{finalise-Stays}
use forktrace.Tracer.Sound.Handlers.{
  fork-Keeps, exec-Keeps, initiate_wait-Keeps, kill-Keeps, location-Keeps,
}
use forktrace.Tracer.Sound.Rules.{
  Triple-if, Triple-some, Triple-throw, Triple-from, Live-IsSound, LiveAs-Live, LiveAs-IsSound,
}
use forktrace.Tracer.Sound.Live.{lift-Live, lift-LiveAs, tracee-Live, modify-Live, tell-LiveAs}
use forktrace.Tracer.Sound.Stops.{
  resume-Live, expect_ended-Keeps, notification-Keeps, request-Keeps, bad_event-Keeps, resume-Keeps,
  modify-Keeps,
}

module _ {K : Type 0} (kernel : Kernel K) (fuel : ℕ) where
  ban-Keeps : (pid : ℤ) → Keeps (Live pid) (ban kernel fuel pid)
  unfolding ban
  ban-Keeps pid =
      Triple-then (λ o. Live pid)
        (lift-Live pid _ (set_syscall-Plain kernel pid syscall_none).at_all)
        (λ o. resume-Keeps kernel pid)

  follow-Keeps :
      (pid : ℤ) (args : List ℕ) (p : Policy) → Keeps (Live pid) (follow kernel fuel pid args p)
  unfolding follow
  follow-Keeps pid args banned = ban-Keeps pid
  follow-Keeps pid args follow_fork = fork-Keeps kernel fuel pid
  follow-Keeps pid args follow_clone =
      Triple-if (is_clone_like_a_fork args) (λ e. fork-Keeps kernel fuel pid) (λ e. ban-Keeps pid)
  follow-Keeps pid args follow_exec = exec-Keeps kernel fuel pid _ _
  follow-Keeps pid args follow_execveat = exec-Keeps kernel fuel pid _ _
  follow-Keeps pid args follow_wait4 = initiate_wait-Keeps kernel fuel pid _
  follow-Keeps pid args follow_waitid = initiate_wait-Keeps kernel fuel pid _
  follow-Keeps pid args follow_kill = kill-Keeps kernel fuel pid _ _ _
  follow-Keeps pid args follow_tkill = kill-Keeps kernel fuel pid _ _ _
  follow-Keeps pid args follow_tgkill = kill-Keeps kernel fuel pid _ _ _
  follow-Keeps pid args note_location = location-Keeps kernel fuel pid _ _ _
  follow-Keeps pid args ignored = resume-Keeps kernel pid

  syscall_entry-Keeps :
      (pid syscall : ℤ) (args : List ℕ)
      → Keeps (Live pid) (handle_syscall_entry kernel fuel pid syscall args)
  unfolding handle_syscall_entry
  syscall_entry-Keeps pid syscall args =
      Triple-then (λ u. Live pid) (modify-Live pid _ (λ t e. (refl, e)))
        (λ u. follow-Keeps pid args (policy syscall))

  go_on-Keeps : (pid : ℤ) → Keeps (Live pid) (go_on kernel fuel pid)
  unfolding go_on
  go_on-Keeps pid =
      Triple-then (λ b. Live pid) (resume-Live kernel pid)
        (λ b. modify-Keeps kernel pid _ (λ t e. (refl, e)))

  finished-Keeps :
      (pid : ℤ) (t : Tracee) (c : Option BlockingCall)
      → Keeps (LiveAs pid t) (elim c [
        | none ↦ go_on kernel fuel pid
        | some c' ↦ do
          o ← finalise kernel c' pid t.process
          if_some o
              (expect_ended kernel pid)
              (λ u. do modify pid (λ t'. record t' { call = none }); go_on kernel fuel pid)
      ])
  finished-Keeps pid t none = Triple-from (LiveAs-Live pid t) (go_on-Keeps pid)
  finished-Keeps pid t (some c) =
      Triple-then (λ o. LiveAs pid t) (finalise-Stays kernel pid t c)
        (λ o. Triple-from (LiveAs-Live pid t) (
          Triple-some o (Triple-from (Live-IsSound pid) (expect_ended-Keeps kernel pid)) (λ u.
            Triple-then (λ u'. Live pid) (modify-Live pid _ (λ t' e. (refl, e)))
              (λ u'. go_on-Keeps pid))))

  syscall_exit-Keeps : (pid : ℤ) → Keeps (Live pid) (handle_syscall_exit kernel fuel pid)
  unfolding handle_syscall_exit
  syscall_exit-Keeps pid =
      Triple-then (λ t. LiveAs pid t) (tracee-Live pid) (λ t. finished-Keeps pid t t.call)

  signal_stop-Keeps :
      (pid : ℤ) (signal : ℕ) → Keeps (Live pid) (handle_signal_stop kernel fuel pid signal)
  unfolding handle_signal_stop
  signal_stop-Keeps pid signal =
      Triple-then (λ t. LiveAs pid t) (tracee-Live pid)
        (λ t.
          Triple-if (not (t.signal == 0) || signal == sigttin)
            (λ e. Triple-throw tt (LiveAs-IsSound pid t))
            (λ e.
              Triple-then (λ o. LiveAs pid t)
                (lift-LiveAs pid t _ (found-Plain (kernel.get_sender pid)).at_all)
                (λ o.
                  Triple-some o (Triple-from (LiveAs-IsSound pid t) (expect_ended-Keeps kernel pid))
                    (λ sender.
                      Triple-then (λ u. LiveAs pid t)
                        (tell-LiveAs pid t (signaled sender (pos signal)) tt)
                        (λ u.
                          Triple-from (LiveAs-Live pid t)
                            (modify-Keeps kernel pid _ (λ t' f. (refl, f))))))))

  stopped-Keeps : (pid : ℤ) (status : ℕ) → Keeps (Live pid) (handle_stopped kernel fuel pid status)
  unfolding handle_stopped
  stopped-Keeps pid status =
      Triple-if (is_syscall_event status)
        (λ e.
          Triple-then (λ t. LiveAs pid t) (tracee-Live pid)
            (λ t. Triple-from (LiveAs-Live pid t) (
              Triple-if (t.syscall ==ℤ syscall_none)
                (λ e'.
                  request-Keeps kernel pid (which_syscall-Plain kernel pid)
                    (λ call. syscall_entry-Keeps pid call.0 call.1))
                (λ e'. syscall_exit-Keeps pid))))
        (λ e.
          Triple-if
            (is_fork_event status
              || is_clone_event status
              || is_exec_event status
              || is_exit_event status)
            (λ e'. bad_event-Keeps kernel pid status)
            (λ e'. signal_stop-Keeps pid (wstopsig status)))

  pub wait_notification-Keeps :
      (pid : ℤ) (status : ℕ) → Keeps IsSound (handle_wait_notification kernel fuel pid status)
  unfolding handle_wait_notification
  wait_notification-Keeps pid status =
      notification-Keeps kernel (handle_stopped kernel fuel) pid status (stopped-Keeps pid status)
