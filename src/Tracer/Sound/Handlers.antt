-- ===== src/Tracer/Sound/Handlers.antt =====
-- The handlers of the system calls that are followed keep the world sound.
use forktrace.Prelude.{
  ℕ, ◌-◌, ◌^◌, ◌≡◌, refl, ℤ, pos, neg_ℤ, to_int, ◌==ℤ◌, Bool, not, ◌&&◌, ◌||◌, ◌==◌, if◌then◌else◌,
  Option, some, List, Str,
}
use forktrace.Status.{
  is_signaled, is_stopped, wtermsig, wstopsig, is_fork_event, is_exec_event, is_syscall_event,
}
use forktrace.Event.{Ref}
use forktrace.Tree.{forked, execed, sent_signal, moved}
use forktrace.Action.{◌>>=◌, give, if_some}
use forktrace.Kernel.{Kernel, sigkill, sigstop}
use forktrace.Tracer.{BlockingCall, tell, tracee}
use forktrace.Tracer.Stops.{throw_bad_event, resume_until_stop}
use forktrace.Tracer.Handlers.{
  erestartnointr, receiver, leave_syscall, handle_failed_fork, adopt, handle_fork, fail_exec,
  finish_exec, mark_execed, handle_exec, initiate_wait, on_sent_signal, end_by_own_kill,
  finish_kill, handle_kill, handle_new_location,
}
use forktrace.Tracer.Sound.{IsSound, LiveAs, Live, Triple, Triple-then, Keeps}
use forktrace.Tracer.Sound.Births.{IsProcess, IsNew, new_object-Parent, add_tracee-Both}
use forktrace.Tracer.Sound.Plain.{get_syscall_ret-Plain, awaited-Plain, found-Plain}
use forktrace.Tracer.Sound.Requests.{exec_strings-Plain, strictly-Plain}
use forktrace.Tracer.Sound.Waits.{prepare-Stays}
use forktrace.Tracer.Sound.Rules.{
  Triple-if, Triple-some, Triple-give, Triple-throw, Triple-from, Triple-to, Live-IsSound,
  LiveAs-Live,
}
use forktrace.Tracer.Sound.Live.{
  Both, lift-Live, tracee-Live, tracee-IsSound, modify-Live, tell-LiveAs, tell-Both,
}
use forktrace.Tracer.Sound.Stops.{
  OrSound, Triple-or, resume-Live, wait_for_stop-Both, expect_ended-Keeps, handle_change-Keeps,
  request-Keeps, next_stop-Keeps, bad_event-Keeps, bad_event-lem, resume-Keeps, modify-Keeps,
}

module _ {K : Type 0} (kernel : Kernel K) (fuel : ℕ) where
  pub leave-Live : (pid : ℤ) → Triple (Live pid) (leave_syscall kernel fuel pid) (λ u. Live pid)
  leave-Live pid = modify-Live pid _ (λ t e. (refl, e))

  leave-Keeps : (pid : ℤ) → Keeps (Live pid) (leave_syscall kernel fuel pid)
  leave-Keeps pid = modify-Keeps kernel pid _ (λ t e. (refl, e))

  failed_fork-Keeps : (pid : ℤ) → Keeps (Live pid) (handle_failed_fork kernel fuel pid)
  unfolding handle_failed_fork
  failed_fork-Keeps pid = request-Keeps kernel pid (get_syscall_ret-Plain kernel pid) (λ retval.
      Triple-if (to_int (2 ^ 64 - retval) ==ℤ erestartnointr) (λ e. resume-Keeps kernel pid)
        (λ e. Triple-throw tt (Live-IsSound pid)))

  -- A fork is told to a process that is known to be alive.
  forked-Both :
      (pid child : ℤ) (r process : Ref)
      → Triple {K = K}
          (λ w. Both pid child w × IsProcess pid r w)
          (tell r (forked process))
          (λ u. Both pid child)
  forked-Both pid child r process = record {
    from = λ w p. tell-Both pid child r (forked process) tt w p.0 p.1.2;
  }

  family-Keeps :
      (pid child : ℤ) (o : Option ℕ)
      → Keeps (OrSound (Both child pid) o) (
          if_some o (give tt) (λ status.
            if not (wstopsig status == sigstop) then throw_bad_event kernel child status else (do
              o' ← resume_until_stop kernel pid
              if_some o' (give tt) (λ status'.
                  if not (is_syscall_event status')
                  then throw_bad_event kernel pid status'
                  else leave_syscall kernel fuel pid))))
  family-Keeps pid child o = Triple-or o (Triple-give (λ w s. s)) (λ status.
      Triple-if (not (wstopsig status == sigstop))
        (λ e. bad_event-lem kernel _ _ child status (λ w b. b.0.1.0))
        (λ e.
          Triple-from (λ w b. b.1)
            (next_stop-Keeps kernel pid (λ status'.
              Triple-if (not (is_syscall_event status')) (λ e'. bad_event-Keeps kernel pid status')
                (λ e'. leave-Keeps pid)))))

  adopt-Keeps : (pid child : ℤ) → Keeps (Live pid) (adopt kernel fuel pid child)
  unfolding adopt
  adopt-Keeps pid child =
      Triple-then (λ t. LiveAs pid t) (tracee-Live pid)
        (λ t.
          Triple-then (λ process w. IsNew child process w × Live pid w × IsProcess pid t.process w)
            (new_object-Parent pid child t)
            (λ process.
              Triple-then (λ u w. Both pid child w × IsProcess pid t.process w)
                (add_tracee-Both child pid t.process process)
                (λ u.
                  Triple-then (λ u'. Both pid child) (forked-Both pid child t.process process)
                    (λ u'.
                      Triple-then (OrSound (Both child pid))
                        (Triple-from (λ w b. (b.1, b.0)) (wait_for_stop-Both kernel child pid))
                        (family-Keeps pid child)))))

  pub fork-Keeps : (pid : ℤ) → Keeps (Live pid) (handle_fork kernel fuel pid)
  unfolding handle_fork
  fork-Keeps pid = next_stop-Keeps kernel pid (λ status.
      Triple-if (not (is_fork_event status))
        (λ e.
          Triple-if (not (is_syscall_event status)) (λ e'. bad_event-Keeps kernel pid status)
            (λ e'. Triple-then (λ u. Live pid) (leave-Live pid) (λ u. failed_fork-Keeps pid)))
        (λ e.
          request-Keeps kernel pid (found-Plain (kernel.get_event_message pid))
            (λ child. adopt-Keeps pid (to_int child))))

  -- What the tracee has done is told to its process.
  told-Live :
      (pid : ℤ) (file : Str) (args : List Str) (err : ℤ)
      → Triple {K = K}
          (Live pid)
          (tracee pid >>= λ t. tell t.process (execed file args err))
          (λ u. Live pid)
  told-Live pid file args err =
      Triple-then (λ t. LiveAs pid t) (tracee-Live pid)
        (λ t.
          Triple-to (λ u. LiveAs pid t) (λ u. LiveAs-Live pid t)
            (tell-LiveAs pid t (execed file args err) tt))

  fail_exec-Keeps :
      (pid : ℤ) (file : Str) (args : List Str) (status : ℕ)
      → Keeps (Live pid) (fail_exec kernel fuel pid file args status)
  unfolding fail_exec
  fail_exec-Keeps pid file args status =
      Triple-if (not (is_syscall_event status)) (λ e. bad_event-Keeps kernel pid status)
        (λ e.
          Triple-then (λ u. Live pid) (leave-Live pid)
            (λ u. request-Keeps kernel pid (get_syscall_ret-Plain kernel pid) (λ retval.
              Triple-to (λ u. Live pid) (λ u. Live-IsSound pid)
                (told-Live pid file args (neg_ℤ (to_int retval))))))

  mark_execed-Keeps : (pid : ℤ) → Keeps IsSound (mark_execed kernel fuel pid)
  mark_execed-Keeps pid = record { from = λ w s. s }

  finish_exec-Keeps :
      (pid : ℤ) (file : Str) (args : List Str)
      → Keeps (Live pid) (finish_exec kernel fuel pid file args)
  unfolding finish_exec
  finish_exec-Keeps pid file args = next_stop-Keeps kernel pid (λ status.
      Triple-if (not (is_syscall_event status)) (λ e. bad_event-Keeps kernel pid status)
        (λ e.
          Triple-then (λ u. Live pid) (leave-Live pid)
            (λ u.
              Triple-then (λ t. LiveAs pid t) (tracee-Live pid)
                (λ t.
                  Triple-then (λ u'. LiveAs pid t) (tell-LiveAs pid t (execed file args (pos 0)) tt)
                    (λ u'. Triple-from (λ w l. l.0) (mark_execed-Keeps pid))))))

  pub exec-Keeps :
      (pid : ℤ) (path argv : ℕ) → Keeps (Live pid) (handle_exec kernel fuel pid path argv)
  unfolding handle_exec
  exec-Keeps pid path argv =
      request-Keeps kernel pid (exec_strings-Plain kernel fuel pid path argv) (λ strings.
        next_stop-Keeps kernel pid (λ status.
          Triple-if (is_exec_event status) (λ e. finish_exec-Keeps pid _ _)
            (λ e. fail_exec-Keeps pid _ _ status)))

  pub initiate_wait-Keeps :
      (pid : ℤ) (c : BlockingCall) → Keeps (Live pid) (initiate_wait kernel fuel pid c)
  unfolding initiate_wait
  initiate_wait-Keeps pid c =
      Triple-then (λ t. LiveAs pid t) (tracee-Live pid)
        (λ t.
          Triple-then (λ o. LiveAs pid t) (prepare-Stays kernel pid t c)
            (λ o. Triple-from (LiveAs-Live pid t) (
              Triple-some o (Triple-from (Live-IsSound pid) (expect_ended-Keeps kernel pid))
                (λ c'. modify-Keeps kernel pid _ (λ t' e. (refl, e))))))

  sent_signal-Live :
      (pid target signal : ℤ) (thread : Bool)
      → Triple (Live pid) (on_sent_signal kernel fuel pid target signal thread) (λ u. Live pid)
  unfolding on_sent_signal
  sent_signal-Live pid target signal thread =
      Triple-then (λ t. LiveAs pid t) (tracee-Live pid)
        (λ t.
          Triple-to (λ u. LiveAs pid t) (λ u. LiveAs-Live pid t)
            (record {
              from = λ w.
                  (tell-LiveAs pid t
                      (sent_signal target (receiver (w.tracees target)) signal thread) tt).from
                    w;
            }))

  own_kill-Keeps :
      (pid target signal : ℤ) (thread : Bool) (status : ℕ)
      → Keeps (Live pid) (end_by_own_kill kernel fuel pid target signal thread status)
  unfolding end_by_own_kill
  own_kill-Keeps pid target signal thread status =
      Triple-if (not (is_signaled status) || not (wtermsig status == sigkill))
        (λ e. Triple-throw tt (Live-IsSound pid))
        (λ e.
          Triple-then (λ u. Live pid)
            (Triple-if
              ((target ==ℤ pos 0 || target ==ℤ pid || target ==ℤ neg_ℤ pid)
                && signal ==ℤ pos sigkill)
              (λ e'. sent_signal-Live pid target signal thread) (λ e'. Triple-give (λ w l. l)))
            (λ u.
              Triple-then (λ u'. IsSound)
                (Triple-from (Live-IsSound pid) (handle_change-Keeps kernel pid status))
                (λ u'.
                  Triple-then (λ t w. IsSound w × (w.tracees pid ≡ some t)) (tracee-IsSound pid)
                    (λ t. Triple-give (λ w p. p.0)))))

  finish_kill-Keeps :
      (pid target signal : ℤ) (thread : Bool)
      → Keeps (Live pid) (finish_kill kernel fuel pid target signal thread)
  unfolding finish_kill
  finish_kill-Keeps pid target signal thread =
      Triple-then (λ u. Live pid) (modify-Live pid _ (λ t e. (refl, refl)))
        (λ u. request-Keeps kernel pid (get_syscall_ret-Plain kernel pid) (λ retval.
          Triple-if (signal ==ℤ pos 0 || not (retval == 0)) (λ e. resume-Keeps kernel pid)
            (λ e.
              Triple-to (λ u'. Live pid) (λ u'. Live-IsSound pid)
                (sent_signal-Live pid target signal thread))))

  pub kill-Keeps :
      (pid target signal : ℤ) (thread : Bool)
      → Keeps (Live pid) (handle_kill kernel fuel pid target signal thread)
  unfolding handle_kill
  kill-Keeps pid target signal thread =
      Triple-then (λ b. Live pid) (resume-Live kernel pid)
        (λ b.
          Triple-if (not b) (λ e. Triple-give (Live-IsSound pid))
            (λ e.
              Triple-then (λ s. Live pid)
                (lift-Live pid _ (awaited-Plain pid (kernel.wait_for pid)).at_all)
                (λ status.
                  Triple-if (not (is_stopped status))
                    (λ e'. own_kill-Keeps pid target signal thread status)
                    (λ e'.
                      Triple-if (not (is_syscall_event status))
                        (λ f. bad_event-Keeps kernel pid status)
                        (λ f. finish_kill-Keeps pid target signal thread)))))

  pub location-Keeps :
      (pid : ℤ) (line function file : ℕ)
      → Keeps (Live pid) (handle_new_location kernel fuel pid line function file)
  unfolding handle_new_location
  location-Keeps pid line function file =
      request-Keeps kernel pid (strictly-Plain kernel fuel pid function) (λ func.
        request-Keeps kernel pid (strictly-Plain kernel fuel pid file) (λ path.
          Triple-then (λ t. LiveAs pid t) (tracee-Live pid)
            (λ t.
              Triple-then (λ u. LiveAs pid t) (tell-LiveAs pid t (moved _) tt)
                (λ u. Triple-from (LiveAs-Live pid t) (resume-Keeps kernel pid)))))
