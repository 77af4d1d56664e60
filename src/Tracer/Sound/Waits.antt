-- ===== src/Tracer/Sound/Waits.antt =====
-- The wait calls of a tracee keep the world sound.
use forktrace.Prelude.{
  ℕ, ℤ, pos, neg_ℤ, to_int, is_pos, is_neg, ◌==ℤ◌, ◌==◌, not, ◌&&◌, ◌||◌, if◌then◌else◌, Option,
  none, some, replicate, Str,
}
use forktrace.Status.{is_exited, is_signaled}
use forktrace.Tree.{waiting, failed_wait}
use forktrace.Action.{◌>>=◌, give, if_some}
use forktrace.Kernel.{Kernel}
use forktrace.Ptrace.{set_syscall_arg}
use forktrace.Ptrace.Memory.{copy_to_tracee, word_of}
use forktrace.Tracer.{Tracee, World, BlockingCall, lift}
use forktrace.Tracer.WaitCall.{
  begin_wait, redirect, prepare, restore, get_result, on_failure, conclude_wait4, conclude_waitid,
  finalise, is_hopeless, result_size, result_arg, int_at, tells_end,
}
use forktrace.Tracer.Sound.{LiveAs, Triple, Triple-then}
use forktrace.Tracer.Sound.Plain.{
  get_syscall_ret-Plain, get_tracee_result_addr-Plain, set_syscall_arg-Plain, copy_to_tracee-Plain,
  copy_from_tracee-Plain, memset_tracee-Plain,
}
use forktrace.Tracer.Sound.Reaped.{on_success-Stays}
use forktrace.Tracer.Sound.Requests.{save_old-Plain}
use forktrace.Tracer.Sound.Rules.{Triple-if, Triple-some, Triple-give}
use forktrace.Tracer.Sound.Live.{lift-LiveAs, tell-LiveAs}

module _ {K : Type 0} (kernel : Kernel K) (pid : ℤ) (t : Tracee) where
  -- The tracee that waits stays live, whether or not there is a result.
  abbrev Stays : {A : Type 0} → A → World K → Type 0
  Stays a = LiveAs pid t

  begin_wait-Stays :
      (c : BlockingCall) → Triple (LiveAs pid t) (begin_wait kernel c pid t.process) Stays
  unfolding begin_wait
  begin_wait-Stays c =
      Triple-then Stays
        (Triple-if c.is_waitid
          (λ e.
            lift-LiveAs pid t _ (memset_tracee-Plain kernel pid c.result 0 (result_size c)).at_all)
          (λ e. Triple-give (λ w l. l)))
        (λ o. Triple-some o (Triple-give (λ w l. l)) (λ u.
          Triple-then Stays (tell-LiveAs pid t (waiting c.waited_id c.nohang) tt)
            (λ u'. Triple-give (λ w l. l))))

  redirect-Stays :
      (c : BlockingCall) (addr : ℕ) (old : Str)
      → Triple (LiveAs pid t) (redirect kernel c pid t.process addr old) Stays
  unfolding redirect
  redirect-Stays c addr old =
      Triple-then Stays
        (lift-LiveAs pid t _ (set_syscall_arg-Plain kernel pid addr (result_arg c)).at_all)
        (λ o. Triple-some o (Triple-give (λ w l. l)) (λ u. begin_wait-Stays _))

  saved-Stays :
      (c : BlockingCall) (addr : ℕ) (saved : Option Str)
      → Triple
          (LiveAs pid t)
          (elim saved [
            | none ↦ give (some (record c { result = 0; old_data = none }))
            | some old ↦ redirect kernel c pid t.process addr old
          ])
          Stays
  saved-Stays c addr none = Triple-give (λ w l. l)
  saved-Stays c addr (some old) = redirect-Stays c addr old

  pub prepare-Stays :
      (c : BlockingCall) → Triple (LiveAs pid t) (prepare kernel c pid t.process) Stays
  unfolding prepare
  prepare-Stays c =
      Triple-if (not (c.result == 0)) (λ e. begin_wait-Stays c)
        (λ e.
          Triple-then Stays (lift-LiveAs pid t _ (get_tracee_result_addr-Plain kernel pid).at_all)
            (λ o. Triple-some o (Triple-give (λ w l. l)) (λ addr.
              Triple-then Stays (lift-LiveAs pid t _ (save_old-Plain kernel c pid addr).at_all)
                (λ o'. Triple-some o' (Triple-give (λ w l. l)) (saved-Stays c addr)))))

  restore-Stays : (c : BlockingCall) → Triple (LiveAs pid t) (restore kernel c pid) Stays
  unfolding restore
  restore-Stays c =
      elim c.old_data
        as (λ d.
          Triple (LiveAs pid t)
            (elim d [
              | none ↦ give (some tt)
              | some old ↦ do
                o ← lift (copy_to_tracee kernel pid c.result old)
                if_some o (give none) (λ u. lift (set_syscall_arg kernel pid 0 (result_arg c)))
            ])
            Stays) [
              | none ↦ Triple-give (λ w l. l)
              | some old ↦
                  Triple-then Stays
                    (lift-LiveAs pid t _ (copy_to_tracee-Plain kernel pid c.result old).at_all)
                    (λ o. Triple-some o (Triple-give (λ w l. l)) (λ u.
                      lift-LiveAs pid t _
                        (set_syscall_arg-Plain kernel pid 0 (result_arg c)).at_all))
            ]

  get_result-Stays : (c : BlockingCall) → Triple (LiveAs pid t) (get_result kernel c pid) Stays
  unfolding get_result
  get_result-Stays c =
      Triple-if (is_hopeless c) (λ e. Triple-give (λ w l. l))
        (λ e.
          Triple-then Stays (lift-LiveAs pid t _ (get_syscall_ret-Plain kernel pid).at_all) (λ o.
            Triple-some o (Triple-give (λ w l. l)) (λ retval.
              Triple-then Stays
                (lift-LiveAs pid t _
                  (copy_from_tracee-Plain kernel pid (replicate (result_size c) 0) c.result).at_all)
                (λ o'. Triple-some o' (Triple-give (λ w l. l)) (λ bytes.
                  Triple-then Stays (restore-Stays c) (λ o''.
                    Triple-some o'' (Triple-give (λ w l. l)) (λ u. Triple-give (λ w l. l))))))))

  on_failure-Stays : (retval : ℕ) → Triple (LiveAs pid t) (on_failure kernel t.process retval) Stays
  unfolding on_failure
  on_failure-Stays retval = tell-LiveAs pid t (failed_wait (neg_ℤ (to_int retval))) tt

  failure-Stays :
      (retval : ℕ)
      → Triple
          (LiveAs pid t)
          (if is_neg (to_int retval) then on_failure kernel t.process retval else give tt)
          Stays
  failure-Stays retval =
      Triple-if (is_neg (to_int retval)) (λ e. on_failure-Stays retval)
        (λ e. Triple-give (λ w l. l))

  conclude_wait4-Stays :
      (bytes : Str) (retval : ℕ)
      → Triple (LiveAs pid t) (conclude_wait4 kernel pid t.process bytes retval) Stays
  unfolding conclude_wait4
  conclude_wait4-Stays bytes retval =
      Triple-if
        (is_pos (to_int retval) && (is_exited (word_of bytes) || is_signaled (word_of bytes)))
        (λ e. on_success-Stays kernel pid t (to_int retval)) (λ e. failure-Stays retval)

  conclude_waitid-Stays :
      (info : Str) (retval : ℕ)
      → Triple (LiveAs pid t) (conclude_waitid kernel pid t.process info retval) Stays
  unfolding conclude_waitid
  conclude_waitid-Stays info retval =
      Triple-if (retval == 0 && not (int_at 16 info ==ℤ pos 0) && tells_end (int_at 8 info))
        (λ e. on_success-Stays kernel pid t (int_at 16 info)) (λ e. failure-Stays retval)

  pub finalise-Stays :
      (c : BlockingCall) → Triple (LiveAs pid t) (finalise kernel c pid t.process) Stays
  unfolding finalise
  finalise-Stays c = Triple-then Stays (get_result-Stays c) (λ o.
      Triple-some o (Triple-give (λ w l. l)) (λ found.
        Triple-then Stays
          (Triple-if c.is_waitid (λ e. conclude_waitid-Stays found.0 found.1)
            (λ e. conclude_wait4-Stays found.0 found.1))
          (λ u. Triple-give (λ w l. l))))
