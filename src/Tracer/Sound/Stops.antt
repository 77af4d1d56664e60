-- ===== src/Tracer/Sound/Stops.antt =====
-- Resuming a tracee and waiting for it keep the world sound.
use forktrace.Prelude.{ℕ, ◌≡◌, refl, ℤ, false, not, ◌||◌, Option, none, some}
use forktrace.Status.{is_exited, is_signaled, is_stopped, is_syscall_event}
use forktrace.Action.{M, ◌>>=◌, ◌>>◌, give, if_some}
use forktrace.Kernel.{Kernel}
use forktrace.Tracer.{
  RunState, Tracee, World, running, stopped, dead, is_dead, is_stopped_run, lift, modify,
}
use forktrace.Tracer.Stops.{
  awaited, is_some, throw_bad_event, resume, handle_notification, handle_change, wait_for_stop,
  expect_ended, resume_until_stop,
}
use forktrace.Tracer.Sound.{IsSound, LiveAs, Live, Triple, Triple-then, Keeps}
use forktrace.Tracer.Sound.Changes.{record_end-Keeps}
use forktrace.Tracer.Sound.Plain.{Plain, awaited-Plain, resume_tracee-Plain}
use forktrace.Ptrace.{resume_tracee}
use forktrace.Tracer.Sound.Rules.{
  Triple-if, Triple-give, Triple-throw, Triple-from, Triple-to, Post-if, Live-IsSound, LiveAs-Live,
  Triple-some,
}
use forktrace.Tracer.Sound.Live.{
  Both, lift-IsSound, lift-Live, lift-Both, tracee-Live, tracee-IsSound, modify-Live, modify-Both,
  KeepsLive,
}

stopped-lives : (r : RunState) → not (is_stopped_run r) ≡ false → is_dead r ≡ false
stopped-lives running e = refl
stopped-lives stopped e = refl
stopped-lives dead e = cc

module _ {K : Type 0} where
  -- Where there is a result, `P`; where there is none, a sound world.
  abbrev pub OrSound : {A : Type 0} → (World K → Type 0) → Option A → World K → Type 0
  OrSound P none = IsSound
  OrSound P (some a) = P

  pub Triple-or :
      {A : Type 0} {P : World K → Type 0} {m : M (World K) (Unit {0})}
      {f : A → M (World K) (Unit {0})} (o : Option A)
      → Keeps IsSound m
      → ((a : A) → Keeps P (f a))
      → Keeps (OrSound P o) (if_some o m f)
  Triple-or none t u = t
  Triple-or (some a) t u = u a

module _ {K : Type 0} (kernel : Kernel K) where
  pub bad_event-lem :
      {A : Type 0} (P : World K → Type 0) (Q : A → World K → Type 0) (pid : ℤ) (status : ℕ)
      → ((w : World K) → P w → IsSound w)
      → Triple P (throw_bad_event kernel pid status) Q
  unfolding throw_bad_event
  bad_event-lem P Q pid status sound = record {
    from = λ w p.
        Post-if Q (is_syscall_event status) _ _ (λ e. (tt, λ q. sound w p))
          (λ e. (tt, λ q. sound w p));
  }

  resume_stopped :
      (pid : ℤ) (t : Tracee)
      → Triple
          (LiveAs pid t)
          (do
            o ← lift (resume_tracee kernel pid t.signal)
            modify pid (λ t'. record t' { signal = 0; run = running })
            give (is_some o))
          (λ b. Live pid)
  resume_stopped pid t =
      Triple-then (λ o. Live pid)
        (Triple-from (LiveAs-Live pid t)
          (lift-Live pid _ (resume_tracee-Plain kernel pid t.signal).at_all))
        (λ o.
          Triple-then (λ u. Live pid) (modify-Live pid _ (λ t' e'. (refl, refl)))
            (λ u. Triple-give (λ w l. l)))

  pub resume-Live : (pid : ℤ) → Triple (Live pid) (resume kernel pid) (λ b. Live pid)
  unfolding resume
  resume-Live pid =
      Triple-then (λ t. LiveAs pid t) (tracee-Live pid)
        (λ t.
          Triple-if (not (is_stopped_run t.run)) (λ e. Triple-give (LiveAs-Live pid t))
            (λ e. resume_stopped pid t))

  -- A tracee that has stopped is not dead.
  pub resume-IsSound : (pid : ℤ) → Triple IsSound (resume kernel pid) (λ b. IsSound)
  unfolding resume
  resume-IsSound pid =
      Triple-then (λ t w. IsSound w × (w.tracees pid ≡ some t)) (tracee-IsSound pid)
        (λ t.
          Triple-if (not (is_stopped_run t.run)) (λ e. Triple-give (λ w p. p.0))
            (λ e.
              Triple-from {P = LiveAs pid t} (λ w p. (p.0, p.1, stopped-lives t.run e))
                (Triple-to (λ b. Live pid) (λ b. Live-IsSound pid) (resume_stopped pid t))))

  -- The handler of stops is one that keeps the world sound.
  pub notification-Keeps :
      (handle : ℤ → ℕ → M (World K) (Unit {0})) (pid : ℤ) (status : ℕ)
      → Keeps (Live pid) (handle pid status)
      → Keeps IsSound (handle_notification kernel handle pid status)
  unfolding handle_notification
  notification-Keeps handle pid status handled =
      Triple-then (λ t w. IsSound w × (w.tracees pid ≡ some t)) (tracee-IsSound pid)
        (λ t.
          Triple-if (is_dead t.run) (λ e. bad_event-lem _ _ pid status (λ w p. p.0))
            (λ living.
              Triple-from {P = LiveAs pid t} (λ w p. (p.0, p.1, living))
                (Triple-if (is_exited status || is_signaled status)
                  (record_end-Keeps kernel pid t status)
                  (λ e.
                    Triple-if (not (is_stopped status))
                      (λ e'. bad_event-lem _ _ pid status (λ w p. p.0))
                      (λ e'. Triple-from (LiveAs-Live pid t) (
                        Triple-then (λ u. Live pid) (modify-Live pid _ (λ t' f. (refl, refl)))
                          (λ u. handled)))))))

  pub handle_change-Keeps : (pid : ℤ) (status : ℕ) → Keeps IsSound (handle_change kernel pid status)
  unfolding handle_change
  handle_change-Keeps pid status =
      notification-Keeps _ pid status (Triple-throw tt (Live-IsSound pid))

  wait-Both :
      (pid q : ℤ)
      → Triple (Both pid q) (lift (λ k. awaited pid (kernel.wait_for pid k))) (λ s. Both pid q)
  wait-Both pid q = lift-Both pid q _ (awaited-Plain pid (kernel.wait_for pid)).at_all

  pub wait_for_stop-Both :
      (pid q : ℤ) → Triple (Both pid q) (wait_for_stop kernel pid) (OrSound (Both pid q))
  unfolding wait_for_stop
  wait_for_stop-Both pid q =
      Triple-then (λ s. Both pid q) (wait-Both pid q)
        (λ status.
          Triple-if (is_stopped status)
            (λ e.
              Triple-then (λ u. Both pid q) (modify-Both pid q _ (λ t f. (refl, refl)))
                (λ u. Triple-give (λ w b. b)))
            (λ e.
              Triple-then (λ u. IsSound)
                (Triple-from (λ w b. Live-IsSound pid w b.0) (handle_change-Keeps pid status))
                (λ u. Triple-give (λ w s. s))))

  OrSound-Live :
      (pid : ℤ) (o : Option ℕ) (w : World K) → OrSound (Both pid pid) o w → OrSound (Live pid) o w
  OrSound-Live pid none w s = s
  OrSound-Live pid (some n) w b = b.0

  pub wait_for_stop-Live :
      (pid : ℤ) → Triple (Live pid) (wait_for_stop kernel pid) (OrSound (Live pid))
  wait_for_stop-Live pid =
      Triple-from (λ w l. (l, l))
        (Triple-to (OrSound (Both pid pid)) (OrSound-Live pid) (wait_for_stop-Both pid pid))

  pub expect_ended-Keeps : (pid : ℤ) → Keeps IsSound (expect_ended kernel pid)
  unfolding expect_ended
  expect_ended-Keeps pid =
      Triple-then (λ s. IsSound) (lift-IsSound _ (awaited-Plain pid (kernel.wait_for pid)).at_all)
        (λ status.
          Triple-if (not (is_exited status || is_signaled status))
            (λ e. bad_event-lem _ _ pid status (λ w s. s)) (λ e. handle_change-Keeps pid status))

  pub resume_until_stop-Live :
      (pid : ℤ) → Triple (Live pid) (resume_until_stop kernel pid) (OrSound (Live pid))
  unfolding resume_until_stop
  resume_until_stop-Live pid =
      Triple-then (λ b. Live pid) (resume-Live pid)
        (λ b. Triple-if b (λ e. wait_for_stop-Live pid) (λ e. Triple-give (Live-IsSound pid)))

  -- A request of a live tracee, whose end is awaited where it is gone.
  pub request-Keeps :
      {A : Type 0} {m : M K (Option A)} {f : A → M (World K) (Unit {0})} (pid : ℤ)
      → Plain m
      → ((a : A) → Keeps (Live pid) (f a))
      → Keeps (Live pid) (lift m >>= λ o. if_some o (expect_ended kernel pid) f)
  request-Keeps pid plain next =
      Triple-then (λ o. Live pid) (lift-Live pid _ plain.at_all)
        (λ o. Triple-some o (Triple-from (Live-IsSound pid) (expect_ended-Keeps pid)) next)

  -- The next stop of a live tracee, if there is one.
  pub next_stop-Keeps :
      {f : ℕ → M (World K) (Unit {0})} (pid : ℤ)
      → ((status : ℕ) → Keeps (Live pid) (f status))
      → Keeps (Live pid) (resume_until_stop kernel pid >>= λ o. if_some o (give tt) f)
  next_stop-Keeps pid next =
      Triple-then (OrSound (Live pid)) (resume_until_stop-Live pid)
        (λ o. Triple-or o (Triple-give (λ w s. s)) next)

  pub bad_event-Keeps :
      (pid : ℤ) (status : ℕ) → Keeps (Live pid) (throw_bad_event kernel pid status)
  bad_event-Keeps pid status = bad_event-lem (Live pid) (λ u. IsSound) pid status (Live-IsSound pid)

  pub resume-Keeps : (pid : ℤ) → Keeps (Live pid) (resume kernel pid >> give tt)
  resume-Keeps pid =
      Triple-then (λ b. Live pid) (resume-Live pid) (λ b. Triple-give (Live-IsSound pid))

  pub modify-Keeps :
      (pid : ℤ) (f : Tracee → Tracee) → KeepsLive f → Keeps {K = K} (Live pid) (modify pid f)
  modify-Keeps pid f keeps =
      Triple-to (λ u. Live pid) (λ u. Live-IsSound pid) (modify-Live pid f keeps)
