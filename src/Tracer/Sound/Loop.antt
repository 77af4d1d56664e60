-- ===== src/Tracer/Sound/Loop.antt =====
-- What the public functions of the tracer leave behind.
use forktrace.Prelude.{
  ℕ, zero, suc, ℤ, Bool, true, false, not, if◌then◌else◌, Option, none, some, List, [], ◌∷◌, Str,
}
use forktrace.Event.{Ref}
use forktrace.Tree.{started}
use forktrace.Action.{Outcome, done, M, ◌>>◌, give}
use forktrace.Kernel.{Sys, got, failed, Kernel}
use forktrace.Tracer.{World, has_execed}
use forktrace.Tracer.Entry.{handle_wait_notification}
use forktrace.Tracer.Loop.{
  collect_orphans, all_tracees_dead, are_tracees_running, tracees_exist, resume_all, handle_event,
  wait_loop, step, await_exec, lead, start,
}
use forktrace.Tracer.Sound.{IsSound, Live, Post, Triple, Triple-then}
use forktrace.Tracer.Sound.Births.{IsNew, started-Makes, new_object-IsNew, add_tracee-Live}
use forktrace.Tracer.Sound.Plain.{must-Plain}
use forktrace.Tracer.Sound.Requests.{start_tracee-Plain}
use forktrace.Tracer.Sound.Reaped.{collect_orphans-Keeps}
use forktrace.Tracer.Sound.Entry.{wait_notification-Keeps}
use forktrace.Tracer.Sound.Rules.{
  Triple-if, Triple-give, Triple-throw, Triple-from, Post-if, Post-option, Live-IsSound,
}
use forktrace.Tracer.Sound.Live.{lift-IsSound}
use forktrace.Tracer.Sound.Stops.{resume-IsSound, expect_ended-Keeps}

module _ {K : Type 0} where
  -- A call of the kernel has a result or an errno.
  Post-sys :
      {A B : Type 0} (Q : B → World K → Type 0) (r : Sys A) (f : A → World K × Outcome B)
      (g : ℕ → World K × Outcome B)
      → ((a : A) → Post Q (f a))
      → ((e : ℕ) → Post Q (g e))
      → Post Q (elim r as (λ q. World K × Outcome B) [ failed e ↦ g e | got a ↦ f a ])
  Post-sys Q (got a) f g p q = p a
  Post-sys Q (failed e) f g p q = q e

module _ {K : Type 0} (kernel : Kernel K) (fuel : ℕ) where
  -- What keeps the world sound, and gives a value.
  abbrev Safe : {A : Type 0} → M (World K) A → Type 0
  Safe {A = A} m = Triple IsSound m (λ a. IsSound)

  resume_all-Safe : (pids : List ℤ) → Safe (resume_all kernel fuel pids)
  unfolding resume_all
  resume_all-Safe [] = Triple-give (λ w s. s)
  resume_all-Safe (pid ∷ pids) =
      Triple-then (λ b. IsSound) (resume-IsSound kernel pid) (λ b. resume_all-Safe pids)

  event-Safe :
      (pid : ℤ) (status : ℕ)
      → Safe (do
        handle_wait_notification kernel fuel pid status
        collect_orphans
        λ w'. (w', done (if all_tracees_dead w' then none else some (are_tracees_running w'))))
  event-Safe pid status =
      Triple-then (λ u. IsSound) (wait_notification-Keeps kernel fuel pid status)
        (λ u.
          Triple-then (λ u'. IsSound) collect_orphans-Keeps (λ u'. record { from = λ w' s'. s' }))

  handle_event-Safe : (pid : ℤ) (status : ℕ) → Safe (handle_event kernel fuel pid status)
  unfolding handle_event
  handle_event-Safe pid status = record {
    from = λ w s.
        Post-option (λ a. IsSound) (w.tracees pid) _ _ (λ gone. s)
          (λ t here. (event-Safe pid status).from w s);
  }

  next_event-Safe :
      (rounds : ℕ)
      → Safe (wait_loop kernel fuel rounds)
      → (o : Option Bool)
      → Safe (elim o [
        | none ↦ λ w'. (w', done (tracees_exist w'))
        | some true ↦ wait_loop kernel fuel rounds
        | some false ↦ give true
      ])
  next_event-Safe rounds rest none = record { from = λ w s. s }
  next_event-Safe rounds rest (some true) = rest
  next_event-Safe rounds rest (some false) = Triple-give (λ w s. s)

  wait_loop-Safe : (rounds : ℕ) → Safe (wait_loop kernel fuel rounds)
  unfolding wait_loop
  wait_loop-Safe zero = record { from = λ w s. (tt, λ q. s) }
  wait_loop-Safe (suc rounds) = record {
    from = λ w s.
        let w' : World K = record w { system = (kernel.wait_any w.system).0 } in
        Post-sys (λ a. IsSound) (kernel.wait_any w.system).1 _ _
          (λ event.
            (Triple-then (λ o. IsSound) (handle_event-Safe event.0 event.1)
                (next_event-Safe rounds (wait_loop-Safe rounds))).from
              w' s)
          (λ e. s);
  }

  resumed-Safe :
      (rounds : ℕ) (pids : List ℤ)
      → Safe (do
        resume_all kernel fuel pids
        collect_orphans
        λ w'.
            if are_tracees_running w'
            then wait_loop kernel fuel rounds w'
            else (w', done (tracees_exist w')))
  resumed-Safe rounds pids =
      Triple-then (λ u. IsSound) (resume_all-Safe pids)
        (λ u.
          Triple-then (λ u'. IsSound) collect_orphans-Keeps
            (λ u'. record {
              from = λ w' s'.
                  Post-if (λ a. IsSound) (are_tracees_running w') _ _
                    (λ f. (wait_loop-Safe rounds).from w' s') (λ f. s');
            }))

  pub step-Safe : (rounds : ℕ) → Safe (step kernel fuel rounds)
  unfolding step
  step-Safe rounds = record {
    from = λ w s.
        Post-if (λ a. IsSound) (not (tracees_exist w)) _ _ (λ e. s)
          (λ e. (resumed-Safe rounds w.pids).from w s);
  }

  await_exec-Safe : (rounds : ℕ) (pid : ℤ) → Safe (await_exec kernel fuel rounds pid)
  unfolding await_exec
  await_exec-Safe zero pid = record { from = λ w s. (tt, λ q. s) }
  await_exec-Safe (suc rounds) pid = record {
    from = λ w s.
        Post-if (λ a. IsSound) (has_execed pid w.leaders) _ _ (λ e. s)
          (λ e.
            Post-option (λ a. IsSound) (w.tracees pid) _ _ (λ gone. (tt, λ q. s))
              (λ t here.
                (Triple-then (λ b. IsSound) (resume-IsSound kernel pid)
                    (λ b.
                      Triple-if (not b)
                        (λ f.
                          Triple-then (λ u. IsSound) (expect_ended-Keeps kernel pid)
                            (λ u. Triple-throw tt (λ w' s'. s')))
                        (λ f.
                          Triple-then (λ n. IsSound)
                            (lift-IsSound _ (must-Plain (kernel.wait_for pid)).at_all)
                            (λ status.
                              Triple-then (λ u. IsSound)
                                (wait_notification-Keeps kernel fuel pid status)
                                (λ u. await_exec-Safe rounds pid))))).from
                  w s));
  }

  lead-Keeps : (pid : ℤ) (r : Ref) → Triple (IsNew pid r) (lead kernel fuel pid) (λ u. IsNew pid r)
  lead-Keeps pid r = record { from = λ w new. new }

  pub start-Safe :
      (rounds : ℕ) (program : Str) (argv : List Str) → Safe (start kernel fuel rounds program argv)
  unfolding start
  start-Safe rounds program argv =
      Triple-then (λ p. IsSound) (lift-IsSound _ (start_tracee-Plain kernel fuel).at_all)
        (λ pid.
          Triple-then (IsNew pid)
            (new_object-IsNew pid (started pid program argv) (started-Makes pid program argv))
            (λ process.
              Triple-then (λ u. IsNew pid process) (lead-Keeps pid process)
                (λ u.
                  Triple-then (λ u'. Live pid) (add_tracee-Live pid process)
                    (λ u'.
                      Triple-then (λ u''. IsSound)
                        (Triple-from (Live-IsSound pid) (await_exec-Safe rounds pid))
                        (λ u''. Triple-give {a = process} (λ w s. s))))))
