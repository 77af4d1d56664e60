-- ===== src/Interface/Go.antt =====
-- When `do_go` is done.
use forktrace.Prelude.{
  ℕ, ℤ, zero, suc, ◌≡◌, ◌⊎◌, inl, inr, refl, Bool, true, false, not, ◌&&◌, Bool-cases,
  if◌then◌else◌, Option, none, some, arith,
}
use forktrace.Action.{Outcome, done, raised, M, ◌>>=◌, after, give}
use forktrace.Kernel.{Kernel, Sys, got, failed}
use forktrace.Tracer.{World}
use forktrace.Tracer.Loop.{
  are_tracees_running, tracees_exist, tracees_alive, resume_all, collect_orphans, handle_event,
  wait_loop,
}
use forktrace.Tracer.Loop
use forktrace.Interface.Commands.{Forktrace, is_over, do_go}

module _ {K : Type 0} where
  -- `false` is given only where there are no tracees left.
  abbrev pub Told : World K × Outcome Bool → Type 0
  Told (w, done b) = b ≡ false → tracees_exist w ≡ false
  Told (w, raised e) = Unit {0}

  Told-after :
      {A : Type 0} (x : World K × Outcome A) (f : A → M (World K) Bool)
      → ((a : A) (w : World K) → Told (f a w))
      → Told (after x f)
  Told-after (w, done a) f h = h a w
  Told-after (w, raised e) f h = tt

  Told-if : (b : Bool) (x y : World K × Outcome Bool) → Told x → Told y → Told (if b then x else y)
  Told-if true x y h k = h
  Told-if false x y h k = k

  exist-Told : (w : World K) → Told (w, done (tracees_exist w))
  exist-Told w e = e

  -- What is so where `do_go` has returned.
  abbrev pub Gone : Forktrace K × Outcome (Unit {0}) → Type 0
  Gone (f, raised e) = Unit {0}
  Gone (f, done u) =
      (tracees_exist f.world ≡ false) ⊎ ((f.opts.reaper ≡ false) × (tracees_alive f.world ≡ false))

module _ {K : Type 0} (kernel : Kernel K) (fuel : ℕ) where
  wait_loop-Told : (rounds : ℕ) (w : World K) → Told (wait_loop kernel fuel rounds w)
  unfolding wait_loop tracees_exist
  wait_loop-Told zero w = tt
  wait_loop-Told (suc rounds) w =
      at_event (λ w'. wait_loop-Told rounds w') (kernel.wait_any w.system).1
    where
      next :
          ((w' : World K) → Told (wait_loop kernel fuel rounds w'))
          → (o : Option Bool) (w' : World K)
          → Told (
              (elim o as (λ x. M (World K) Bool) [
                | none ↦ λ w''. (w'', done (tracees_exist w''))
                | some true ↦ wait_loop kernel fuel rounds
                | some false ↦ give true
              ])
                w')
      next ih none w' = exist-Told w'
      next ih (some true) w' = ih w'
      next ih (some false) w' = λ e. absurd (ground (arith, e))

      at_event :
          ((w' : World K) → Told (wait_loop kernel fuel rounds w'))
          → (r : Sys (ℤ × ℕ))
          → Told (elim r as (λ x. World K × Outcome Bool) [
            | failed e ↦
                (record w { system = (kernel.wait_any w.system).0 }, done (tracees_exist w))
            | got event ↦
                (handle_event kernel fuel event.0 event.1 >>= λ o. elim o [
                  | none ↦ λ w'. (w', done (tracees_exist w'))
                  | some true ↦ wait_loop kernel fuel rounds
                  | some false ↦ give true
                ])
                  (record w { system = (kernel.wait_any w.system).0 })
          ])
      at_event ih (failed e) = λ e'. e'
      at_event ih (got event) =
          Told-after
            (handle_event kernel fuel event.0 event.1
              (record w { system = (kernel.wait_any w.system).0 }))
            _ (next ih)

  -- `step` returns false only where there are no tracees left.
  step-Told : (rounds : ℕ) (w : World K) → Told (Loop.step kernel fuel rounds w)
  unfolding Loop.step
  step-Told rounds w = elim (Bool-cases (tracees_exist w)) [
    | inr none' ↦ rw none' (λ e. none')
    | inl some' ↦ rw some' (
        Told-after (resume_all kernel fuel w.pids w) _ (λ u w'.
          Told-after (collect_orphans w') _ (λ u' w''.
            Told-if (are_tracees_running w'') _ _ (wait_loop-Told rounds w'') (exist-Told w''))))
  ]

module _ {K : Type 0} (kernel : Kernel K) (fuel rounds : ℕ) where
  -- `do_go` returns only where there is no tracee left, or, with the reaper off, none that is alive.
  pub do_go_ends : (n : ℕ) (f : Forktrace K) → Gone (do_go kernel fuel rounds n f)
  unfolding do_go
  do_go_ends zero f = tt
  do_go_ends (suc n) f =
      stepped (λ g. do_go_ends n g) (Loop.step kernel fuel rounds f.world)
        (step-Told kernel fuel rounds f.world)
    where
      goes_on :
          ((g : Forktrace K) → Gone (do_go kernel fuel rounds n g))
          → (g : Forktrace K)
          → Gone (if is_over g then (g, done tt) else do_go kernel fuel rounds n g)
      goes_on ih g = choose g.opts.reaper (tracees_alive g.world) refl refl
        where
          choose :
              (r a : Bool)
              → g.opts.reaper ≡ r
              → tracees_alive g.world ≡ a
              → Gone (if not r && not a then (g, done tt) else do_go kernel fuel rounds n g)
          choose false false e e' = inr (e, e')
          choose false true e e' = ih g
          choose true a e e' = ih g

      stepped :
          ((g : Forktrace K) → Gone (do_go kernel fuel rounds n g))
          → (x : World K × Outcome Bool) → Told x
          → Gone (
              after
                (record f { world = x.0 }, x.1)
                (λ more.
                  if not more
                  then give tt
                  else (λ g. if is_over g then (g, done tt) else do_go kernel fuel rounds n g)))
      stepped ih (w, raised e) t = tt
      stepped ih (w, done true) t = goes_on ih (record f { world = w })
      stepped ih (w, done false) t = inl (t refl)
