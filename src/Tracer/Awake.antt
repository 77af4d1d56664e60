-- ===== src/Tracer/Awake.antt =====
-- What the loop of `step` that resumes the tracees leaves (src/tracer/tracer.cpp).
use forktrace.Prelude.{
  ℕ, ◌≡◌, refl, sym, subst, ℤ, ◌==ℤ◌, ==ℤ_refl, ==ℤ_iff, Bool, true, not, Bool-cases, inl, inr, ◌⊎◌,
  Option, none, some, Option-cases, List, [], ◌∷◌, arith,
}
use forktrace.Action.{Error, Outcome, done, raised}
use forktrace.Kernel.{Kernel}
use forktrace.Ptrace.{resume_tracee}
use forktrace.Tracer.{World, Tracee, is_stopped_run}
use forktrace.Tracer.Stops.{resume}
use forktrace.Tracer.Loop.{contains, resume_all}

-- Does no tracee with the pid stand still?
abbrev pub is_awake : Option Tracee → Bool
is_awake none = true
is_awake (some t) = not (is_stopped_run t.run)

Outcome-cases :
    {A : Type 0} (o : Outcome A) → ((a : A) × (o ≡ done a)) ⊎ ((e : Error) × (o ≡ raised e))
Outcome-cases (done a) = inl (a, refl)
Outcome-cases (raised e) = inr (e, refl)

module _ {K : Type 0} (kernel : Kernel K) where
  -- Whatever comes of it, the resumption of a tracee puts no tracee to sleep.
  resume_keeps :
      (pid q : ℤ) (w : World K)
      → is_awake (w.tracees q) ≡ true
      → is_awake ((resume kernel pid w).0.tracees q) ≡ true
  unfolding resume
  resume_keeps pid q w a = elim (Option-cases (w.tracees pid)) [
    | inl gone ↦ rw gone a
    | inr (t, here) ↦ elim (Bool-cases (is_stopped_run t.run)) [
      | inl still ↦ elim (Outcome-cases (resume_tracee kernel pid t.signal w.system).1) [
        | inl (o, got') ↦ elim (Bool-cases (pid ==ℤ q)) [
          | inl same ↦ rw (here, still, got', here, same) refl
          | inr other ↦ rw (here, still, got', here, other) a
        ]
        | inr (e, failed') ↦ rw (here, still, failed') a
      ]
      | inr moves ↦ rw (here, moves) a
    ]
  ]

  -- One that returns leaves its tracee awake.
  resume_wakes :
      (pid : ℤ) (w : World K) (b : Bool)
      → (resume kernel pid w).1 ≡ done b
      → is_awake ((resume kernel pid w).0.tracees pid) ≡ true
  unfolding resume
  resume_wakes pid w b e = elim (Option-cases (w.tracees pid)) [
    | inl gone ↦ absurd (ground (arith, gone, e))
    | inr (t, here) ↦ elim (Bool-cases (is_stopped_run t.run)) [
      | inl still ↦ elim (Outcome-cases (resume_tracee kernel pid t.signal w.system).1) [
        | inl (o, got') ↦ rw (here, still, got', here, ==ℤ_refl pid) refl
        | inr (f, failed') ↦ absurd (ground (arith, here, still, failed', e))
      ]
      | inr moves ↦ rw (here, moves, here, moves) refl
    ]
  ]

module _ {K : Type 0} (kernel : Kernel K) (fuel : ℕ) where
  resume_all_keeps :
      (pids : List ℤ) (q : ℤ) (w : World K)
      → is_awake (w.tracees q) ≡ true
      → is_awake ((resume_all kernel fuel pids w).0.tracees q) ≡ true
  unfolding resume_all
  resume_all_keeps [] q w a = a
  resume_all_keeps (pid ∷ pids) q w a = elim (Outcome-cases (resume kernel pid w).1) [
    | inl (b, e) ↦
        rw (e, resume_all)
          (resume_all_keeps pids q (resume kernel pid w).0 (resume_keeps kernel pid q w a))
    | inr (f, e) ↦ rw (e, resume_all) (resume_keeps kernel pid q w a)
  ]

  -- Where the loop of `step` over all tracees returns without an error, none of them is stopped any
  -- more: each runs or is dead, and what was resumed early is not stopped by what comes later. This
  -- holds for every kernel and every list of pids.
  pub resume_all-is_awake :
      (pids : List ℤ) (q : ℤ) (w : World K)
      → (resume_all kernel fuel pids w).1 ≡ done tt
      → contains q pids ≡ true
      → is_awake ((resume_all kernel fuel pids w).0.tracees q) ≡ true
  unfolding resume_all
  resume_all-is_awake [] q w d c = cc
  resume_all-is_awake (pid ∷ pids) q w d c = elim (Outcome-cases (resume kernel pid w).1) [
    | inr (f, e) ↦ absurd (ground (arith, e, d))
    | inl (b, e) ↦ elim (Bool-cases (q ==ℤ pid)) [
      | inl same ↦
          let pid' : pid ≡ q = sym ((==ℤ_iff q pid).0 same) in
          rw (e, resume_all)
            (resume_all_keeps pids q (resume kernel pid w).0 (
              subst (λ p. is_awake ((resume kernel pid w).0.tracees p) ≡ true) pid'
                (resume_wakes kernel pid w b e)))
      | inr other ↦
          rw (e, resume_all)
            (resume_all-is_awake pids q (resume kernel pid w).0 (rw (e, resume_all) at d)
              (rw other at c))
    ]
  ]
