-- ===== src/Tracer/Sound/Live.antt =====
-- What a handler does with a live tracee: requests, changes of it, and what it tells the process tree.
use forktrace.Prelude.{◌≡◌, refl, ℤ, ◌==ℤ◌, false, Bool-cases, inl, inr, some, Option-cases}
use forktrace.Event.{Ref}
use forktrace.Process.{alive}
use forktrace.Tree.{Notice, notify}
use forktrace.Tree.Coherence.{notify-AllCoherent}
use forktrace.Action.{done, M}
use forktrace.Tracer.{is_dead, Tracee, World, lift, outcome_of, tell, tracee, set_tracee, modify}
use forktrace.Tracer.Sound.{IsPlain, IsSound, LiveAs, Live, Post, Post-plain, Triple}
use forktrace.Tracer.Sound.Maps.{put-AllLinked, same-AllLinked}
use forktrace.Tracer.Sound.Notices.{IsDeed, notify-Mild}
use forktrace.Tracer.Sound.Rules.{Live-alive, Post-by, Triple-from, Triple-to, alive-Agrees}

-- A change that keeps a tracee's process and does not end it.
abbrev pub KeepsLive : (Tracee → Tracee) → Type 0
KeepsLive f =
    (t : Tracee) → is_dead t.run ≡ false → ((f t).process ≡ t.process) × (is_dead (f t).run ≡ false)

module _ {K : Type 0} where
  -- A call of the kernel changes nothing but the kernel.
  pub lift-IsSound :
      {A : Type 0} (m : M K A)
      → ((k : K) → IsPlain (m k).1)
      → Triple IsSound (lift m) (λ a. IsSound)
  lift-IsSound m plain = record {
    from = λ w p.
        Post-plain (λ a. IsSound) (record w { system = (m w.system).0 }) (m w.system).1
          (plain w.system) p (λ a. p);
  }

  pub lift-LiveAs :
      {A : Type 0} (pid : ℤ) (t : Tracee) (m : M K A)
      → ((k : K) → IsPlain (m k).1)
      → Triple (LiveAs pid t) (lift m) (λ a. LiveAs pid t)
  lift-LiveAs pid t m plain = record {
    from = λ w p.
        Post-plain (λ a. LiveAs pid t) (record w { system = (m w.system).0 }) (m w.system).1
          (plain w.system) p.0 (λ a. p);
  }

  pub lift-Live :
      {A : Type 0} (pid : ℤ) (m : M K A)
      → ((k : K) → IsPlain (m k).1)
      → Triple (Live pid) (lift m) (λ a. Live pid)
  lift-Live pid m plain = record {
    from = λ w p.
        Post-plain (λ a. Live pid) (record w { system = (m w.system).0 }) (m w.system).1
          (plain w.system) p.1.0 (λ a. p);
  }

  -- Two tracees, which may be the same.
  abbrev pub Both : ℤ → ℤ → World K → Type 0
  Both pid other w = Live pid w × Live other w

  pub lift-Both :
      {A : Type 0} (pid q : ℤ) (m : M K A)
      → ((k : K) → IsPlain (m k).1)
      → Triple (Both pid q) (lift m) (λ a. Both pid q)
  lift-Both pid q m plain = record {
    from = λ w p.
        Post-plain (λ a. Both pid q) (record w { system = (m w.system).0 }) (m w.system).1
          (plain w.system) p.0.1.0 (λ a. p);
  }

  -- A reference to a tracee.
  pub tracee-Live : (pid : ℤ) → Triple {K = K} (Live pid) (tracee pid) (λ t. LiveAs pid t)
  tracee-Live pid = record { from = from' }
    where
      from' : (w : World K) → Live pid w → Post (λ t. LiveAs pid t) (tracee pid w)
      from' w (t, (sound, here, living)) = rw here (sound, here, living)

  -- A reference that may be dangling.
  pub tracee-IsSound :
      (pid : ℤ) → Triple {K = K} IsSound (tracee pid) (λ t w. IsSound w × (w.tracees pid ≡ some t))
  tracee-IsSound pid = record { from = from' }
    where
      from' :
          (w : World K)
          → IsSound w
          → Post (λ t w'. IsSound w' × (w'.tracees pid ≡ some t)) (tracee pid w)
      from' w sound = elim (Option-cases (w.tracees pid)) [
        | inl gone ↦ rw gone (tt, λ q. sound)
        | inr (t, here) ↦ rw here (sound, here)
      ]

  set-IsSound :
      (pid : ℤ) (t t' : Tracee) (w : World K)
      → LiveAs pid t w
      → t'.process ≡ t.process
      → is_dead t'.run ≡ false
      → IsSound (set_tracee pid t' w)
  set-IsSound pid t t' w live same living =
      let (below, pid', agrees) = live.0.1 pid t live.1 in
      (
        live.0.0,
        put-AllLinked w.tracees w.heap w.fresh pid t' live.0.1 (
          rw same below,
          rw same pid',
          alive-Agrees t'.run _ living (rw same (Live-alive pid t w live)),
        ),
      )

  set-Live :
      (pid other : ℤ) (t t' : Tracee) (w : World K)
      → LiveAs pid t w
      → t'.process ≡ t.process
      → is_dead t'.run ≡ false
      → Live other w
      → Live other (set_tracee pid t' w)
  set-Live pid other t t' w live same living (u, (sound, here, alive')) =
      elim (Bool-cases (pid ==ℤ other)) [
        | inl hit ↦ (t', (set-IsSound pid t t' w live same living, rw hit refl, living))
        | inr miss ↦ (u, (set-IsSound pid t t' w live same living, rw miss here, alive'))
      ]

  pub modify-some :
      (pid : ℤ) (f : Tracee → Tracee) (t : Tracee) (w : World K)
      → w.tracees pid ≡ some t
      → modify pid f w ≡ (set_tracee pid (f t) w, done tt)
  modify-some pid f t w here = rw (here, modify) refl

  pub modify-Both :
      (pid other : ℤ) (f : Tracee → Tracee)
      → KeepsLive f
      → Triple {K = K} (Both pid other) (modify pid f) (λ u. Both pid other)
  modify-Both pid other f keeps = record { from = from' }
    where
      from' : (w : World K) → Both pid other w → Post (λ u. Both pid other) (modify pid f w)
      from' w ((t, live), o) =
          let (same, living) = keeps t live.2 in
          Post-by (λ u. Both pid other) (modify-some pid f t w live.1)
            (
              set-Live pid pid t (f t) w live same living (t, live),
              set-Live pid other t (f t) w live same living o,
            )

  pub modify-Live :
      (pid : ℤ) (f : Tracee → Tracee)
      → KeepsLive f
      → Triple {K = K} (Live pid) (modify pid f) (λ u. Live pid)
  modify-Live pid f keeps =
      Triple-from (λ w l. (l, l))
        (Triple-to (λ u. Both pid pid) (λ u w b. b.0) (modify-Both pid pid f keeps))

  -- A deed of a living process is told to it.
  tell-heap :
      (r : Ref) (n : Notice) (w : World K)
      → IsDeed n
      → IsSound w
      → (w.heap r).state ≡ alive
      → IsSound (record w { heap = (notify w.heap r n).0 })
        × IsPlain (outcome_of (notify w.heap r n).1)
  tell-heap r n w deed sound living =
      let (same, plain) = notify-Mild w.heap r n deed living sound.0 in
      (
        (
          notify-AllCoherent w.heap r n sound.0,
          same-AllLinked w.tracees w.heap (notify w.heap r n).0 w.fresh sound.1 same,
        ),
        plain,
      )

  pub tell-LiveAs :
      (pid : ℤ) (t : Tracee) (n : Notice)
      → IsDeed n
      → Triple {K = K} (LiveAs pid t) (tell t.process n) (λ u. LiveAs pid t)
  tell-LiveAs pid t n deed = record {
    from = λ w p.
        let (sound, plain) = tell-heap t.process n w deed p.0 (Live-alive pid t w p) in
        Post-plain (λ u. LiveAs pid t) (record w { heap = (notify w.heap t.process n).0 })
          (outcome_of (notify w.heap t.process n).1) plain sound (λ u. (sound, p.1, p.2));
  }

  -- A deed of a living process, whether or not a tracee has it, leaves tracees live.
  pub tell-Both :
      (pid q : ℤ) (r : Ref) (n : Notice)
      → IsDeed n
      → (w : World K) → Both pid q w
      → (w.heap r).state ≡ alive
      → Post (λ u. Both pid q) (tell r n w)
  tell-Both pid q r n deed w (l, l') living =
      let (sound, plain) = tell-heap r n w deed l.1.0 living in
      Post-plain (λ u. Both pid q) (record w { heap = (notify w.heap r n).0 })
        (outcome_of (notify w.heap r n).1) plain sound
        (λ u. ((l.0, (sound, l.1.1, l.1.2)), (l'.0, (sound, l'.1.1, l'.1.2))))
