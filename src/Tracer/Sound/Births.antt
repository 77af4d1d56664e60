-- ===== src/Tracer/Sound/Births.antt =====
-- New processes and their tracees.
use forktrace.Prelude.{
  ◌+◌, ◌<◌, ◌≡◌, refl, ℤ, ◌==ℤ◌, ==ℤ_refl, ◌==◌, true, false, Bool-cases, inl, inr, arith, Str,
  List,
}
use forktrace.Event.{Ref}
use forktrace.Process.{Process, alive, new_process, new_child}
use forktrace.Tree.{Heap, update, notify, Notice, born, started}
use forktrace.Tree.Coherence.{notify-AllCoherent}
use forktrace.Tracer.{Tracee, World, new_tracee, add_tracee, new_object}
use forktrace.Tracer.Sound.{AllLinked, IsSound, LiveAs, Live, Post, Triple}
use forktrace.Tracer.Sound.Maps.{put-AllLinked, new-AllLinked}
use forktrace.Tracer.Sound.Rules.{Live-alive}
use forktrace.Tracer.Sound.Live.{Both}

-- A notification that makes a process with the pid.
abbrev pub Makes : ℤ → Notice → Type 0
Makes pid n =
    (h : Heap) (r : Ref)
    → (p : Process) × (p.pid ≡ pid) × (p.state ≡ alive) × ((notify h r n).0 ≡ update h r p)

pub started-Makes : (pid : ℤ) (name : Str) (args : List Str) → Makes pid (started pid name args)
unfolding notify new_process
started-Makes pid name args h r = (new_process pid name args, refl, refl, refl)

new_child-alive :
    (pid : ℤ) (r : Ref) (p : Process)
    → ((new_child pid r p).pid ≡ pid) × ((new_child pid r p).state ≡ alive)
unfolding new_child new_process
new_child-alive pid r p = ground arith

pub born-Makes : (pid : ℤ) (parent : Ref) → Makes pid (born pid parent)
unfolding notify
born-Makes pid parent h r =
    let (p, a) = new_child-alive pid parent (h parent) in
    (new_child pid parent (h parent), p, a, refl)

module _ {K : Type 0} where
  -- A living process of the tree that has the pid.
  abbrev pub IsProcess : ℤ → Ref → World K → Type 0
  IsProcess pid r w = (r < w.fresh) × ((w.heap r).pid ≡ pid) × ((w.heap r).state ≡ alive)

  abbrev pub IsNew : ℤ → Ref → World K → Type 0
  IsNew pid r w = IsSound w × IsProcess pid r w

  fresh_process-IsNew :
      (pid : ℤ) (n : Notice) (w : World K)
      → Makes pid n
      → IsSound w
      → IsNew pid w.fresh (record w { heap = (notify w.heap w.fresh n).0; fresh = w.fresh + 1 })
  fresh_process-IsNew pid n w makes sound =
      let (p, pid', living, e) = makes w.heap w.fresh in
      let self : (w.fresh == w.fresh) ≡ true = ground arith in
      let all : AllLinked w.tracees (notify w.heap w.fresh n).0 (w.fresh + 1) =
        rw e (new-AllLinked w.tracees w.heap w.fresh p sound.1) in
      (
        (notify-AllCoherent w.heap w.fresh n sound.0, all),
        (omega arith, rw (e, self) pid', rw (e, self) living),
      )

  pub new_object-IsNew :
      (pid : ℤ) (n : Notice) → Makes pid n → Triple {K = K} IsSound (new_object n) (IsNew pid)
  new_object-IsNew pid n makes = record { from = λ w. fresh_process-IsNew pid n w makes }

  -- A tracee stays live, and its process the one it is, when its child is made.
  pub new_object-Parent :
      (pid child : ℤ) (t : Tracee)
      → Triple {K = K}
          (LiveAs pid t)
          (new_object (born child t.process))
          (λ s w. IsNew child s w × Live pid w × IsProcess pid t.process w)
  new_object-Parent pid child t = record { from = from' }
    where
      from' :
          (w : World K)
          → LiveAs pid t w
          → Post
              (λ s w'. IsNew child s w' × Live pid w' × IsProcess pid t.process w')
              (new_object (born child t.process) w)
      from' w (sound, here, living) =
          let (below, pid', agrees) = sound.1 pid t here in
          let (p, child', alive', e) = born-Makes child t.process w.heap w.fresh in
          let new =
            fresh_process-IsNew child (born child t.process) w (born-Makes child t.process) sound in
          let other : (w.fresh == t.process) ≡ false = ground (arith, below) in
          (
            new,
            (t, (new.0, here, living)),
            (
              omega (arith, below),
              rw (e, other) pid',
              rw (e, other) (Live-alive pid t w (sound, here, living)),
            ),
          )

  -- The tracee of a new process.
  add_tracee-live :
      (pid : ℤ) (r : Ref) (w : World K)
      → IsNew pid r w
      → LiveAs pid (new_tracee pid r) (add_tracee pid r w).0
  unfolding add_tracee
  add_tracee-live pid r w (sound, (below, pid', living)) = (
    (
      sound.0,
      put-AllLinked w.tracees w.heap w.fresh pid (new_tracee pid r) sound.1 (below, pid', living),
    ),
    rw (==ℤ_refl pid) refl,
    refl,
  )

  pub add_tracee-Live :
      (pid : ℤ) (r : Ref) → Triple {K = K} (IsNew pid r) (add_tracee pid r) (λ u. Live pid)
  unfolding add_tracee
  add_tracee-Live pid r = record { from = λ w new. (new_tracee pid r, add_tracee-live pid r w new) }

  -- Another tracee than the new one is live as before.
  add_tracee-stays :
      (pid q : ℤ) (r : Ref) (w : World K) → IsNew pid r w → Live q w → Live q (add_tracee pid r w).0
  unfolding add_tracee
  add_tracee-stays pid q r w new (t, (sound, here, living)) =
      let (sound', here', living') = add_tracee-live pid r w new in
      elim (Bool-cases (pid ==ℤ q)) [
        | inl same ↦ (new_tracee pid r, (sound', rw same refl, refl))
        | inr other ↦ (t, (sound', rw other here, living))
      ]

  pub add_tracee-Both :
      (pid q : ℤ) (s r : Ref)
      → Triple {K = K}
          (λ w. IsNew pid r w × Live q w × IsProcess q s w)
          (add_tracee pid r)
          (λ u w. Both q pid w × IsProcess q s w)
  unfolding add_tracee
  add_tracee-Both pid q s r = record {
    from = λ w p. (
      (add_tracee-stays pid q r w p.0 p.1, (new_tracee pid r, add_tracee-live pid r w p.0)),
      p.2,
    );
  }
