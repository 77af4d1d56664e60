-- ===== src/Tracer/Sound/Calls.antt =====
-- What the public functions of the tracer promise: the tracees and the process tree agree, before and
-- after.
use forktrace.Prelude.{
  ℕ, ◌≡◌, refl, ◌==◌, ◌++◌, ℤ, ==ℤ_refl, true, false, Option-cases, inl, inr, Option, none, some,
  List, [], ◌∷◌, Str, arith,
}
use forktrace.Status.{is_stopped}
use forktrace.Event.{Ref}
use forktrace.Process.{orphaned}
use forktrace.Tree.{Heap, notify}
use forktrace.Tree.Coherence.{AllCoherent}
use forktrace.Action.{
  bad_trace, system_error, tree_error, runtime_error, assertion, exited, dangling, starved, Outcome,
  done, raised, ◌>>◌,
}
use forktrace.Kernel.{Kernel}
use forktrace.Tracer.{Tracee, World, is_dead}
use forktrace.Tracer.Stops.{handle_notification, handle_change}
use forktrace.Tracer.Entry.{handle_wait_notification}
use forktrace.Tracer.Loop.{
  contains, collect_tracee, collect_orphan, collect, collect_orphans, notify_orphan, check_orphans,
  step, start,
}
use forktrace.Tracer.Sound.{Link, IsInTurn, IsSound, Post}
use forktrace.Tracer.Sound.Reaped.{collect_orphans-Keeps, dead-zombie, notify_orphaned-zombie}
use forktrace.Tracer.Sound.Loop.{step-Safe, start-Safe}

-- The tracee that has the pid, if there is one, is linked to its process: an object of the tree that
-- has the pid, a zombie exactly if the tracee is dead, and alive otherwise.
abbrev pub LinkedAt : Heap → Ref → ℤ → Option Tracee → Type 0
LinkedAt h fresh pid none = Unit {0}
LinkedAt h fresh pid (some t) = Link h fresh pid t

linked :
    (h : Heap) (n : Ref) (pid : ℤ) (o : Option Tracee) (t : Tracee)
    → LinkedAt h n pid o
    → o ≡ some t
    → Link h n pid t
linked h n pid none t l e = cc
linked h n pid (some u) t l e = let e' : u ≡ t = ground (arith, e) in rw (← e') l

at_pid :
    (h : Heap) (n : Ref) (pid : ℤ) (o : Option Tracee)
    → ((t : Tracee) → o ≡ some t → Link h n pid t)
    → LinkedAt h n pid o
at_pid h n pid none all = tt
at_pid h n pid (some t) all = all t refl

module _ {K : Type 0} where
  -- The state and the history of every process fit each other, and every tracee is linked.
  abbrev pub IsConsistent : World K → Type 0
  IsConsistent w = AllCoherent w.heap × ((pid : ℤ) → LinkedAt w.heap w.fresh pid (w.tracees pid))

  -- What a call leaves: a consistent world; only where the process tree throws, and then not because
  -- it was told of an event out of turn, may the world be another.
  abbrev pub Leaves : {A : Type 0} → World K × Outcome A → Type 0
  Leaves (w, done a) = IsConsistent w
  Leaves (w, raised (tree_error f)) = IsInTurn (tree_error f)
  Leaves (w, raised e) = IsConsistent w

  pub consistent-IsSound : (w : World K) → IsConsistent w → IsSound w
  consistent-IsSound w c = (c.0, λ pid t e. linked w.heap w.fresh pid (w.tracees pid) t (c.1 pid) e)

  pub sound-IsConsistent : (w : World K) → IsSound w → IsConsistent w
  sound-IsConsistent w s = (s.0, λ pid. at_pid w.heap w.fresh pid (w.tracees pid) (s.1 pid))

  Post-Leaves : {A : Type 0} (x : World K × Outcome A) → Post (λ a. IsSound) x → Leaves x
  Post-Leaves (w, done a) p = sound-IsConsistent w p
  Post-Leaves (w, raised (tree_error f)) p = p.0
  Post-Leaves (w, raised (bad_trace pid)) p = sound-IsConsistent w (p.1 refl)
  Post-Leaves (w, raised (system_error e)) p = sound-IsConsistent w (p.1 refl)
  Post-Leaves (w, raised runtime_error) p = sound-IsConsistent w (p.1 refl)
  Post-Leaves (w, raised assertion) p = sound-IsConsistent w (p.1 refl)
  Post-Leaves (w, raised exited) p = sound-IsConsistent w (p.1 refl)
  Post-Leaves (w, raised dangling) p = sound-IsConsistent w (p.1 refl)
  Post-Leaves (w, raised starved) p = sound-IsConsistent w (p.1 refl)

-- From a consistent world, `step` leaves a consistent world, whether it returns or throws. Only a
-- fault of the process tree may leave another, and it is never that a process that is not alive, or
-- that is no zombie, was told of an event. This holds for every kernel, any fuel for the strings that
-- are read and any number of rounds.
pub step-Leaves :
    {K : Type 0} (kernel : Kernel K) (fuel rounds : ℕ) (w : World K)
    → IsConsistent w
    → Leaves (step kernel fuel rounds w)
step-Leaves kernel fuel rounds w c =
    Post-Leaves (step kernel fuel rounds w)
      ((step-Safe kernel fuel rounds).from w (consistent-IsSound w c))

-- From a consistent world, `start` leaves a consistent world, whether it returns or throws. Only a
-- fault of the process tree may leave another, and it is never that a process that is not alive, or
-- that is no zombie, was told of an event. This holds for every kernel, also for one that gives the
-- new process the pid of an older tracee.
pub start-Leaves :
    {K : Type 0} (kernel : Kernel K) (fuel rounds : ℕ) (program : Str) (argv : List Str)
    (w : World K)
    → IsConsistent w
    → Leaves (start kernel fuel rounds program argv w)
start-Leaves kernel fuel rounds program argv w c =
    Post-Leaves (start kernel fuel rounds program argv w)
      ((start-Safe kernel fuel rounds program argv).from w (consistent-IsSound w c))

-- From a consistent world, the notification of any orphan, and then the check of all orphans, leaves
-- a consistent world, whether it returns or throws. A fault of the process tree is never that the
-- orphan's process is no zombie.
pub check_orphans-Leaves :
    {K : Type 0} (pid : ℤ) (w : World K)
    → IsConsistent w
    → Leaves ((notify_orphan pid >> check_orphans) w)
unfolding notify_orphan check_orphans
check_orphans-Leaves pid w c = Post-Leaves ((notify_orphan pid >> check_orphans) w) (
    collect_orphans-Keeps.from (record w { orphans = w.orphans ++ pid ∷ [] })
      (consistent-IsSound w c))

-- A status that is no stop is handled alike in the functions that wait for a tracee
-- (`_wait_for_stop`, `_expect_ended`, `_handle_kill`) and in the loop of `step`, on any world.
pub handle_change-handle_wait_notification :
    {K : Type 0} (kernel : Kernel K) (fuel : ℕ) (pid : ℤ) (status : ℕ) (w : World K)
    → is_stopped status ≡ false
    → handle_change kernel pid status w ≡ handle_wait_notification kernel fuel pid status w
unfolding handle_change handle_wait_notification handle_notification
handle_change-handle_wait_notification kernel fuel pid status w e =
    elim (Option-cases (w.tracees pid)) [
      | inl gone ↦ rw gone refl
      | inr (t, here) ↦ rw (here, e) refl
    ]

-- In a consistent world with no other orphans in the queue, the notification of an orphan whose dead
-- tracee's pid was not recycled, and then the check, return: the tracee is gone, and its process is
-- orphaned.
pub check_orphans_collects :
    {K : Type 0} (pid : ℤ) (t : Tracee) (w : World K)
    → IsConsistent w
    → w.orphans ≡ []
    → contains pid w.recycled ≡ false
    → w.tracees pid ≡ some t
    → is_dead t.run ≡ true
    → (((notify_orphan pid >> check_orphans) w).1 ≡ done tt)
      × (((notify_orphan pid >> check_orphans) w).0.tracees pid ≡ none)
      × ((((notify_orphan pid >> check_orphans) w).0.heap t.process).state ≡ orphaned)
unfolding notify_orphan check_orphans collect_orphans collect collect_orphan collect_tracee notify
check_orphans_collects pid t w c queue once here is_gone =
    let (below, pid', agrees) = (consistent-IsSound w c).1 pid t here in
    let e = notify_orphaned-zombie (w.heap t.process) (dead-zombie t.run _ is_gone agrees) in
    let self : (t.process == t.process) ≡ true = ground arith in
    rw (queue, once, here, is_gone, e, ==ℤ_refl pid, self) (refl, refl, refl)

-- An orphan whose tracee is not dead makes the check throw a BadTraceError about it; the tracee stays,
-- and the orphan has left the queue, which was empty before.
pub check_orphans_bad :
    {K : Type 0} (pid : ℤ) (t : Tracee) (w : World K)
    → w.orphans ≡ []
    → contains pid w.recycled ≡ false
    → w.tracees pid ≡ some t
    → is_dead t.run ≡ false
    → (((notify_orphan pid >> check_orphans) w).1 ≡ raised (bad_trace pid))
      × (((notify_orphan pid >> check_orphans) w).0.tracees pid ≡ some t)
      × (((notify_orphan pid >> check_orphans) w).0.orphans ≡ [])
unfolding notify_orphan check_orphans collect_orphans collect collect_orphan collect_tracee
check_orphans_bad pid t w queue once here living = rw (queue, once, here, living) (refl, here, refl)
