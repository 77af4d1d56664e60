-- ===== src/Tracer/Sound/Reaped.antt =====
-- The dead tracees that are reaped or orphaned, and so forgotten.
use forktrace.Prelude.{
  ◌≡◌, refl, ap, ℤ, ◌==ℤ◌, ==ℤ_iff, ◌==◌, true, false, not, Bool-cases, inl, inr, Option, none,
  some, arith, List, [], ◌∷◌,
}
use forktrace.Kernel.{Kernel}
use forktrace.Event.{Ref, reap_event, Event}
use forktrace.Process.{
  Process, State, Fault, zombie, reaped, orphaned, Result, ok, ◌>>=◌, notify_orphaned, resolve_wait,
}
use forktrace.Tree.{Heap, update, notify, reaped_child, orphan, notify_reaped, on_process}
use forktrace.Tree.Coherence.{AllCoherent, notify-AllCoherent}
use forktrace.Action.{after, ◌>>◌}
use forktrace.Tracer.{
  RunState, running, stopped, dead, is_dead, Tracee, World, put, tell, erase, outcome_of,
}
use forktrace.Tracer.WaitCall.{on_success}
use forktrace.Tracer.Loop.{contains, collect_tracee, collect_orphan, collect, collect_orphans}
use forktrace.Tracer.Sound.{
  Agrees, AllLinked, IsPlain, IsSound, LiveAs, Post, Triple, Triple-then, Keeps,
}
use forktrace.Tracer.Sound.Maps.{change-AllLinked, AllSame, same-AllLinked}
use forktrace.Tracer.Sound.Notices.{resolve_wait-FaultsInTurn, resolved-IsMild, on_process-Mild}
use forktrace.Tracer.Sound.Rules.{
  Triple-throw, Triple-give, Triple-if, Post-by, Post-if, tell-is, Post-option,
}

pub dead-zombie : (r : RunState) (s : State) → is_dead r ≡ true → Agrees r s → s ≡ zombie
dead-zombie dead s h a = a
dead-zombie running s h a = cc
dead-zombie stopped s h a = cc

-- A zombie may be orphaned.
pub notify_orphaned-zombie :
    (p : Process) → p.state ≡ zombie → notify_orphaned p ≡ ok (record p { state = orphaned })
unfolding notify_orphaned
notify_orphaned-zombie p z = rw z refl

-- A zombie may be reaped, and what is left of the notification is the search for the wait.
notify_reaped-zombie :
    (h : Heap) (self child : Ref)
    → (h child).state ≡ zombie
    → notify_reaped h self child
      ≡ on_process (update h child (record (h child) { state = reaped })) self (
          resolve_wait
            (reap_event child)
            (update h child (record (h child) { state = reaped }) self).history
          >>= λ es.
              ok (record (update h child (record (h child) { state = reaped }) self) {
                history = es;
              }))
unfolding notify_reaped
notify_reaped-zombie h self child z = rw z refl

module _ {K : Type 0} where
  collect_tracee-Keeps :
      (pid : ℤ) (o : Option Tracee)
      → Keeps {K = K} (λ w. IsSound w × (w.tracees pid ≡ o)) (collect_tracee pid o)
  unfolding collect_tracee notify
  collect_tracee-Keeps pid none = Triple-give (λ w p. p.0)
  collect_tracee-Keeps pid (some t) =
      Triple-if (not (is_dead t.run)) (λ living. Triple-throw tt (λ w p. p.0))
        (λ is_gone. record { from = from' (ground (arith, is_gone)) })
    where
      from' :
          is_dead t.run ≡ true
          → (w : World K) → IsSound w × (w.tracees pid ≡ some t)
          → Post (λ u. IsSound) ((tell t.process orphan >> erase pid) w)
      from' is_gone w (sound, here) =
          let (below, pid', agrees) = sound.1 pid t here in
          let p : Process = record (w.heap t.process) { state = orphaned } in
          let e : notify w.heap t.process orphan ≡ (update w.heap t.process p, none) =
            ap (on_process w.heap t.process)
              (notify_orphaned-zombie (w.heap t.process) (dead-zombie t.run _ is_gone agrees)) in
          let all : AllCoherent (update w.heap t.process p) =
            rw e at (notify-AllCoherent w.heap t.process orphan sound.0) in
          let self : (t.process == t.process) ≡ true = ground arith in
          Post-by (λ u. IsSound)
            (ap (λ x. after x (λ u. erase pid))
              (tell-is t.process orphan w (update w.heap t.process p, none) e))
            (
              all,
              change-AllLinked w.tracees w.heap w.fresh t.process p pid none sound.1 pid' pid'
                  (λ u f. cc),
            )

  collect_orphan-Keeps : (pid : ℤ) → Keeps {K = K} IsSound (collect_orphan pid)
  unfolding collect_orphan
  collect_orphan-Keeps pid = record {
    from = λ w sound.
        Post-if (λ u. IsSound) (contains pid w.recycled) _ _ (λ again. sound)
          (λ once. (collect_tracee-Keeps pid (w.tracees pid)).from w (sound, refl));
  }

  pub collect-Keeps : (pids : List ℤ) → Keeps {K = K} IsSound (collect pids)
  unfolding collect
  collect-Keeps [] = record { from = λ w sound. sound }
  collect-Keeps (pid ∷ qs) = record {
    from = λ w sound.
        (Triple-then (λ u. IsSound) (collect_orphan-Keeps pid) (λ u. collect-Keeps qs)).from
          (record w { orphans = qs }) sound;
  }

  pub collect_orphans-Keeps : Keeps {K = K} IsSound collect_orphans
  unfolding collect_orphans
  collect_orphans-Keeps = record { from = λ w sound. (collect-Keeps w.orphans).from w sound }

  -- The tree behind a child's reaping: the child is forgotten, its parent is live.
  reaped-Post :
      (pid chosen : ℤ) (t child : Tracee) (w : World K) (h : Heap) (o : Heap × Option Fault)
      → notify w.heap t.process (reaped_child child.process) ≡ o
      → AllCoherent o.0
      → AllSame h o.0
      → IsPlain (outcome_of o.1)
      → AllLinked (put w.tracees chosen none) h w.fresh
      → (chosen ==ℤ pid) ≡ false
      → w.tracees pid ≡ some t
      → is_dead t.run ≡ false
      → Post (λ u. LiveAs pid t) ((tell t.process (reaped_child child.process) >> erase chosen) w)
  reaped-Post pid chosen t child w h (h', none) e all same plain linked other here living =
      Post-by (λ u. LiveAs pid t)
        (ap (λ x. after x (λ u. erase chosen))
          (tell-is t.process (reaped_child child.process) w (h', none) e))
        (
          (all, same-AllLinked (put w.tracees chosen none) h h' w.fresh linked same),
          rw other here,
          living,
        )
  reaped-Post pid chosen t child w h (h', some f) e all same plain linked other here living =
      Post-by (λ u. LiveAs pid t)
        (ap (λ x. after x (λ u. erase chosen))
          (tell-is t.process (reaped_child child.process) w (h', some f) e))
        (plain, λ q. absurd (ground (arith, q)))

  reap-Post :
      (pid chosen : ℤ) (t child : Tracee) (w : World K)
      → LiveAs pid t w
      → w.tracees chosen ≡ some child
      → is_dead child.run ≡ true
      → Post (λ u. LiveAs pid t) ((tell t.process (reaped_child child.process) >> erase chosen) w)
  unfolding notify
  reap-Post pid chosen t child w (sound, here, living) found is_gone =
      let (below, pid', agrees) = sound.1 chosen child found in
      let z : (w.heap child.process).state ≡ zombie = dead-zombie child.run _ is_gone agrees in
      let p : Process = record (w.heap child.process) { state = reaped } in
      let h : Heap = update w.heap child.process p in
      let m : Result (List Event) = resolve_wait (reap_event child.process) (h t.process).history in
      let m' : Result Process = m >>= λ es. ok (record (h t.process) { history = es }) in
      let (same, plain) =
        on_process-Mild h t.process m'
          (resolved-IsMild (h t.process) m (resolve_wait-FaultsInTurn _ _)) in
      let e : notify w.heap t.process (reaped_child child.process) ≡ on_process h t.process m' =
        notify_reaped-zombie w.heap t.process child.process z in
      let other : (chosen ==ℤ pid) ≡ false = elim (Bool-cases (chosen ==ℤ pid)) [
        | inl hit ↦
            let at_pid : w.tracees pid ≡ some child = rw (← (==ℤ_iff chosen pid).0 hit) found in
            absurd (ground (arith, at_pid, here, is_gone, living))
        | inr miss ↦ miss
      ] in
      reaped-Post pid chosen t child w h (on_process h t.process m') e
        (rw e at (notify-AllCoherent w.heap t.process (reaped_child child.process) sound.0)) same
        plain
        (change-AllLinked w.tracees w.heap w.fresh child.process p chosen none sound.1 pid' pid'
          (λ u f. cc))
        other here living

module _ {K : Type 0} (kernel : Kernel K) where
  pub on_success-Stays :
      (pid : ℤ) (t : Tracee) (chosen : ℤ)
      → Triple (LiveAs pid t) (on_success kernel pid t.process chosen) (λ u. LiveAs pid t)
  unfolding on_success
  on_success-Stays pid t chosen = record {
    from = λ w live.
        Post-option (λ u. LiveAs pid t) (w.tracees chosen) _ _ (λ gone. (tt, λ q. live.0))
          (λ child found.
            Post-if (λ u. LiveAs pid t) (is_dead child.run) _ _
              (reap-Post pid chosen t child w live found) (λ e. (tt, λ q. live.0)));
  }
