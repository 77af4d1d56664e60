-- ===== src/Tracer/Sound/Changes.antt =====
-- The end of a tracee, and the tracees that come and go.
use forktrace.Prelude.{
  ℕ, ◌≡◌, ap, if◌then◌else◌, ◌∙◌, ℤ, ◌==◌, true, ◌||◌, inl, inr, none, some, arith,
}
use forktrace.Status.{is_exited, is_signaled}
use forktrace.Kernel.{Kernel}
use forktrace.Process.{
  Process, alive, zombie, Result, ok, fault, Result-cases, notify_ended, add_event,
}
use forktrace.Tree.{update, notify, ended, on_process}
use forktrace.Tree.Coherence.{AllCoherent, notify-AllCoherent}
use forktrace.Tracer.{dead, Tracee, World, put, tell, erase, modify, is_leader}
use forktrace.Tracer.Stops.{record_end}
use forktrace.Tracer.Sound.{AllLinked, IsSound, LiveAs, Post, Triple, Triple-then, Keeps}
use forktrace.Tracer.Sound.Maps.{change-AllLinked}
use forktrace.Tracer.Sound.Rules.{Live-alive, Post-by, Post-if, tell-is}
use forktrace.Tracer.Sound.Live.{modify-some}

-- The end of a living process makes it a zombie.
abbrev Ends : Process → Result Process → Type 0
Ends p (ok q) = (q.pid ≡ p.pid) × (q.state ≡ zombie)
Ends p (fault f) = ⊥

notify_ended-Ends :
    (p : Process) (status : ℕ)
    → p.state ≡ alive
    → (is_exited status || is_signaled status) ≡ true
    → Ends p (notify_ended p status)
unfolding notify_ended add_event
notify_ended-Ends p status a e = ground arith

module _ {K : Type 0} (kernel : Kernel K) where
  -- Behind the end of a process: its tracee is to be erased or marked.
  abbrev Ended : ℤ → Tracee → World K → Type 0
  Ended pid t w =
      AllCoherent w.heap
      × (w.tracees pid ≡ some t)
      × AllLinked (put w.tracees pid none) w.heap w.fresh
      × AllLinked (put w.tracees pid (some (record t { run = dead }))) w.heap w.fresh

  fate-Ended :
      (pid : ℤ) (t : Tracee) (status : ℕ) (w : World K) (q : Process)
      → LiveAs pid t w
      → notify_ended (w.heap t.process) status ≡ ok q
      → Ends (w.heap t.process) (ok q)
      → Ended pid t (record w { heap = update w.heap t.process q })
  unfolding notify
  fate-Ended pid t status w q (sound, here, living) e ends =
      let (below, pid', agrees) = sound.1 pid t here in
      let q' : q.pid ≡ pid = ends.0 ∙ pid' in
      let all : AllCoherent (update w.heap t.process q) =
        rw e at (notify-AllCoherent w.heap t.process (ended status) sound.0) in
      let self : (t.process == t.process) ≡ true = ground arith in
      (
        all,
        here,
        change-AllLinked w.tracees w.heap w.fresh t.process q pid none sound.1 pid' q' (λ u f. cc),
        change-AllLinked w.tracees w.heap w.fresh t.process q pid (some (record t { run = dead }))
            sound.1 pid' q'
            (λ u f.
              let u' : record t { run = dead } ≡ u = ground (arith, f) in
              rw (← u', self) (below, q', ends.1)),
      )

  tell_ended-lem :
      (pid : ℤ) (t : Tracee) (status : ℕ)
      → (is_exited status || is_signaled status) ≡ true
      → Triple {K = K} (LiveAs pid t) (tell t.process (ended status)) (λ u. Ended pid t)
  unfolding notify
  tell_ended-lem pid t status e = record { from = from' }
    where
      from' :
          (w : World K) → LiveAs pid t w → Post (λ u. Ended pid t) (tell t.process (ended status) w)
      from' w live =
          let ends = notify_ended-Ends (w.heap t.process) status (Live-alive pid t w live) e in
          elim (Result-cases (notify_ended (w.heap t.process) status)) [
            | inl (q, r) ↦
                Post-by (λ u. Ended pid t)
                  (tell-is t.process (ended status) w (update w.heap t.process q, none)
                    (ap (on_process w.heap t.process) r))
                  (fate-Ended pid t status w q live r (rw r at ends))
            | inr (f, r) ↦ absurd (rw r at ends)
          ]

  -- The end of a tracee leaves a sound world.
  pub record_end-Keeps :
      (pid : ℤ) (t : Tracee) (status : ℕ)
      → (is_exited status || is_signaled status) ≡ true
      → Keeps {K = K} (LiveAs pid t) (record_end kernel pid t status)
  unfolding record_end
  record_end-Keeps pid t status e =
      Triple-then (λ u. Ended pid t) (tell_ended-lem pid t status e) (λ u. record { from = from' })
    where
      from' :
          (w : World K)
          → Ended pid t w
          → Post
              (λ u. IsSound)
              ((if is_leader pid w.leaders
                then erase pid w
                else modify pid (λ t'. record t' { run = dead }) w))
      from' w (all, here, gone, marked) =
          Post-if (λ u. IsSound) (is_leader pid w.leaders) _ _ (λ leads. (all, gone))
            (λ other.
              Post-by (λ u. IsSound) (modify-some pid (λ t'. record t' { run = dead }) t w here)
                (all, marked))
