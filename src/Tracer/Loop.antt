-- ===== src/Tracer/Loop.antt =====
-- The public functions of the tracer (src/tracer/tracer.cpp). The lock is left out: each function runs
-- to its end before another begins.
use forktrace.Prelude.{
  ℕ, zero, suc, ℤ, ◌==ℤ◌, Bool, true, false, not, ◌||◌, if◌then◌else◌, Option, none, some, List, [],
  ◌∷◌, ◌++◌, Str,
}
use forktrace.Event.{Ref}
use forktrace.Tree.{started, orphan}
use forktrace.Action.{bad_trace, runtime_error, starved, done, raised, M, ◌>>=◌, ◌>>◌, give, throw}
use forktrace.Kernel.{got, failed, Kernel, sigkill}
use forktrace.Ptrace.{must}
use forktrace.Ptrace.Start.{start_tracee}
use forktrace.Tracer.{
  World, Tracee, is_dead, is_running, add_leader, has_execed, lift, tell, erase, add_tracee,
  new_object,
}
use forktrace.Tracer.Stops.{resume, expect_ended}
use forktrace.Tracer.Entry.{handle_wait_notification}

-- The first of the recycled pids that is this one goes.
abbrev pub contains : ℤ → List ℤ → Bool
contains pid [] = false
contains pid (q ∷ qs) = if pid ==ℤ q then true else contains pid qs

abbrev pub remove_first : ℤ → List ℤ → List ℤ
remove_first pid [] = []
remove_first pid (q ∷ qs) = if pid ==ℤ q then qs else q ∷ remove_first pid qs

abbrev pub has_none : List ℤ → Bool
has_none [] = true
has_none (pid ∷ pids) = false

module _ {K : Type 0} where
  -- An orphan that is one of the tracees.
  unfoldable pub collect_tracee : ℤ → Option Tracee → M (World K) (Unit {0})
  collect_tracee pid none = give tt
  collect_tracee pid (some t) =
      if not (is_dead t.run) then throw (bad_trace pid) else (tell t.process orphan >> erase pid)

  unfoldable pub collect_orphan : ℤ → M (World K) (Unit {0})
  collect_orphan pid w =
      if contains pid w.recycled
      then (record w { recycled = remove_first pid w.recycled }, done tt)
      else collect_tracee pid (w.tracees pid) w

  -- The loop of `_collect_orphans`, over what is in the queue.
  unfoldable pub collect : List ℤ → M (World K) (Unit {0})
  collect [] w = (record w { orphans = [] }, done tt)
  collect (pid ∷ qs) w = (collect_orphan pid >> collect qs) (record w { orphans = qs })

  -- `_collect_orphans`.
  unfoldable pub collect_orphans : M (World K) (Unit {0})
  collect_orphans w = collect w.orphans w

  -- The loops of `_all_tracees_dead` (also `tracees_alive`) and `_are_tracees_running`.
  abbrev pub state_is : (Tracee → Bool) → World K → ℤ → Bool
  state_is test w pid = elim (w.tracees pid) [ none ↦ false | some t ↦ test t ]

  abbrev pub any_tracee : (Tracee → Bool) → World K → List ℤ → Bool
  any_tracee test w [] = false
  any_tracee test w (pid ∷ pids) = state_is test w pid || any_tracee test w pids

  unfoldable pub all_tracees_dead : World K → Bool
  all_tracees_dead w = not (any_tracee (λ t. not (is_dead t.run)) w w.pids)

  unfoldable pub are_tracees_running : World K → Bool
  are_tracees_running w = any_tracee (λ t. is_running t.run) w w.pids

  unfoldable pub tracees_alive : World K → Bool
  tracees_alive w = any_tracee (λ t. not (is_dead t.run)) w w.pids

  unfoldable pub tracees_exist : World K → Bool
  tracees_exist w = not (has_none w.pids)

  -- `notify_orphan`.
  unfoldable pub notify_orphan : ℤ → M (World K) (Unit {0})
  notify_orphan pid w = (record w { orphans = w.orphans ++ pid ∷ [] }, done tt)

  -- `check_orphans`.
  unfoldable pub check_orphans : M (World K) (Unit {0})
  check_orphans = collect_orphans

module _ {K : Type 0} (kernel : Kernel K) (fuel : ℕ) where
  -- The loop of `step` that resumes all tracees.
  unfoldable pub resume_all : List ℤ → M (World K) (Unit {0})
  resume_all [] = give tt
  resume_all (pid ∷ pids) = resume kernel pid >> resume_all pids

  -- The body of the loop of `step` over the notifications: does the loop go on? `none` is a break.
  unfoldable pub handle_event : ℤ → ℕ → M (World K) (Option Bool)
  handle_event pid status w = elim (w.tracees pid) [
    | none ↦ (w, done (some true))
    | some t ↦
        (do
          handle_wait_notification kernel fuel pid status
          collect_orphans
          λ w'. (w', done (if all_tracees_dead w' then none else some (are_tracees_running w'))))
          w
  ]

  -- The loop, for at most so many notifications, and what `step` returns.
  unfoldable pub wait_loop : ℕ → M (World K) Bool
  wait_loop zero w = (w, raised starved)
  wait_loop (suc rounds) w = elim (kernel.wait_any w.system).1 [
    | failed e ↦ (record w { system = (kernel.wait_any w.system).0 }, done (tracees_exist w))
    | got event ↦
        (handle_event event.0 event.1 >>= λ o. elim o [
          | none ↦ λ w'. (w', done (tracees_exist w'))
          | some true ↦ wait_loop rounds
          | some false ↦ give true
        ])
          (record w { system = (kernel.wait_any w.system).0 })
  ]

  -- `step`: are there tracees left?
  unfoldable pub step : ℕ → M (World K) Bool
  step rounds w =
      if not (tracees_exist w)
      then (w, done false)
      else (do
        resume_all w.pids
        collect_orphans
        λ w'. if are_tracees_running w' then wait_loop rounds w' else (w', done (tracees_exist w')))
          w

  -- The loop of `start`, until the leader has execed.
  unfoldable pub await_exec : ℕ → ℤ → M (World K) (Unit {0})
  await_exec zero pid w = (w, raised starved)
  await_exec (suc rounds) pid w =
      if has_execed pid w.leaders then (w, done tt) else elim (w.tracees pid) [
        | none ↦ (w, raised runtime_error)
        | some t ↦
            (do
              ok' ← resume kernel pid
              if not ok' then (expect_ended kernel pid >> throw runtime_error) else (do
                status ← lift (λ k. must (kernel.wait_for pid k))
                handle_wait_notification kernel fuel pid status
                await_exec rounds pid))
              w
      ]

  abbrev pub lead : ℤ → M (World K) (Unit {0})
  lead pid w = (record w { leaders = add_leader pid w.leaders }, done tt)

  -- `start`: the new leader's process.
  unfoldable pub start : ℕ → Str → List Str → M (World K) Ref
  start rounds program argv = do
    pid ← lift (start_tracee kernel fuel)
    process ← new_object (started pid program argv)
    lead pid
    add_tracee pid process
    await_exec rounds pid
    give process

  -- `nuke`: kills the process groups of all leaders, whatever comes of it.
  unfoldable pub kill_groups : List (ℤ × Bool) → K → K
  kill_groups [] k = k
  kill_groups ((pid, execed) ∷ ls) k = kill_groups ls (kernel.killpg pid sigkill k).0

  unfoldable pub nuke : M (World K) (Unit {0})
  nuke w =
      if tracees_exist w
      then (record w { system = kill_groups w.leaders w.system }, done tt)
      else (w, done tt)
