-- ===== src/Tests/Tracer.antt =====
-- The tracer on a small kernel.
use forktrace.Prelude.{
  replicate, drop, ◌++◌, ℕ, zero, suc, ◌≡◌, refl, ◌==ℤ◌, ==ℤ_iff, ℤ, pos, false, Bool-cases, inl,
  inr, none, some, [], ◌∷◌, codes, ◌<◌, arith, true, if◌then◌else◌, ◌==◌,
}
use forktrace.Status.{is_stopped}
use forktrace.Event.{exit_event}
use forktrace.Process.{zombie, orphaned, new_process, notify_ended, add_event}
use forktrace.Tree.{Heap, notify}
use forktrace.Action.{done, ◌>>◌}
use forktrace.Kernel.{Kernel, Sys, got, failed, echild}
use forktrace.Ptrace.Memory.{
  bytes_of, word_of, peek_words, copy_from_tracee, copy_string_from_tracee,
}
use forktrace.Ptrace.Memory.Copies.{copy_from_tracee-span}
use forktrace.Ptrace.Start.{errno_to_exit_status}
use forktrace.Tracer.{World, Tracee, RunState, running, stopped, dead, put, new_tracee, add_tracee}
use forktrace.Tracer.Stops.{resume, handle_notification, record_end}
use forktrace.Tracer.Entry.{handle_wait_notification}
use forktrace.Tracer.Loop.{
  step, start, notify_orphan, check_orphans, resume_all, collect_orphans, collect,
  are_tracees_running, wait_loop, handle_event, all_tracees_dead, tracees_exist,
}
use forktrace.Ptrace.{resume_tracee}
use forktrace.Tracer.Awake.{is_awake, resume_all-is_awake}
use forktrace.Tracer.Recycle.{add_tracee-check_orphans}
use forktrace.Ptrace.Memory.Strings.{span, copy_string_from_tracee-Holds}
use forktrace.Tracer.Sound.Calls.{
  LinkedAt, IsConsistent, Leaves, step-Leaves, start-Leaves, check_orphans-Leaves,
  check_orphans_collects,
}

-- The memory: "ls" stands at the address 100.
abbrev pub stored : ℕ → ℕ
stored a = if a == 100 then 108 else if a == 101 then 115 else 0

-- One status, for whoever waits first.
abbrev pub waited : ℕ → ℕ → ℕ × Sys ℕ
waited status zero = (0, failed echild)
waited status (suc n) = (n, got status)

abbrev pub any_waited : ℕ → ℕ → ℕ × Sys (ℤ × ℕ)
any_waited status zero = (0, failed echild)
any_waited status (suc n) = (n, got (pos 5, status))

abbrev pub scripted : ℕ → Kernel ℕ
scripted status = record {
  peek_user = λ pid a k. (k, got 0);
  poke_user = λ pid a v k. (k, got tt);
  get_regs = λ pid k.
      (k, got (record { orig_rax = 0; rdi = 0; rsi = 0; rdx = 0; r10 = 0; r8 = 0; r9 = 0 }));
  peek_data = λ pid a k. (k, got (word_of (span stored a 8)));
  poke_data = λ pid a v k. (k, got tt);
  resume = λ pid s k. (k, got tt);
  cont = λ pid k. (k, got tt);
  set_options = λ pid o k. (k, got tt);
  get_event_message = λ pid k. (k, got 0);
  get_sender = λ pid k. (k, got (pos 0));
  wait_for = λ pid. waited status;
  wait_any = any_waited status;
  fork = λ k. (k, got (pos 5));
  kill = λ pid s k. (k, got tt);
  killpg = λ pid s k. (k, got tt);
  page_size = 4096;
}

-- One tracee, of the process at the address 0.
abbrev pub one_tracee : RunState → Tracee
one_tracee run = record {
  pid = pos 5;
  run = run;
  syscall = pos 0;
  signal = 0;
  call = none;
  process = 0;
}

abbrev pub one_process : Heap
one_process r = new_process (pos 5) (codes "ls") []

abbrev pub one : Heap → RunState → World ℕ
one h run = record {
  system = 1;
  tracees = put (λ pid. none) (pos 5) (some (one_tracee run));
  pids = pos 5 ∷ [];
  orphans = [];
  leaders = [];
  recycled = [];
  heap = h;
  fresh = 1;
}

pub one-IsConsistent : IsConsistent (one one_process running)
unfolding new_process
one-IsConsistent = ((λ r. (refl, refl)), λ pid. linked pid)
  where
    linked :
        (pid : ℤ)
        → LinkedAt one_process 1 pid (put (λ q. none) (pos 5) (some (one_tracee running)) pid)
    linked pid = elim (Bool-cases (pos 5 ==ℤ pid)) [
      | inl same ↦ rw same (omega arith, (==ℤ_iff (pos 5) pid).0 same, refl)
      | inr other ↦ rw other tt
    ]

-- The tracee exits with the status 3.
step-Leaves_example : Leaves (step (scripted 768) 10 3 (one one_process running))
step-Leaves_example = step-Leaves (scripted 768) 10 3 (one one_process running) one-IsConsistent

start-Leaves_example : Leaves (start (scripted 4991) 10 3 (codes "ls") [] (one one_process running))
start-Leaves_example =
    start-Leaves (scripted 4991) 10 3 (codes "ls") [] (one one_process running) one-IsConsistent

check_orphans-Leaves_example :
    Leaves ((notify_orphan (pos 5) >> check_orphans) (one one_process running))
check_orphans-Leaves_example =
    check_orphans-Leaves (pos 5) (one one_process running) one-IsConsistent

not_stopped : is_stopped 768 ≡ false
not_stopped = refl

-- A process that has exited, and its dead tracee.
abbrev ended_process : Heap
ended_process r = record (new_process (pos 5) (codes "ls") []) {
  state = zombie;
  history = record { kind = exit_event (pos 3); location = none } ∷ [];
}

ended-IsConsistent : IsConsistent (one ended_process dead)
unfolding new_process
ended-IsConsistent = ((λ r. (refl, refl)), λ pid. linked pid)
  where
    linked :
        (pid : ℤ)
        → LinkedAt ended_process 1 pid (put (λ q. none) (pos 5) (some (one_tracee dead)) pid)
    linked pid = elim (Bool-cases (pos 5 ==ℤ pid)) [
      | inl same ↦ rw same (omega arith, (==ℤ_iff (pos 5) pid).0 same, refl)
      | inr other ↦ rw other tt
    ]

check_orphans_collects_example :
    (((notify_orphan (pos 5) >> check_orphans) (one ended_process dead)).1 ≡ done tt)
    × (((notify_orphan (pos 5) >> check_orphans) (one ended_process dead)).0.tracees (pos 5) ≡ none)
    × ((((notify_orphan (pos 5) >> check_orphans) (one ended_process dead)).0.heap 0).state
        ≡ orphaned)
check_orphans_collects_example =
    check_orphans_collects (pos 5) (one_tracee dead) (one ended_process dead) ended-IsConsistent
      refl refl refl refl

known_errno : errno_to_exit_status 14 < 7
unfolding errno_to_exit_status
known_errno = omega arith

-- Of eight bytes to be copied, none is stored.
copy_whole_word :
    (copy_from_tracee (scripted 0) (pos 5) (7 ∷ 7 ∷ 7 ∷ 7 ∷ 7 ∷ 7 ∷ 7 ∷ 7 ∷ []) 0 0).1
    ≡ done (some (7 ∷ 7 ∷ 7 ∷ 7 ∷ 7 ∷ 7 ∷ 7 ∷ 7 ∷ []))
unfolding copy_from_tracee peek_words bytes_of
copy_whole_word = refl

stored_small : (b : ℕ) → stored b < 256
stored_small b = ground arith

copy_string_from_tracee-Holds_example :
    copy_string_from_tracee (scripted 0) (pos 5) 1 100 0 ≡ (0, codes "ls", done true)
copy_string_from_tracee-Holds_example =
    copy_string_from_tracee-Holds (scripted 0) (pos 5) stored 1 100 0 (codes "ls") (λ a k. refl)
      stored_small (omega arith) (refl, refl, (refl, refl, refl))

add_tracee-check_orphans_example :
    (((add_tracee (pos 5) 1 >> (notify_orphan (pos 5) >> check_orphans)) (one ended_process dead)).1
      ≡ done tt)
    × (((add_tracee (pos 5) 1 >> (notify_orphan (pos 5) >> check_orphans))
            (one ended_process dead)).0.tracees
          (pos 5)
        ≡ some (new_tracee (pos 5) 1))
    × (((add_tracee (pos 5) 1 >> (notify_orphan (pos 5) >> check_orphans))
          (one ended_process dead)).0.recycled
        ≡ [])
add_tracee-check_orphans_example =
    add_tracee-check_orphans (pos 5) 1 (one_tracee dead) (one ended_process dead) refl refl refl

-- The step of the one tracee, which ends.
step_result : (step (scripted 768) 10 3 (one one_process running)).1 ≡ done true
unfolding step resume_all resume collect_orphans collect are_tracees_running wait_loop handle_event
    handle_wait_notification handle_notification record_end notify notify_ended new_process
    add_event all_tracees_dead tracees_exist
step_result = refl

copy_from_tracee-span_example : copy_from_tracee (scripted 0) (pos 5) (replicate 12 7) 100 0 ≡ (
  0,
  done (some (if 4 == 0 then span stored 100 0 ++ drop 0 (replicate 12 7) else span stored 100 12)),
)
copy_from_tracee-span_example =
    copy_from_tracee-span (scripted 0) (pos 5) stored 1 4 100 (replicate 12 7) 0 (λ a k. refl)
      stored_small (omega arith) refl (omega arith)

resume_all_returns : (resume_all (scripted 0) 10 (pos 5 ∷ []) (one one_process stopped)).1 ≡ done tt
unfolding resume_all resume resume_tracee
resume_all_returns = refl

resume_all-is_awake_example :
    is_awake ((resume_all (scripted 0) 10 (pos 5 ∷ []) (one one_process stopped)).0.tracees (pos 5))
    ≡ true
resume_all-is_awake_example =
    resume_all-is_awake (scripted 0) 10 (pos 5 ∷ []) (pos 5) (one one_process stopped)
      resume_all_returns refl
