-- ===== src/Tracer/Sound/Requests.antt =====
-- The requests that read strings and that start a tracee throw nothing of the process tree.
use forktrace.Prelude.{
  ℕ, zero, suc, ◌+◌, ◌==◌, ℤ, Bool, true, false, if◌then◌else◌, Option, none, some, List, replicate,
  Str,
}
use forktrace.Status.{is_exited, is_signaled, wexitstatus}
use forktrace.Action.{Outcome, done, raised, M, ◌>>◌, system_error, runtime_error}
use forktrace.Kernel.{Sys, got, failed, Kernel, esrch, sigkill}
use forktrace.Ptrace.Memory.{
  peek, copy_string_from_tracee, copy_string_array_from_tracee, with_word, after_string, until_nul,
  bytes_of,
}
use forktrace.Ptrace.Start.{
  exit_status_to_errno, ptracer_options, start_tracee, await_sync, or_kill, throw_failed_start,
  kill_and_reap, reap_all, is_sync,
}
use forktrace.Tracer.{BlockingCall}
use forktrace.Tracer.WaitCall.{save_old, catching, is_bad_address, result_size}
use forktrace.Tracer.Handlers.{exec_strings, with_args, with_file, strictly}
use forktrace.Tracer.Sound.{IsPlain}
use forktrace.Tracer.Sound.Plain.{
  Plain, Plain-then, Plain-if, Plain-request, give-Plain, throw-Plain, must-Plain, found-Plain,
  copy_from_tracee-Plain,
}

Plain-after : {K A B : Type 0} {m : M K A} {n : M K B} → Plain m → Plain n → Plain (m >> n)
Plain-after h g = Plain-then h (λ a. g)

if-IsPlain :
    {S A : Type 0} (b : Bool) (x y : S × Outcome A)
    → IsPlain x.1
    → IsPlain y.1
    → IsPlain (if b then x else y).1
if-IsPlain true x y h g = h
if-IsPlain false x y h g = g

either-IsPlain :
    {S A : Type 0} (b : Bool) (x y : S × List A × Outcome Bool)
    → IsPlain x.2
    → IsPlain y.2
    → IsPlain (elim b as (λ c. S × List A × Outcome Bool) [ true ↦ x | false ↦ y ]).2
either-IsPlain true x y h g = h
either-IsPlain false x y h g = g

sys-IsPlain :
    {S A B : Type 0} (r : Sys A) (f : A → S × Outcome B) (g : ℕ → S × Outcome B)
    → ((a : A) → IsPlain (f a).1)
    → ((e : ℕ) → IsPlain (g e).1)
    → IsPlain (elim r as (λ q. S × Outcome B) [ got a ↦ f a | failed e ↦ g e ]).1
sys-IsPlain (got a) f g h k = h a
sys-IsPlain (failed e) f g h k = k e

with_word-IsPlain :
    {K A : Type 0} (x : K × Outcome (Option ℕ)) (next : ℕ → K → K × List A × Outcome Bool)
    → IsPlain x.1
    → ((word : ℕ) (k : K) → IsPlain (next word k).2)
    → IsPlain (with_word x next).2
with_word-IsPlain (k, raised e) next h g = h
with_word-IsPlain (k, done none) next h g = tt
with_word-IsPlain (k, done (some word)) next h g = g word k

after_string-IsPlain :
    {K : Type 0} (x : K × Str × Outcome Bool) (next : K → K × List Str × Outcome Bool)
    → IsPlain x.2
    → ((k : K) → IsPlain (next k).2)
    → IsPlain (after_string x next).2
after_string-IsPlain (k, s, done true) next h g = g k
after_string-IsPlain (k, s, done false) next h g = tt
after_string-IsPlain (k, s, raised e) next h g = h

catching-IsPlain :
    {S A : Type 0} (a : A) (x : S × Outcome A) → IsPlain x.1 → IsPlain (catching a x).1
catching-IsPlain a (s, done b) h = tt
catching-IsPlain a (s, raised e) h = if-IsPlain (is_bad_address e) _ _ tt h

with_file-IsPlain :
    {K : Type 0} (args : List Str) (x : K × Str × Outcome Bool)
    → IsPlain x.2
    → IsPlain (with_file args x).1
with_file-IsPlain args (k, file, done true) h = tt
with_file-IsPlain args (k, file, done false) h = tt
with_file-IsPlain args (k, file, raised e) h = if-IsPlain (is_bad_address e) _ _ tt h

with_args-IsPlain :
    {K : Type 0} (read_file : K → K × Str × Outcome Bool) (x : K × List Str × Outcome Bool)
    → ((k : K) → IsPlain (read_file k).2)
    → IsPlain x.2
    → IsPlain (with_args read_file x).1
with_args-IsPlain read_file (k, args, done true) g h = with_file-IsPlain args (read_file k) (g k)
with_args-IsPlain read_file (k, args, done false) g h = tt
with_args-IsPlain read_file (k, args, raised e) g h = if-IsPlain (is_bad_address e) _ _ tt h

strictly-IsPlain : {K : Type 0} (x : K × Str × Outcome Bool) → IsPlain x.2 → IsPlain (strictly x).1
strictly-IsPlain (k, s, done true) h = tt
strictly-IsPlain (k, s, done false) h = tt
strictly-IsPlain (k, s, raised e) h = h

module _ {K : Type 0} (kernel : Kernel K) where
  string-IsPlain :
      (pid : ℤ) (fuel addr : ℕ) (k : K) → IsPlain (copy_string_from_tracee kernel pid fuel addr k).2
  unfolding copy_string_from_tracee
  string-IsPlain pid zero addr k = tt
  string-IsPlain pid (suc fuel) addr k =
      with_word-IsPlain (peek kernel pid addr k) _
        ((found-Plain (kernel.peek_data pid addr)).at_all k)
        (λ word k'.
          either-IsPlain (until_nul (bytes_of 8 word)).1 _ _ tt
            (string-IsPlain pid fuel (addr + 8) k'))

  array-IsPlain :
      (pid : ℤ) (words fuel argv : ℕ) (k : K)
      → IsPlain (copy_string_array_from_tracee kernel pid words fuel argv k).2
  unfolding copy_string_array_from_tracee
  array-IsPlain pid words zero argv k = tt
  array-IsPlain pid words (suc fuel) argv k =
      with_word-IsPlain (peek kernel pid argv k) _
        ((found-Plain (kernel.peek_data pid argv)).at_all k)
        (λ arg k'. either-IsPlain (arg == 0) _ _ tt (
          after_string-IsPlain (copy_string_from_tracee kernel pid words arg k') _
            (string-IsPlain pid words arg k') (array-IsPlain pid words fuel (argv + 8))))

  pub exec_strings-Plain :
      (fuel : ℕ) (pid : ℤ) (path argv : ℕ) → Plain (exec_strings kernel fuel pid path argv)
  unfolding exec_strings
  exec_strings-Plain fuel pid path argv = record {
    at_all = λ k.
        with_args-IsPlain (copy_string_from_tracee kernel pid fuel path) _
          (string-IsPlain pid fuel path) (array-IsPlain pid fuel fuel argv k);
  }

  pub strictly-Plain :
      (fuel : ℕ) (pid : ℤ) (addr : ℕ)
      → Plain (λ k. strictly (copy_string_from_tracee kernel pid fuel addr k))
  strictly-Plain fuel pid addr = record {
    at_all = λ k. strictly-IsPlain _ (string-IsPlain pid fuel addr k);
  }

  pub save_old-Plain : (c : BlockingCall) (pid : ℤ) (addr : ℕ) → Plain (save_old kernel c pid addr)
  unfolding save_old
  save_old-Plain c pid addr = record {
    at_all = λ k. catching-IsPlain (some none) _ (
        (Plain-request (copy_from_tracee-Plain kernel pid (replicate (result_size c) 0) addr)
            (λ old. give-Plain (some (some old)))).at_all
          k);
  }

  reap_all-IsPlain : (fuel : ℕ) (pid : ℤ) (k : K) → IsPlain (reap_all kernel fuel pid k).1
  unfolding reap_all
  reap_all-IsPlain zero pid k = tt
  reap_all-IsPlain (suc fuel) pid k =
      sys-IsPlain (kernel.wait_for pid k).1 _ _
        (λ status. reap_all-IsPlain fuel pid (kernel.wait_for pid k).0) (λ e. tt)

  kill_and_reap-Plain : (fuel : ℕ) (pid : ℤ) → Plain (kill_and_reap kernel fuel pid)
  unfolding kill_and_reap
  kill_and_reap-Plain fuel pid = record {
    at_all = λ k.
        let reaped = reap_all-IsPlain fuel pid (kernel.kill pid sigkill k).0 in
        sys-IsPlain (kernel.kill pid sigkill k).1 _ _ (λ u. reaped)
          (λ e. if-IsPlain (e == esrch) _ _ reaped tt);
  }

  failed_start-Plain :
      {A : Type 0} (fuel : ℕ) (pid : ℤ) (status : ℕ)
      → Plain {A = A} (throw_failed_start kernel fuel pid status)
  unfolding throw_failed_start
  failed_start-Plain fuel pid status =
      Plain-if (is_exited status)
        (throw-Plain (system_error (exit_status_to_errno (wexitstatus status))) tt)
        (Plain-if (is_signaled status) (throw-Plain runtime_error tt)
          (Plain-after (kill_and_reap-Plain fuel pid) (throw-Plain runtime_error tt)))

  or_kill-IsPlain :
      (fuel : ℕ) (pid : ℤ) (x : K × Sys (Unit {0})) → IsPlain (or_kill kernel fuel pid x).1
  or_kill-IsPlain fuel pid (k, got u) = tt
  or_kill-IsPlain fuel pid (k, failed e) =
      (Plain-after (kill_and_reap-Plain fuel pid) (throw-Plain (system_error e) tt)).at_all k

  await_sync-Plain : (fuel : ℕ) (pid : ℤ) → Plain (await_sync kernel fuel pid)
  unfolding await_sync
  await_sync-Plain fuel pid =
      Plain-then (must-Plain (kernel.wait_for pid))
        (λ status. Plain-if (is_sync status) (give-Plain tt) (failed_start-Plain fuel pid status))

  pub start_tracee-Plain : (fuel : ℕ) → Plain (start_tracee kernel fuel)
  unfolding start_tracee
  start_tracee-Plain fuel = Plain-then (must-Plain kernel.fork) (λ pid.
      Plain-after
        (Plain-after
          (Plain-after
            (Plain-after (await_sync-Plain fuel pid)
              (record { at_all = λ k. or_kill-IsPlain fuel pid (kernel.cont pid k) }))
            (await_sync-Plain fuel pid))
          (record {
            at_all = λ k. or_kill-IsPlain fuel pid (kernel.set_options pid ptracer_options k);
          }))
        (give-Plain pid))
