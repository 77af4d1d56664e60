-- ===== src/Texts/Death.antt =====
-- The texts that ask the death of a process, and the table of system calls.
use forktrace.Prelude.{
  ◌∙◌, dec_lt, ℕ, zero, suc, ◌<◌, ◌≡◌, ◌↔◌, inl, inr, refl, ap, ℤ, pos, negsuc, Bool, true, false,
  Bool-cases, Option, none, some, List, [], ◌∷◌, length, get_elem?, Str, arith,
}
use forktrace.Event.{
  Ref, WaitEvent, SignalEvent, Kind, fork_event, wait_event, reap_event, raise_event, kill_event,
  signal_event, exit_event, exec_event, Event,
}
use forktrace.Process.{Process, State, alive, zombie, reaped, orphaned, is_alive}
use forktrace.Process.Death.{death, Coherent, IsCoherent}
use forktrace.Tree.{Heap}
use forktrace.Diagram.Lines.{◌>>=◌}
use forktrace.Texts.{
  SyscallInfo, get_syscall_arg_count, death_event, event_text, exit_text, signal_event_text,
  reap_text,
}

module _ (strerror : ℤ → Str) (own_pid : ℤ) where
  -- A text that tells how the process ended: that it exited, or that a signal killed it.
  pub data Tells (p : Process) : Str → Type 0 where
    exited : (status : ℤ) → p.killed ≡ false → Tells p (exit_text p.pid status)
    by_signal :
        (s : SignalEvent)
        → p.killed ≡ true
        → s.killed ≡ true
        → Tells p (signal_event_text strerror own_pid p.pid s)

  death_text :
      (h : Heap) (r : Ref) (fuel : ℕ) (k : Kind)
      → death k ≡ some (h r).killed
      → (d : Str) × (event_text strerror own_pid (suc fuel) h r k ≡ some d) × Tells (h r) d
  unfolding event_text
  death_text h r fuel (exit_event status) e =
      (exit_text (h r).pid status, refl, exited status (ground (arith, e)))
  death_text h r fuel (signal_event s) e = elim (Bool-cases s.killed) [
    | inl y ↦
        (signal_event_text strerror own_pid (h r).pid s, refl, by_signal s (ground (arith, e, y)) y)
    | inr n ↦ absurd (ground (arith, e, n))
  ]
  death_text h r fuel (fork_event child) e = absurd (ground (arith, e))
  death_text h r fuel (wait_event w) e = absurd (ground (arith, e))
  death_text h r fuel (reap_event child w) e = absurd (ground (arith, e))
  death_text h r fuel (raise_event i n b) e = absurd (ground (arith, e))
  death_text h r fuel (kill_event i b) e = absurd (ground (arith, e))
  death_text h r fuel (exec_event x) e = absurd (ground (arith, e))

  last_event-death :
      (st : State) (es : List Event) (k : Bool)
      → Coherent st es k
      → is_alive st ≡ false
      → (e : Event) × (elim es as (λ l. Option Event) [ [] ↦ none | x ∷ xs ↦ some x ] ≡ some e)
        × (death e.kind ≡ some k)
  last_event-death alive es k c d = absurd (ground (arith, d))
  last_event-death zombie [] k c d = elim c [ ]
  last_event-death zombie (e ∷ es) k c d = (e, refl, c.0)
  last_event-death reaped [] k c d = elim c [ ]
  last_event-death reaped (e ∷ es) k c d = (e, refl, c.0)
  last_event-death orphaned [] k c d = elim c [ ]
  last_event-death orphaned (e ∷ es) k c d = (e, refl, c.0)

  -- Of a coherent process that is not alive, the death event is there, and its text tells how the
  -- process ended.
  death_event-Tells :
      (h : Heap) (r : Ref) (fuel : ℕ)
      → IsCoherent (h r)
      → is_alive (h r).state ≡ false
      → (e : Event) × (d : Str) × (death_event (h r) ≡ some e)
        × (event_text strerror own_pid (suc fuel) h r e.kind ≡ some d)
        × Tells (h r) d
  death_event-Tells h r fuel c gone =
      let (e, here, is_death) = last_event-death (h r).state (h r).history (h r).killed c gone in
      let (d, text, tells) = death_text h r fuel e.kind is_death in
      (e, d, rw (gone) here, text, tells)

  -- The text of a reap asserts that the child is dead and has a death event. Where the child is
  -- coherent and not alive, it does not fail: it names the child's death, that it exited, or that a
  -- signal killed it, as the child's `killed` says. No further recursion is needed.
  pub reap_event-Tells :
      (h : Heap) (r child : Ref) (w : WaitEvent) (fuel : ℕ)
      → IsCoherent (h child)
      → is_alive (h child).state ≡ false
      → (d : Str) × (event_text strerror own_pid (suc (suc fuel)) h r (reap_event child w)
          ≡ some (reap_text (h r).pid w d))
        × Tells (h child) d
  unfolding event_text
  reap_event-Tells h r child w fuel c gone =
      let (e, d, here, text, tells) = death_event-Tells h child fuel c gone in
      let named = λ (o : Option Str). o >>= λ t. some (reap_text (h r).pid w t) in
      let asked = λ (o : Option Event).
        o >>= λ x. named (event_text strerror own_pid (suc fuel) h child x.kind) in
      (d, ap asked here ∙ ap named text, tells)

get_elem?-some :
    (xs : List SyscallInfo) (n : ℕ) → n < length xs → (a : SyscallInfo) × (get_elem? xs n ≡ some a)
get_elem?-some [] n h = absurd (omega arith)
get_elem?-some (x ∷ xs) zero h = (x, refl)
get_elem?-some (x ∷ xs) (suc n) h = get_elem?-some xs n (omega arith)

get_elem?-end : (xs : List SyscallInfo) → get_elem? xs (length xs) ≡ none
get_elem?-end [] = refl
get_elem?-end (x ∷ xs) = get_elem?-end xs

-- The number of arguments of a system call is read out of the table's bounds for exactly one number,
-- the first behind the table.
pub get_syscall_arg_count-out_of_bounds :
    (syscalls : List SyscallInfo) (n : ℤ)
    → (get_syscall_arg_count syscalls n ≡ none) ↔ (n ≡ pos (length syscalls))
unfolding get_syscall_arg_count
get_syscall_arg_count-out_of_bounds syscalls (negsuc n) =
    (λ e. absurd (ground (arith, e)), λ e. absurd (ground (arith, e)))
get_syscall_arg_count-out_of_bounds syscalls (pos n) = (
  λ e. elim (dec_lt n (length syscalls)) [
    | yes p ↦ let (a, f) = get_elem?-some syscalls n p in absurd (ground (arith, e, f, p))
    | no p ↦ ap pos (ground (arith, e, p))
  ],
  λ e.
      let same : n ≡ length syscalls = ground (arith, e) in
      ground (arith, same, get_elem?-end syscalls),
)
