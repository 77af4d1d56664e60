-- ===== src/Ptrace.antt =====
-- The requests to the tracee (src/tracer/ptrace.cpp). A function that returns false when ptrace gives
-- ESRCH gives `none` here; its out-parameters are what it gives otherwise.
pub mod Memory
pub mod Start
pub mod Status
use forktrace.Prelude.{
  ℕ, ◌*◌, ◌/◌, ℤ, to_int, to_word, ◌==◌, ◌&&◌, if◌then◌else◌, Option, none, some, List, [], ◌∷◌,
  get_elem?,
}
use forktrace.Action.{
  Outcome, after, system_error, assertion, done, raised, M, ◌>>=◌, ◌>>◌, give, throw, if_some,
}
use forktrace.Kernel.{Sys, got, failed, Regs, Kernel, esrch}

-- ESRCH is false, any other error throws.
abbrev pub found : {K A : Type 0} → K × Sys A → K × Outcome (Option A)
found (k, got a) = (k, done (some a))
found (k, failed e) = if e == esrch then (k, done none) else (k, raised (system_error e))

-- A system call whose errors all throw.
abbrev pub must : {K A : Type 0} → K × Sys A → K × Outcome A
must (k, got a) = (k, done a)
must (k, failed e) = (k, raised (system_error e))

-- The offsets of <sys/reg.h>.
abbrev pub rbp_reg : ℕ
rbp_reg = 4

abbrev pub rax_reg : ℕ
rax_reg = 10

abbrev pub orig_rax_reg : ℕ
orig_rax_reg = 15

-- RDI, RSI, RDX, R10, R8, R9.
abbrev pub arg_regs : List ℕ
arg_regs = 14 ∷ 13 ∷ 12 ∷ 7 ∷ 9 ∷ 8 ∷ []

module _ {K : Type 0} (kernel : Kernel K) where
  unfoldable pub get_syscall_ret : ℤ → M K (Option ℕ)
  get_syscall_ret pid k = found (kernel.peek_user pid (8 * rax_reg) k)

  unfoldable pub set_syscall : ℤ → ℤ → M K (Option (Unit {0}))
  set_syscall pid syscall k = found (kernel.poke_user pid (8 * orig_rax_reg) (to_word syscall) k)

  -- `which_syscall`: the number and the six arguments.
  unfoldable pub which_syscall : ℤ → M K (Option (ℤ × List ℕ))
  which_syscall pid = (λ k. found (kernel.get_regs pid k)) >>= λ o.
      if_some o (give none)
        (λ r. give (some (to_int r.orig_rax, r.rdi ∷ r.rsi ∷ r.rdx ∷ r.r10 ∷ r.r8 ∷ r.r9 ∷ [])))

  unfoldable pub set_syscall_arg : ℤ → ℕ → ℕ → M K (Option (Unit {0}))
  set_syscall_arg pid val index = elim (get_elem? arg_regs index) [
    | none ↦ throw assertion
    | some reg ↦ λ k. found (kernel.poke_user pid (8 * reg) val k)
  ]

  -- `get_tracee_result_addr`: the beginning of the page that RBP points to. The mask of the source
  -- clears the bits below the page size, a power of two.
  unfoldable pub get_tracee_result_addr : ℤ → M K (Option ℕ)
  get_tracee_result_addr pid = (λ k. found (kernel.peek_user pid (8 * rbp_reg) k)) >>= λ o.
      if_some o (give none) (λ addr. give (some (addr / kernel.page_size * kernel.page_size)))

  unfoldable pub resume_tracee : ℤ → ℕ → M K (Option (Unit {0}))
  resume_tracee pid signal k = found (kernel.resume pid signal k)
