-- ===== src/Kernel.antt =====
-- The system calls that the tracer makes: a parameter of the model. The kernel's state is of any
-- type; a call changes it and gives a value or an errno.
use forktrace.Prelude.{ℕ, ℤ}

pub data Sys (A : Type 0) : Type 0 where
  got : A → Sys A
  failed : ℕ → Sys A

-- `struct user_regs_struct`, as far as it is read.
pub record Regs : Type 0 where
  pub orig_rax : ℕ
  pub rdi : ℕ
  pub rsi : ℕ
  pub rdx : ℕ
  pub r10 : ℕ
  pub r8 : ℕ
  pub r9 : ℕ

pub record Kernel (K : Type 0) : Type 0 where
  -- `ptrace` with PTRACE_PEEKUSER, PTRACE_POKEUSER, PTRACE_GETREGS, PTRACE_PEEKDATA, PTRACE_POKEDATA
  pub peek_user : ℤ → ℕ → K → K × Sys ℕ
  pub poke_user : ℤ → ℕ → ℕ → K → K × Sys (Unit {0})
  pub get_regs : ℤ → K → K × Sys Regs
  pub peek_data : ℤ → ℕ → K → K × Sys ℕ
  pub poke_data : ℤ → ℕ → ℕ → K → K × Sys (Unit {0})
  -- ... with PTRACE_SYSCALL and a signal, PTRACE_CONT, PTRACE_SETOPTIONS, PTRACE_GETEVENTMSG, and
  -- PTRACE_GETSIGINFO for the sender
  pub resume : ℤ → ℕ → K → K × Sys (Unit {0})
  pub cont : ℤ → K → K × Sys (Unit {0})
  pub set_options : ℤ → ℕ → K → K × Sys (Unit {0})
  pub get_event_message : ℤ → K → K × Sys ℕ
  pub get_sender : ℤ → K → K × Sys ℤ
  -- `waitpid(pid, &status, 0)`, `wait(&status)`, `fork` in the parent, `kill` and `killpg`
  pub wait_for : ℤ → K → K × Sys ℕ
  pub wait_any : K → K × Sys (ℤ × ℕ)
  pub fork : K → K × Sys ℤ
  pub kill : ℤ → ℕ → K → K × Sys (Unit {0})
  pub killpg : ℤ → ℕ → K → K × Sys (Unit {0})
  -- `sysconf(_SC_PAGESIZE)`
  pub page_size : ℕ

abbrev pub eperm : ℕ
eperm = 1

abbrev pub esrch : ℕ
esrch = 3

abbrev pub eio : ℕ
eio = 5

abbrev pub echild : ℕ
echild = 10

abbrev pub efault : ℕ
efault = 14

abbrev pub ebusy : ℕ
ebusy = 16

abbrev pub einval : ℕ
einval = 22

abbrev pub sigkill : ℕ
sigkill = 9

abbrev pub sigstop : ℕ
sigstop = 19

abbrev pub sigchld : ℕ
sigchld = 17

abbrev pub sigttin : ℕ
sigttin = 21
