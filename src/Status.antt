-- ===== src/Status.antt =====
-- The status words of wait(2): the macros of <sys/wait.h>, which the source uses, and those of
-- src/tracer/ptrace.hpp.
use forktrace.Prelude.{ℕ, ◌+◌, ◌*◌, ◌/◌, ◌%◌, Bool, ◌&&◌, ◌==◌, ltb}

abbrev pub wtermsig : ℕ → ℕ
wtermsig status = status % 128

abbrev pub wexitstatus : ℕ → ℕ
wexitstatus status = status / 256 % 256

abbrev pub wstopsig : ℕ → ℕ
wstopsig = wexitstatus

abbrev pub is_exited : ℕ → Bool
is_exited status = wtermsig status == 0

abbrev pub is_signaled : ℕ → Bool
is_signaled status = ltb 0 (wtermsig status) && ltb (wtermsig status) 127

abbrev pub is_stopped : ℕ → Bool
is_stopped status = status % 256 == 127

abbrev pub sigtrap : ℕ
sigtrap = 5

-- `IS_EVENT(status, event)`.
abbrev pub is_event : ℕ → ℕ → Bool
is_event status event = status / 256 == sigtrap + event * 256

abbrev pub is_fork_event : ℕ → Bool
is_fork_event status = is_event status 1

abbrev pub is_clone_event : ℕ → Bool
is_clone_event status = is_event status 3

abbrev pub is_exec_event : ℕ → Bool
is_exec_event status = is_event status 4

abbrev pub is_exit_event : ℕ → Bool
is_exit_event status = is_event status 6

-- `IS_SYSCALL_EVENT(status)`: SIGTRAP | 0x80.
abbrev pub is_syscall_event : ℕ → Bool
is_syscall_event status = wstopsig status == 133
