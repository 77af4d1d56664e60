-- ===== src/Ptrace/Status.antt =====
-- How the child's errors reach the parent.
use forktrace.Prelude.{ℕ, ◌≡◌, ◌<◌, arith}
use forktrace.Ptrace.Start.{errno_to_exit_status, exit_status_to_errno}

-- An errno whose exit status is not the catch-all 7 is read back from its exit status.
pub exit_status_to_errno-errno_to_exit_status :
    (e : ℕ) → errno_to_exit_status e < 7 → exit_status_to_errno (errno_to_exit_status e) ≡ e
unfolding exit_status_to_errno errno_to_exit_status
exit_status_to_errno-errno_to_exit_status e known = ground arith
