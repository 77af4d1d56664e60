-- ===== src/Ptrace/Memory/Words.antt =====
-- Words and their bytes.
use forktrace.Prelude.{ℕ, ◌≡◌, ◌<◌, ◌^◌, arith}
use forktrace.Ptrace.Memory.{bytes_of, word_of}

-- A word is read back from its eight bytes.
pub word_of-bytes_of : (w : ℕ) → w < 2 ^ 64 → word_of (bytes_of 8 w) ≡ w
unfolding word_of bytes_of
word_of-bytes_of w small = omega (arith, small)
