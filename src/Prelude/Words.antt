-- ===== src/Prelude/Words.antt =====
-- Arithmetic of `size_t`, of 64 bits.
use Prim.Native.Nat.{ℕ, ◌+◌, ◌-◌, ◌*◌, ◌^◌, ◌%◌}
use forktrace.Prelude.Tests.{leb, if◌then◌else◌}

abbrev pub wrap_sub : ℕ → ℕ → ℕ
wrap_sub a b = if leb b a then a - b else a + 2 ^ 64 - b

abbrev pub wrap_add : ℕ → ℕ → ℕ
wrap_add a b = (a + b) % 2 ^ 64

abbrev pub wrap_mul : ℕ → ℕ → ℕ
wrap_mul a b = a * b % 2 ^ 64
