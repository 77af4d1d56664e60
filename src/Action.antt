-- ===== src/Action.antt =====
-- Actions on a state that may throw: what C++ code does to the objects and the kernel behind it.
use forktrace.Prelude.{ℕ, ℤ, Bool, true, false, Option, none, some}
use forktrace.Process.{Fault}

-- What is thrown, or what ends the program: a `BadTraceError`, a `SystemError` with its errno, a
-- `ProcessTreeError` (or worse) of the process tree, a `runtime_error`, a failed assertion, `_exit`,
-- a use of an object that has been freed; and, not of the source, the end of a loop's fuel.
pub data Error : Type 0 where
  bad_trace : ℤ → Error
  system_error : ℕ → Error
  tree_error : Fault → Error
  runtime_error assertion exited dangling starved : Error

pub data Outcome {ℓ} (A : Type ℓ) : Type ℓ where
  done : A → Outcome A
  raised : Error → Outcome A

-- What was changed before a throw stays changed.
abbrev pub M : Type 0 → Type 0 → Type 0
M S A = S → S × Outcome A

abbrev pub after : {S A B : Type 0} → S × Outcome A → (A → M S B) → S × Outcome B
after (s, done a) f = f a s
after (s, raised e) f = (s, raised e)

infixl 5 ◌>>=◌ ◌>>◌
abbrev pub ◌>>=◌ : {S A B : Type 0} → M S A → (A → M S B) → M S B
◌>>=◌ m f s = after (m s) f

abbrev pub ◌>>◌ : {S A B : Type 0} → M S A → M S B → M S B
◌>>◌ m k s = after (m s) (λ _. k)

abbrev pub give : {S A : Type 0} → A → M S A
give a s = (s, done a)

abbrev pub throw : {S A : Type 0} → Error → M S A
throw e s = (s, raised e)

abbrev pub when : {S : Type 0} → Bool → M S (Unit {0}) → M S (Unit {0})
when true m = m
when false m = give tt

-- An `Option` that a function gives for false: the tracee is gone.
abbrev pub if_some : {S A B : Type 0} → Option A → M S B → (A → M S B) → M S B
if_some none gone f = gone
if_some (some a) gone f = f a
