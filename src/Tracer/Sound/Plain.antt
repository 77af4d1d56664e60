-- ===== src/Tracer/Sound/Plain.antt =====
-- The requests to the tracee throw nothing of the process tree.
use forktrace.Prelude.{
  ℕ, zero, suc, ◌+◌, ◌*◌, ℤ, Bool, true, false, if◌then◌else◌, Option, none, some, [], ◌∷◌,
  get_elem?, to_word, take, drop, Str, arith,
}
use forktrace.Action.{
  Error, assertion, Outcome, done, raised, M, after, ◌>>=◌, give, throw, if_some,
}
use forktrace.Kernel.{Sys, got, failed, Kernel}
use forktrace.Ptrace.{
  found, must, get_syscall_ret, set_syscall, which_syscall, set_syscall_arg, get_tracee_result_addr,
  resume_tracee, arg_regs, rax_reg, orig_rax_reg, rbp_reg,
}
use forktrace.Ptrace.Memory.{
  poke_words, poke_rest, copy_to_tracee, memset_tracee, peek_words, copy_from_tracee, bytes_of,
  word_of, overlay,
}
use forktrace.Tracer.Stops.{awaited}
use forktrace.Tracer.Sound.{IsInTurn, IsPlain}

-- What a request throws is not of the process tree.
pub record Plain {K A : Type 0} (m : M K A) : Type 0 where
  pub at_all : (k : K) → IsPlain (m k).1

found-IsPlain : {K A : Type 0} (x : K × Sys A) → IsPlain (found x).1
found-IsPlain (k, got a) = tt
found-IsPlain (k, failed e) = ground arith

must-IsPlain : {K A : Type 0} (x : K × Sys A) → IsPlain (must x).1
must-IsPlain (k, got a) = tt
must-IsPlain (k, failed e) = tt

awaited-IsPlain : {K A : Type 0} (pid : ℤ) (x : K × Sys A) → IsPlain (awaited pid x).1
awaited-IsPlain pid (k, got a) = tt
awaited-IsPlain pid (k, failed e) = ground arith

pub found-Plain : {K A : Type 0} (m : K → K × Sys A) → Plain (λ k. found (m k))
found-Plain m = record { at_all = λ k. found-IsPlain (m k) }

pub must-Plain : {K A : Type 0} (m : K → K × Sys A) → Plain (λ k. must (m k))
must-Plain m = record { at_all = λ k. must-IsPlain (m k) }

pub awaited-Plain : {K A : Type 0} (pid : ℤ) (m : K → K × Sys A) → Plain (λ k. awaited pid (m k))
awaited-Plain pid m = record { at_all = λ k. awaited-IsPlain pid (m k) }

pub give-Plain : {K A : Type 0} (a : A) → Plain {K = K} (give a)
give-Plain a = record { at_all = λ k. tt }

pub throw-Plain : {K A : Type 0} (e : Error) → IsInTurn e → Plain {K = K} {A = A} (throw e)
throw-Plain e h = record { at_all = λ k. h }

after-IsPlain :
    {K A B : Type 0} (x : K × Outcome A) (f : A → M K B)
    → IsPlain x.1
    → ((a : A) → Plain (f a))
    → IsPlain (after x f).1
after-IsPlain (k, done a) f h g = (g a).at_all k
after-IsPlain (k, raised e) f h g = h

pub Plain-then :
    {K A B : Type 0} {m : M K A} {f : A → M K B}
    → Plain m
    → ((a : A) → Plain (f a))
    → Plain (m >>= f)
Plain-then {m = m} {f = f} h g = record { at_all = λ k. after-IsPlain (m k) f (h.at_all k) g }

pub Plain-some :
    {K A B : Type 0} {m : M K B} {f : A → M K B} (o : Option A)
    → Plain m
    → ((a : A) → Plain (f a))
    → Plain (if_some o m f)
Plain-some none h g = h
Plain-some (some a) h g = g a

pub Plain-if :
    {K A : Type 0} {m n : M K A} (b : Bool) → Plain m → Plain n → Plain (if b then m else n)
Plain-if true h g = h
Plain-if false h g = g

-- A request, and what follows where the tracee is there.
pub Plain-request :
    {K A B : Type 0} {m : M K (Option A)} {f : A → M K (Option B)}
    → Plain m
    → ((a : A) → Plain (f a))
    → Plain (m >>= λ o. if_some o (give none) f)
Plain-request h g = Plain-then h (λ o. Plain-some o (give-Plain none) g)

module _ {K : Type 0} (kernel : Kernel K) where
  pub get_syscall_ret-Plain : (pid : ℤ) → Plain (get_syscall_ret kernel pid)
  unfolding get_syscall_ret
  get_syscall_ret-Plain pid = found-Plain (kernel.peek_user pid (8 * rax_reg))

  pub set_syscall-Plain : (pid n : ℤ) → Plain (set_syscall kernel pid n)
  unfolding set_syscall
  set_syscall-Plain pid n = found-Plain (kernel.poke_user pid (8 * orig_rax_reg) (to_word n))

  pub which_syscall-Plain : (pid : ℤ) → Plain (which_syscall kernel pid)
  unfolding which_syscall
  which_syscall-Plain pid = Plain-request (found-Plain (kernel.get_regs pid)) (λ r. give-Plain _)

  pub set_syscall_arg-Plain :
      (pid : ℤ) (val index : ℕ) → Plain (set_syscall_arg kernel pid val index)
  unfolding set_syscall_arg
  set_syscall_arg-Plain pid val index =
      elim (get_elem? arg_regs index)
        as (λ o. Plain (elim o [
          | none ↦ throw assertion
          | some reg ↦ λ k. found (kernel.poke_user pid (8 * reg) val k)
        ])) [
          | none ↦ throw-Plain assertion tt
          | some reg ↦ found-Plain (kernel.poke_user pid (8 * reg) val)
        ]

  pub get_tracee_result_addr-Plain : (pid : ℤ) → Plain (get_tracee_result_addr kernel pid)
  unfolding get_tracee_result_addr
  get_tracee_result_addr-Plain pid =
      Plain-request (found-Plain (kernel.peek_user pid (8 * rbp_reg))) (λ r. give-Plain _)

  pub resume_tracee-Plain : (pid : ℤ) (signal : ℕ) → Plain (resume_tracee kernel pid signal)
  unfolding resume_tracee
  resume_tracee-Plain pid signal = found-Plain (kernel.resume pid signal)

  poke_words-Plain :
      (pid : ℤ) (n addr : ℕ) (bytes : Str) → Plain (poke_words kernel pid n addr bytes)
  unfolding poke_words
  poke_words-Plain pid zero addr bytes = give-Plain _
  poke_words-Plain pid (suc n) addr bytes =
      Plain-request (found-Plain (kernel.poke_data pid addr (word_of (take 8 bytes))))
        (λ u. poke_words-Plain pid n (addr + 8) (drop 8 bytes))

  poke_rest-Plain : (pid : ℤ) (addr : ℕ) (bytes : Str) → Plain (poke_rest kernel pid addr bytes)
  unfolding poke_rest
  poke_rest-Plain pid addr [] = give-Plain _
  poke_rest-Plain pid addr (b ∷ bytes) =
      Plain-request (found-Plain (kernel.peek_data pid addr)) (λ word.
        found-Plain (kernel.poke_data pid addr (word_of (overlay (b ∷ bytes) (bytes_of 8 word)))))

  pub copy_to_tracee-Plain :
      (pid : ℤ) (dest : ℕ) (src : Str) → Plain (copy_to_tracee kernel pid dest src)
  unfolding copy_to_tracee
  copy_to_tracee-Plain pid dest src =
      Plain-request (poke_words-Plain pid _ dest src) (λ u. poke_rest-Plain pid _ _)

  pub memset_tracee-Plain :
      (pid : ℤ) (dest value len : ℕ) → Plain (memset_tracee kernel pid dest value len)
  unfolding memset_tracee
  memset_tracee-Plain pid dest value len =
      Plain-request (poke_words-Plain pid _ dest _) (λ u. poke_rest-Plain pid _ _)

  peek_words-Plain : (pid : ℤ) (n addr rest : ℕ) → Plain (peek_words kernel pid n addr rest)
  unfolding peek_words
  peek_words-Plain pid zero addr rest = throw-Plain assertion tt
  peek_words-Plain pid (suc zero) addr rest =
      Plain-request (found-Plain (kernel.peek_data pid addr)) (λ word. give-Plain _)
  peek_words-Plain pid (suc (suc n)) addr rest =
      Plain-request (found-Plain (kernel.peek_data pid addr)) (λ word.
        Plain-request (peek_words-Plain pid (suc n) (addr + 8) rest) (λ more. give-Plain _))

  pub copy_from_tracee-Plain :
      (pid : ℤ) (dest : Str) (src : ℕ) → Plain (copy_from_tracee kernel pid dest src)
  unfolding copy_from_tracee
  copy_from_tracee-Plain pid dest src =
      Plain-request (peek_words-Plain pid _ src _) (λ bytes. give-Plain _)
