-- ===== src/Ptrace/Memory.antt =====
-- Memory of the tracee (src/tracer/ptrace.cpp): words of eight bytes, the lowest first.
pub mod Words
pub mod Strings
pub mod Copies
use forktrace.Prelude.{
  ℕ, zero, suc, ◌+◌, ◌-◌, ◌*◌, ◌/◌, ◌%◌, ◌^◌, ℤ, ◌==◌, ltb, Bool, true, false, if◌then◌else◌,
  Option, none, some, List, [], ◌∷◌, ◌++◌, length, take, drop, replicate, Str,
}
use forktrace.Action.{Outcome, done, raised, assertion, starved, M, ◌>>=◌, give, throw, if_some}
use forktrace.Kernel.{Kernel}
use forktrace.Ptrace.{found}

-- The low `n` bytes of a word, and the word of some bytes.
unfoldable pub bytes_of : ℕ → ℕ → Str
bytes_of zero w = []
bytes_of (suc n) w = w % 256 ∷ bytes_of n (w / 256)

unfoldable pub word_of : Str → ℕ
word_of [] = 0
word_of (b ∷ bs) = b % 256 + 256 * word_of bs

-- `memcpy` of some bytes over the beginning of others.
abbrev pub overlay : Str → Str → Str
overlay src dest = src ++ drop (length src) dest

-- The bytes before the first NUL, and whether there is one.
unfoldable pub until_nul : Str → Str × Bool
until_nul [] = ([], false)
until_nul (c ∷ s) = let (t, ended) = until_nul s in if c == 0 then ([], true) else (c ∷ t, ended)

-- A word that was read goes on; where the tracee is gone or a call throws, nothing is appended.
abbrev pub with_word :
    {K A : Type 0}
    → K × Outcome (Option ℕ)
    → (ℕ → K → K × List A × Outcome Bool)
    → K × List A × Outcome Bool
with_word (k, raised e) next = (k, [], raised e)
with_word (k, done none) next = (k, [], done false)
with_word (k, done (some word)) next = next word k

abbrev pub in_front :
    {K A : Type 0} → List A → K × List A × Outcome Bool → K × List A × Outcome Bool
in_front xs (k, ys, r) = (k, xs ++ ys, r)

-- A string of an array: the array goes on behind one that was read to its end.
abbrev pub after_string :
    {K : Type 0}
    → K × Str × Outcome Bool
    → (K → K × List Str × Outcome Bool)
    → K × List Str × Outcome Bool
after_string (k, s, done true) next = in_front (s ∷ []) (next k)
after_string (k, s, done false) next = (k, s ∷ [], done false)
after_string (k, s, raised e) next = (k, s ∷ [], raised e)

module _ {K : Type 0} (kernel : Kernel K) (pid : ℤ) where
  abbrev pub peek : ℕ → M K (Option ℕ)
  peek addr k = found (kernel.peek_data pid addr k)

  abbrev pub poke : ℕ → ℕ → M K (Option (Unit {0}))
  poke addr word k = found (kernel.poke_data pid addr word k)

  -- The loops of `memset_tracee` and `copy_to_tracee` over whole words, `n` of them.
  unfoldable pub poke_words : ℕ → ℕ → Str → M K (Option (Unit {0}))
  poke_words zero addr bytes = give (some tt)
  poke_words (suc n) addr bytes = poke addr (word_of (take 8 bytes)) >>= λ o.
      if_some o (give none) (λ u. poke_words n (addr + 8) (drop 8 bytes))

  -- The bytes that do not fill a word: the rest of the word is read first and written back.
  unfoldable pub poke_rest : ℕ → Str → M K (Option (Unit {0}))
  poke_rest addr [] = give (some tt)
  poke_rest addr (b ∷ bytes) = peek addr >>= λ o.
      if_some o (give none) (λ word. poke addr (word_of (overlay (b ∷ bytes) (bytes_of 8 word))))

  -- `copy_to_tracee`.
  unfoldable pub copy_to_tracee : ℕ → Str → M K (Option (Unit {0}))
  copy_to_tracee dest src =
      let n = length src / 8 in
      poke_words n dest src >>= λ o.
      if_some o (give none) (λ u. poke_rest (dest + 8 * n) (drop (8 * n) src))

  -- `memset_tracee`.
  unfoldable pub memset_tracee : ℕ → ℕ → ℕ → M K (Option (Unit {0}))
  memset_tracee dest value len =
      let n = len / 8 in
      poke_words n dest (replicate (8 * n) value) >>= λ o.
      if_some o (give none) (λ u. poke_rest (dest + 8 * n) (replicate (len % 8) value))

  -- The loop of `copy_from_tracee`, over `n` words: what it stores. All but the last word are stored
  -- whole, of the last one `rest` bytes.
  unfoldable pub peek_words : ℕ → ℕ → ℕ → M K (Option Str)
  peek_words zero addr rest = throw assertion
  peek_words (suc zero) addr rest =
      peek addr >>= λ o. if_some o (give none) (λ word. give (some (bytes_of rest word)))
  peek_words (suc (suc n)) addr rest = peek addr >>= λ o. if_some o (give none) (λ word.
      peek_words (suc n) (addr + 8) rest >>= λ o'.
      if_some o' (give none) (λ more. give (some (bytes_of 8 word ++ more))))

  -- `copy_from_tracee` into `dest`, which has the length to copy.
  unfoldable pub copy_from_tracee : Str → ℕ → M K (Option Str)
  copy_from_tracee dest src = peek_words ((length dest + 7) / 8) src (length dest % 8) >>= λ o.
      if_some o (give none) (λ bytes. give (some (overlay bytes dest)))

  -- `copy_string_from_tracee`, over at most as many words as there is fuel: what `result` holds in
  -- the end, also when it throws, and what is returned.
  unfoldable pub copy_string_from_tracee : ℕ → ℕ → K → K × Str × Outcome Bool
  copy_string_from_tracee zero addr k = (k, [], raised starved)
  copy_string_from_tracee (suc fuel) addr k = with_word (peek addr k) (λ word k'.
      let (s, ended) = until_nul (bytes_of 8 word) in
      elim ended [
        | true ↦ (k', s, done true)
        | false ↦ in_front s (copy_string_from_tracee fuel (addr + 8) k')
      ])

  -- `copy_string_array_from_tracee`, for at most `fuel` strings of at most `words` words.
  unfoldable pub copy_string_array_from_tracee : ℕ → ℕ → ℕ → K → K × List Str × Outcome Bool
  copy_string_array_from_tracee words zero argv k = (k, [], raised starved)
  copy_string_array_from_tracee words (suc fuel) argv k = with_word (peek argv k) (λ arg k'.
      elim (arg == 0) [
        | true ↦ (k', [], done true)
        | false ↦
            after_string (copy_string_from_tracee words arg k')
              (copy_string_array_from_tracee words fuel (argv + 8))
      ])
