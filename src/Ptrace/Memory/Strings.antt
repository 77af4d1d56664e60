-- ===== src/Ptrace/Memory/Strings.antt =====
-- Strings in the tracee's memory.
use forktrace.Prelude.{
  ℕ, zero, suc, ◌+◌, ◌*◌, ◌/◌, ◌%◌, ◌<◌, ◌≡◌, refl, ap, ap₂, subst, ◌∙◌, ◌==◌, ltb, ℤ, Bool, true,
  false, Bool-cases, inl, inr, [], ◌∷◌, length, take, drop, take-append-drop, length-drop, Str,
  arith,
}
use forktrace.Action.{Outcome, done}
use forktrace.Kernel.{Kernel, got}
use forktrace.Ptrace.{found}
use forktrace.Ptrace.Memory.{
  bytes_of, word_of, until_nul, with_word, in_front, copy_string_from_tracee,
}

-- Some bytes of the memory, from an address on.
abbrev pub span : (ℕ → ℕ) → ℕ → ℕ → Str
span mem a zero = []
span mem a (suc n) = mem a ∷ span mem (a + 1) n

-- The string stands at the address: its characters, none of them NUL, and then a NUL.
abbrev pub Holds : (ℕ → ℕ) → ℕ → Str → Type 0
Holds mem a [] = mem a ≡ 0
Holds mem a (c ∷ s) = (mem a ≡ c) × ((c == 0) ≡ false) × Holds mem (a + 1) s

pub bytes_of-word_of :
    (mem : ℕ → ℕ) (n a : ℕ)
    → ((b : ℕ) → mem b < 256)
    → bytes_of n (word_of (span mem a n)) ≡ span mem a n
unfolding bytes_of word_of
bytes_of-word_of mem zero a small = refl
bytes_of-word_of mem (suc n) a small =
    let x : ℕ = word_of (span mem (a + 1) n) in
    let low : (mem a % 256 + 256 * x) % 256 ≡ mem a = omega (arith, small a) in
    let high : (mem a % 256 + 256 * x) / 256 ≡ x = omega (arith, small a) in
    ap₂ (λ b bs. b ∷ bs) low (ap (bytes_of n) high ∙ bytes_of-word_of mem n (a + 1) small)

-- The search for the NUL behind a string that ends in the bytes.
until_nul_ends :
    (mem : ℕ → ℕ) (m a : ℕ) (s : Str)
    → ltb (length s) m ≡ true
    → Holds mem a s
    → until_nul (span mem a m) ≡ (s, true)
unfolding until_nul
until_nul_ends mem zero a s short h = absurd (ground (arith, short))
until_nul_ends mem (suc m) a [] short h = rw h refl
until_nul_ends mem (suc m) a (c ∷ s) short (same, full, h) =
    rw (same, full, until_nul_ends mem m (a + 1) s (ground (arith, short)) h) refl

-- The search in bytes that a string goes beyond.
until_nul-take :
    (mem : ℕ → ℕ) (m a : ℕ) (s : Str)
    → ltb (length s) m ≡ false
    → Holds mem a s
    → until_nul (span mem a m) ≡ (take m s, false)
unfolding until_nul
until_nul-take mem zero a s long h = refl
until_nul-take mem (suc m) a [] long h = absurd (ground (arith, long))
until_nul-take mem (suc m) a (c ∷ s) long (same, full, h) =
    rw (same, full, until_nul-take mem m (a + 1) s (ground (arith, long)) h) refl

-- What follows the bytes is the rest of the string.
Holds-drop :
    (mem : ℕ → ℕ) (m a : ℕ) (s : Str)
    → ltb (length s) m ≡ false
    → Holds mem a s
    → Holds mem (a + m) (drop m s)
Holds-drop mem zero a s long h = subst (λ b. Holds mem b s) (omega arith) h
Holds-drop mem (suc m) a [] long h = absurd (ground (arith, long))
Holds-drop mem (suc m) a (c ∷ s) long (same, full, h) =
    subst (λ b. Holds mem b (drop m s)) (omega arith)
      (Holds-drop mem m (a + 1) s (ground (arith, long)) h)

module _ {K : Type 0} (kernel : Kernel K) (pid : ℤ) (mem : ℕ → ℕ) where
  -- The kernel reads words of this memory.
  abbrev pub Reads : Type 0
  Reads = (a : ℕ) (k : K) → kernel.peek_data pid a k ≡ (k, got (word_of (span mem a 8)))

  -- What is done behind the search in a word.
  abbrev go_on_from : ℕ → ℕ → K → Str × Bool → K × Str × Outcome Bool
  go_on_from fuel a k p = elim p.1 [
    | true ↦ (k, p.0, done true)
    | false ↦ in_front p.0 (copy_string_from_tracee kernel pid fuel (a + 8) k)
  ]

  copy_step :
      (fuel a : ℕ) (k : K) (p : Str × Bool)
      → Reads
      → ((b : ℕ) → mem b < 256)
      → until_nul (span mem a 8) ≡ p
      → copy_string_from_tracee kernel pid (suc fuel) a k ≡ go_on_from fuel a k p
  unfolding copy_string_from_tracee
  copy_step fuel a k p reads small e =
      ap (λ x. with_word (found x) (λ word k'. go_on_from fuel a k' (until_nul (bytes_of 8 word))))
        (reads a k)
      ∙ ap (go_on_from fuel a k) (ap until_nul (bytes_of-word_of mem 8 a small) ∙ e)

-- A string that stands in the tracee's memory, with any characters but NUL, is read completely and
-- without what follows its NUL, if there is fuel for more words than its length has. The kernel reads
-- words of that memory, whose cells are bytes.
pub copy_string_from_tracee-Holds :
    {K : Type 0} (kernel : Kernel K) (pid : ℤ) (mem : ℕ → ℕ) (fuel a : ℕ) (k : K) (s : Str)
    → Reads kernel pid mem
    → ((b : ℕ) → mem b < 256)
    → length s < 8 * fuel
    → Holds mem a s
    → copy_string_from_tracee kernel pid fuel a k ≡ (k, s, done true)
copy_string_from_tracee-Holds kernel pid mem zero a k s reads small enough h =
    absurd (omega (arith, enough))
copy_string_from_tracee-Holds kernel pid mem (suc fuel) a k s reads small enough h =
    elim (Bool-cases (ltb (length s) 8)) [
      | inl short ↦
          copy_step kernel pid mem fuel a k (s, true) reads small (until_nul_ends mem 8 a s short h)
      | inr long ↦
          copy_step kernel pid mem fuel a k (take 8 s, false) reads small
            (until_nul-take mem 8 a s long h)
          ∙ ap (in_front (take 8 s)) (
              copy_string_from_tracee-Holds kernel pid mem fuel (a + 8) k (drop 8 s) reads small
                (ground (arith, long, enough, length-drop 8 s)) (Holds-drop mem 8 a s long h))
          ∙ ap (λ t. (k, t, done true)) (take-append-drop 8 s)
    ]
