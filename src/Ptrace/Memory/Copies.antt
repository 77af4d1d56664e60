-- ===== src/Ptrace/Memory/Copies.antt =====
-- Blocks of the tracee's memory.
use forktrace.Prelude.{
  ℕ, zero, suc, ◌+◌, ◌-◌, ◌*◌, ◌/◌, ◌%◌, ◌<◌, ◌≤◌, ◌≡◌, refl, ap, ap₂, ◌∙◌, ℤ, false, ◌==◌,
  if◌then◌else◌, append-nil, none, some, [], ◌∷◌, ◌++◌, length, drop, Str, arith,
}
use forktrace.Action.{done, after, give, if_some}
use forktrace.Kernel.{Kernel}
use forktrace.Ptrace.{found}
use forktrace.Ptrace.Memory.{bytes_of, word_of, overlay, peek_words, copy_from_tracee}
use forktrace.Ptrace.Memory.Strings.{span, Reads}

-- The low bytes of the word at an address.
bytes_of-span :
    (mem : ℕ → ℕ) (n m a : ℕ)
    → ((b : ℕ) → mem b < 256)
    → m ≤ n
    → bytes_of m (word_of (span mem a n)) ≡ span mem a m
unfolding bytes_of word_of
bytes_of-span mem n zero a small le = refl
bytes_of-span mem zero (suc m) a small le = absurd (omega (arith, le))
bytes_of-span mem (suc n) (suc m) a small le =
    let x : ℕ = word_of (span mem (a + 1) n) in
    let low : (mem a % 256 + 256 * x) % 256 ≡ mem a = omega (arith, small a) in
    let high : (mem a % 256 + 256 * x) / 256 ≡ x = omega (arith, small a) in
    ap₂ (λ b bs. b ∷ bs) low
      (ap (bytes_of m) high ∙ bytes_of-span mem n m (a + 1) small (omega (arith, le)))

span-++ :
    (mem : ℕ → ℕ) (m r n a : ℕ) → n ≡ m + r → span mem a m ++ span mem (a + m) r ≡ span mem a n
span-++ mem zero r n a e = ap₂ (span mem) (omega arith) (omega (arith, e))
span-++ mem (suc m) r zero a e = absurd (omega (arith, e))
span-++ mem (suc m) r (suc n) a e =
    ap (λ s. mem a ∷ s)
      (ap (λ b. span mem (a + 1) m ++ span mem b r) (omega arith)
        ∙ span-++ mem m r n (a + 1) (omega (arith, e)))

length-span : (mem : ℕ → ℕ) (n a : ℕ) → length (span mem a n) ≡ n
length-span mem zero a = refl
length-span mem (suc n) a = omega (arith, length-span mem n (a + 1))

drop-length : (s : Str) → drop (length s) s ≡ []
drop-length [] = refl
drop-length (c ∷ s) = drop-length s

module _ {K : Type 0} (kernel : Kernel K) (pid : ℤ) (mem : ℕ → ℕ) where
  peek_words-span :
      (n a rest m : ℕ) (k : K)
      → Reads kernel pid mem
      → ((b : ℕ) → mem b < 256)
      → rest ≤ 8
      → m ≡ 8 * n + rest
      → peek_words kernel pid (suc n) a rest k ≡ (k, done (some (span mem a m)))
  unfolding peek_words
  peek_words-span zero a rest m k reads small le e =
      ap
        (λ x.
          after (found x) (λ o. if_some o (give none) (λ word. give (some (bytes_of rest word)))))
        (reads a k)
      ∙ ap (λ s. (k, done (some s)))
          (bytes_of-span mem 8 rest a small le ∙ ap (span mem a) (omega (arith, e)))
  peek_words-span (suc n) a rest m k reads small le e =
      ap
        (λ x. after (found x) (λ o. if_some o (give none) (λ word k'.
          after (peek_words kernel pid (suc n) (a + 8) rest k')
            (λ o'. if_some o' (give none) (λ more. give (some (bytes_of 8 word ++ more)))))))
        (reads a k)
      ∙ ap
          (λ x. after x (λ o'.
            if_some o' (give none)
              (λ more. give (some (bytes_of 8 (word_of (span mem a 8)) ++ more)))))
          (peek_words-span n (a + 8) rest (8 * n + rest) k reads small le refl)
      ∙ ap (λ s. (k, done (some (s ++ span mem (a + 8) (8 * n + rest)))))
          (bytes_of-span mem 8 8 a small (omega arith))
      ∙ ap (λ s. (k, done (some s))) (span-++ mem 8 (8 * n + rest) m a (omega (arith, e)))

  copied :
      (n rest m a : ℕ) (dest : Str) (k : K)
      → Reads kernel pid mem
      → ((b : ℕ) → mem b < 256)
      → (length dest + 7) / 8 ≡ suc n
      → length dest % 8 ≡ rest
      → rest ≤ 8
      → m ≡ 8 * n + rest
      → copy_from_tracee kernel pid dest a k ≡ (k, done (some (span mem a m ++ drop m dest)))
  unfolding copy_from_tracee
  copied n rest m a dest k reads small words tail le e =
      ap₂
        (λ w t.
          after (peek_words kernel pid w a t k)
            (λ o. if_some o (give none) (λ bytes. give (some (overlay bytes dest)))))
        words tail
      ∙ ap (λ x. after x (λ o. if_some o (give none) (λ bytes. give (some (overlay bytes dest)))))
          (peek_words-span n a rest m k reads small le e)
      ∙ ap (λ l. (k, done (some (span mem a m ++ drop l dest)))) (length-span mem m a)

-- A block whose length is no multiple of 8 is copied whole. Of a longer block whose length is a multiple
-- of 8, all but the last eight bytes are copied: these stay what they were in the destination. The
-- kernel reads words of the memory, whose cells are bytes.
pub copy_from_tracee-span :
    {K : Type 0} (kernel : Kernel K) (pid : ℤ) (mem : ℕ → ℕ) (n rest a : ℕ) (dest : Str) (k : K)
    → Reads kernel pid mem
    → ((b : ℕ) → mem b < 256)
    → rest < 8
    → length dest ≡ 8 * n + rest
    → 0 < length dest
    → copy_from_tracee kernel pid dest a k ≡ (
      k,
      done (
          some (
            if rest == 0
            then span mem a (8 * (n - 1)) ++ drop (8 * (n - 1)) dest
            else span mem a (length dest))),
    )
copy_from_tracee-span kernel pid mem n zero a dest k reads small lt e pos' =
    copied kernel pid mem (n - 1) 0 (8 * (n - 1)) a dest k reads small (omega (arith, e, pos'))
      (omega (arith, e)) (omega arith) (omega arith)
copy_from_tracee-span kernel pid mem n (suc rest) a dest k reads small lt e pos' =
    let full : (suc rest == 0) ≡ false = ground arith in
    rw full (
      copied kernel pid mem n (suc rest) (length dest) a dest k reads small (omega (arith, e, lt))
        (omega (arith, e, lt)) (omega (arith, lt)) e
      ∙ ap (λ s. (k, done (some (span mem a (length dest) ++ s)))) (drop-length dest)
      ∙ ap (λ s. (k, done (some s))) (append-nil (span mem a (length dest))))
