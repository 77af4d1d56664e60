-- ===== src/Options/Cluster.antt =====
-- Short flags that share a dash (`_parse_short_flags`).
use forktrace.Prelude.{
  ℕ, ◌≡◌, refl, sym, ap, ◌∙◌, Bool, true, ◌&&◌, ◌==◌, not, Option, none, some, List, [], ◌∷◌, ◌++◌,
  map, Str, arith,
}
use mathlib.Core.Path.{fun_ext}
use forktrace.Command.Table.{starts_with, begins}
use forktrace.Options.{
  OptionGroup, ProgramOption, Complaint, Outcome, parsed, refused, Call, returned, thrown, catch,
  run_option, parse_option, short_value, parse_short_flags, parse_flag, no_short_flag,
  find_short_option,
}
use forktrace.Options.Leftover.{after_flag, run_flags}

-- Characters that are neither the dash nor the sign before a value.
abbrev pub is_plain : ℕ → Bool
is_plain c = not (c == b'-') && not (c == b'=')

abbrev pub all_plain : Str → Bool
all_plain [] = true
all_plain (c ∷ cs) = is_plain c && all_plain cs

-- A flag of its own.
abbrev pub single : ℕ → Str
single c = b'-' ∷ c ∷ []

module _ {S : Type 0} (groups : List (OptionGroup S)) where
  run_option-after_flag :
      (o : Option (ProgramOption S)) (k : Complaint) (v : Option Str) (s : S) (next : S → Outcome S)
      → run_option o k v s next ≡ after_flag (run_option o k v s parsed) next
  run_option-after_flag none k v s next = refl
  run_option-after_flag (some o) k v s next = on_call (parse_option o v s)
    where
      on_call : (c : Call S) → catch c next ≡ after_flag (catch c parsed) next
      on_call (returned t) = refl
      on_call (thrown e t) = refl

  parse_flag_plain :
      (c : ℕ) (cs : Str) (s : S)
      → is_plain c ≡ true
      → parse_flag groups (b'-' ∷ c ∷ cs) s ≡ parse_short_flags groups (c ∷ cs) s
  unfolding parse_flag starts_with begins
  parse_flag_plain c cs s h = ground (arith, h)

  short_value_plain : (c : ℕ) (cs : Str) → is_plain c ≡ true → short_value (c ∷ cs) ≡ none
  short_value_plain c cs h = ground (arith, h)

  without_value :
      (c : ℕ) (flags : Str) (s : S)
      → short_value flags ≡ none
      → parse_short_flags groups (c ∷ flags) s
        ≡ run_option
            (find_short_option groups c)
            (no_short_flag c)
            none
            s
            (parse_short_flags groups flags)
  unfolding parse_short_flags
  without_value c flags s e = rw (e, parse_short_flags) refl

  first_on_its_own :
      (c d : ℕ) (ds : Str) (s : S)
      → is_plain c ≡ true
      → is_plain d ≡ true
      → parse_short_flags groups (c ∷ d ∷ ds) s
        ≡ after_flag (parse_flag groups (single c) s) (parse_short_flags groups (d ∷ ds))
  first_on_its_own c d ds s h k =
      let next = parse_short_flags groups (d ∷ ds) in
      let alone : (t : S) → parse_short_flags groups [] t ≡ parsed t =
        λ t. unfold parse_short_flags in refl in
      rw
        (
          parse_flag_plain c [] s h,
          without_value c [] s refl,
          without_value c (d ∷ ds) s (short_value_plain d ds k),
          fun_ext alone,
        )
        (run_option-after_flag (find_short_option groups c) (no_short_flag c) none s next)

  prepend :
      (d x : ℕ) (xs : Str) (fs : List Str) (s : S)
      → is_plain d ≡ true
      → is_plain x ≡ true
      → ((t : S) → parse_flag groups (b'-' ∷ x ∷ xs) t ≡ run_flags groups fs t)
      → parse_flag groups (b'-' ∷ d ∷ x ∷ xs) s ≡ run_flags groups (single d ∷ fs) s
  prepend d x xs fs s h k ih =
      parse_flag_plain d (x ∷ xs) s h
      ∙ first_on_its_own d x xs s h k
      ∙ ap (after_flag (parse_flag groups (single d) s))
          (fun_ext (λ t. sym (parse_flag_plain x xs t k) ∙ ih t))

  all_of :
      (d e : ℕ) (cs : Str)
      → all_plain (d ∷ e ∷ cs) ≡ true
      → (is_plain d ≡ true) × (is_plain e ≡ true) × (all_plain (e ∷ cs) ≡ true)
  all_of d e cs h = (ground (arith, h), ground (arith, h), ground (arith, h))

  alone : (o : Outcome S) → o ≡ after_flag o parsed
  alone (parsed t) = refl
  alone (refused e t) = refl

  -- A cluster of short flags, of which only the last may be given a value, does what the same flags do
  -- on their own: they go well or wrong one after the other. The last is followed by anything.
  pub parse_flag-cluster :
      (cs : Str) (c : ℕ) (tail : Str) (s : S)
      → all_plain cs ≡ true
      → is_plain c ≡ true
      → parse_flag groups (b'-' ∷ cs ++ c ∷ tail) s
        ≡ run_flags groups (map single cs ++ (b'-' ∷ c ∷ tail) ∷ []) s
  parse_flag-cluster [] c tail s h k = alone (parse_flag groups (b'-' ∷ c ∷ tail) s)
  parse_flag-cluster (d ∷ []) c tail s h k =
      prepend d c tail ((b'-' ∷ c ∷ tail) ∷ []) s (ground (arith, h)) k
        (λ t. parse_flag-cluster [] c tail t refl k)
  parse_flag-cluster (d ∷ e ∷ cs) c tail s h k =
      let (hd, he, hs) = all_of d e cs h in
      prepend d e (cs ++ c ∷ tail) (map single (e ∷ cs) ++ (b'-' ∷ c ∷ tail) ∷ []) s hd he
        (λ t. parse_flag-cluster (e ∷ cs) c tail t hs k)
