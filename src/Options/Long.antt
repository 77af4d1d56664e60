-- ===== src/Options/Long.antt =====
-- Every option of a table is reached by its names, with its value.
use forktrace.Prelude.{
  ℕ, ◌≡◌, ◌≢◌, refl, true, Option, none, some, List, [], ◌∷◌, ◌++◌, Str, codes, arith,
}
use forktrace.Command.Table.{is_valid_name, starts_with, begins}
use forktrace.Options.{
  OptionGroup, ProgramOption, catch, parsed, parse_option, cut_value, parse_long_flag,
  parse_short_flags, parse_flag, find_option,
}
use forktrace.Options.Members.{InGroups}
use forktrace.Options.Table.{IsTable, find_option_lem, find_short_option_lem}

cut_value-value :
    (name v : Str) → is_valid_name name ≡ true → cut_value (name ++ b'=' ∷ v) ≡ (name, some v)
unfolding cut_value is_valid_name
cut_value-value [] v h = refl
cut_value-value (c ∷ name) v h = rw (cut_value-value name v (ground (arith, h))) (ground (arith, h))

cut_value-none : (name : Str) → is_valid_name name ≡ true → cut_value name ≡ (name, none)
unfolding cut_value is_valid_name
cut_value-none [] h = refl
cut_value-none (c ∷ name) h = rw (cut_value-none name (ground (arith, h))) (ground (arith, h))

module _ {S : Type 0} (groups : List (OptionGroup S)) where
  long_flag :
      (flag : Str) (s : S)
      → parse_flag groups (codes "--" ++ flag) s ≡ parse_long_flag groups flag s
  unfolding parse_flag starts_with begins
  long_flag flag s = ground arith

  long_found :
      (flag : Str) (o : ProgramOption S) (v : Option Str) (s : S)
      → cut_value flag ≡ (o.name, v)
      → find_option groups o.name ≡ some o
      → parse_long_flag groups flag s ≡ catch (parse_option o v s) parsed
  unfolding parse_long_flag
  long_found flag o v s e f = rw (e, f) refl

  short_flag :
      (c : ℕ) (flags : Str) (s : S)
      → c ≢ b'-'
      → parse_flag groups (b'-' ∷ c ∷ flags) s ≡ parse_short_flags groups (c ∷ flags) s
  unfolding parse_flag starts_with begins
  short_flag c flags s h = ground arith

  -- Of a table in order, each option is reached by "--name=value" and "--name", and where it has a
  -- short name other than '-', by "-c=value" and "-c": its handler gets exactly that value, or none.
  pub parse_flag-reaches :
      (o : ProgramOption S) (v : Str) (s : S)
      → IsTable groups
      → InGroups o groups
      → (parse_flag groups (codes "--" ++ o.name ++ b'=' ∷ v) s
          ≡ catch (parse_option o (some v) s) parsed)
        × (parse_flag groups (codes "--" ++ o.name) s ≡ catch (parse_option o none s) parsed)
        × (o.short_name ≢ 0
            → o.short_name ≢ b'-'
            → (parse_flag groups (b'-' ∷ o.short_name ∷ b'=' ∷ v) s
                ≡ catch (parse_option o (some v) s) parsed)
              × (parse_flag groups (b'-' ∷ o.short_name ∷ []) s
                  ≡ catch (parse_option o none s) parsed))
  unfolding parse_short_flags
  parse_flag-reaches o v s table h =
      let f = find_option_lem groups o table h in
      (
        rw (long_flag (o.name ++ b'=' ∷ v) s) (
            long_found (o.name ++ b'=' ∷ v) o (some v) s
              (cut_value-value o.name v (table.valid o h)) f),
        rw (long_flag o.name s)
            (long_found o.name o none s (cut_value-none o.name (table.valid o h)) f),
        λ n d.
            let g = find_short_option_lem groups o table h n in
            (
              rw (short_flag o.short_name (b'=' ∷ v) s d, g) refl,
              rw (short_flag o.short_name [] s d, g) (unfold parse_short_flags in refl),
            ),
      )
