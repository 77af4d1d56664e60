-- ===== src/Options.antt =====
-- The options of the command line (src/tracer/main.cpp): the table of options and `ArgParser`.
pub mod Leftover
pub mod Cluster
pub mod Members
pub mod Table
pub mod Long
pub mod Register
use forktrace.Prelude.{
  ℕ, Bool, true, false, ◌&&◌, ◌==◌, not, if◌then◌else◌, Option, none, some, List, [], ◌∷◌, ◌++◌,
  drop, suc, zero, Str, codes, str_eq,
}
use forktrace.Command.Table.{is_valid_name, is_before, starts_with, begins}

-- What a callback does to a state: it returns, or it throws an exception with this text, with what
-- it has changed by then.
pub data Call (S : Type 0) : Type 0 where
  returned : S → Call S
  thrown : Str → S → Call S

-- The handlers of `Option0` and `Option1`.
pub data Handler (S : Type 0) : Type 0 where
  option0 : (S → Call S) → Handler S
  option1 : (Str → S → Call S) → Handler S

-- `Option`; a `short_name` of 0 is none.
pub record ProgramOption (S : Type 0) : Type 0 where
  pub name : Str
  pub short_name : ℕ
  pub param : Str
  pub help : Str
  pub handler : Handler S

pub record OptionGroup (S : Type 0) : Type 0 where
  pub group_name : Str
  pub options : List (ProgramOption S)

-- `Option0::parse` and `Option1::parse`.
unfoldable pub call_handler : {S : Type 0} → Str → Handler S → Option Str → S → Call S
call_handler name (option0 act) none s = act s
call_handler name (option0 act) (some v) s =
    thrown (codes "Option \"--" ++ name ++ codes "\" expects no value.") s
call_handler name (option1 act) none s =
    thrown (codes "Option \"--" ++ name ++ codes "\" expects a value.") s
call_handler name (option1 act) (some v) s = act v s

unfoldable pub parse_option : {S : Type 0} → ProgramOption S → Option Str → S → Call S
parse_option o value s = call_handler o.name o.handler value s

-- `_find` of a name, and of a short name.
abbrev pub find_in :
    {S : Type 0} → (ProgramOption S → Bool) → List (ProgramOption S) → Option (ProgramOption S)
find_in test [] = none
find_in test (o ∷ os) = let rest = find_in test os in if test o then some o else rest

abbrev pub find_in_groups :
    {S : Type 0} → (ProgramOption S → Bool) → List (OptionGroup S) → Option (ProgramOption S)
find_in_groups test [] = none
find_in_groups test (g ∷ gs) = elim (find_in test g.options) [
  | none ↦ find_in_groups test gs
  | some o ↦ some o
]

abbrev pub has_name : {S : Type 0} → Str → ProgramOption S → Bool
has_name name o = str_eq o.name name

abbrev pub has_short_name : {S : Type 0} → ℕ → ProgramOption S → Bool
has_short_name c o = not (o.short_name == 0) && o.short_name == c

unfoldable pub find_option : {S : Type 0} → List (OptionGroup S) → Str → Option (ProgramOption S)
find_option groups name = find_in_groups (has_name name) groups

unfoldable pub find_short_option :
    {S : Type 0} → List (OptionGroup S) → ℕ → Option (ProgramOption S)
find_short_option groups c = find_in_groups (has_short_name c) groups

-- `start_new_group`.
unfoldable pub start_option_group : {S : Type 0} → List (OptionGroup S) → Str → List (OptionGroup S)
start_option_group groups name = groups ++ record { group_name = name; options = [] } ∷ []

-- `std::sort` by name.
unfoldable pub insert_option :
    {S : Type 0} → ProgramOption S → List (ProgramOption S) → List (ProgramOption S)
unfolding is_before
insert_option o [] = o ∷ []
insert_option o (p ∷ os) =
    let rest = insert_option o os in if is_before p.name o.name then p ∷ rest else o ∷ p ∷ os

unfoldable pub sort_options : {S : Type 0} → List (ProgramOption S) → List (ProgramOption S)
unfolding insert_option
sort_options [] = []
sort_options (o ∷ os) = insert_option o (sort_options os)

-- The last group takes the option; `none` where there is no group.
unfoldable pub add_to_last :
    {S : Type 0} → List (OptionGroup S) → ProgramOption S → Option (List (OptionGroup S))
unfolding sort_options
add_to_last [] o = none
add_to_last (g ∷ []) o =
    some (record { group_name = g.group_name; options = sort_options (g.options ++ o ∷ []) } ∷ [])
add_to_last (g ∷ h ∷ gs) o = elim (add_to_last (h ∷ gs) o) [ none ↦ none | some hs ↦ some (g ∷ hs) ]

abbrev pub is_none {ℓ} : {A : Type ℓ} → Option A → Bool
is_none none = true
is_none (some a) = false

-- `add`; `none` is a failed assertion.
unfoldable pub add_option :
    {S : Type 0} → List (OptionGroup S) → ProgramOption S → Option (List (OptionGroup S))
unfolding add_to_last is_valid_name find_option find_short_option
add_option groups o =
    if is_valid_name o.name
      && is_none (find_option groups o.name)
      && is_none (find_short_option groups o.short_name)
    then add_to_last groups o
    else none

-- The errors that are printed: a flag without an option, '-' on its own, and an exception.
pub data Complaint : Type 0 where
  no_flag : Str → Complaint
  no_short_flag : ℕ → Complaint
  lone_dash : Complaint
  exception : Str → Complaint

-- What the parsing functions return, `true` or `false`, with the state and the error.
pub data Outcome (S : Type 0) : Type 0 where
  parsed : S → Outcome S
  refused : Complaint → S → Outcome S

-- The handler of `_parse_flag` for exceptions.
abbrev pub catch : {S : Type 0} → Call S → (S → Outcome S) → Outcome S
catch (returned s) next = next s
catch (thrown e s) next = refused (exception e) s

-- The flag before the first '=', and the value behind it.
unfoldable pub cut_value : Str → Str × Option Str
cut_value [] = ([], none)
cut_value (c ∷ s) =
    let (flag, value) = cut_value s in if c == b'=' then ([], some s) else (c ∷ flag, value)

abbrev pub run_option :
    {S : Type 0}
    → Option (ProgramOption S)
    → Complaint
    → Option Str
    → S
    → (S → Outcome S)
    → Outcome S
run_option none complaint value s next = refused complaint s
run_option (some o) complaint value s next = catch (parse_option o value s) next

-- `_parse_long_flag`, behind the dashes.
unfoldable pub parse_long_flag : {S : Type 0} → List (OptionGroup S) → Str → S → Outcome S
unfolding cut_value find_option parse_option
parse_long_flag groups flag s =
    let (name, value) = cut_value flag in
    run_option (find_option groups name) (no_flag name) value s parsed

-- The value that a short flag is given: what follows an '='.
abbrev pub short_value : Str → Option Str
short_value [] = none
short_value (c ∷ s) = if c == b'=' then some s else none

-- `_parse_short_flags`, behind the dash: a value ends the loop.
unfoldable pub parse_short_flags : {S : Type 0} → List (OptionGroup S) → Str → S → Outcome S
unfolding find_short_option parse_option
parse_short_flags groups [] s = parsed s
parse_short_flags groups (c ∷ flags) s = elim (short_value flags) [
  | some value ↦ run_option (find_short_option groups c) (no_short_flag c) (some value) s parsed
  | none ↦
      run_option (find_short_option groups c) (no_short_flag c) none s
        (parse_short_flags groups flags)
]

-- `_parse_flag`, on an argument that begins with '-'.
unfoldable pub parse_flag : {S : Type 0} → List (OptionGroup S) → Str → S → Outcome S
unfolding parse_long_flag parse_short_flags starts_with
parse_flag groups flag s =
    if starts_with flag (codes "--")
    then parse_long_flag groups (drop 2 flag) s
    else elim (drop 1 flag) [
      | [] ↦ refused lone_dash s
      | c ∷ flags ↦ parse_short_flags groups (c ∷ flags) s
    ]

-- `_parse_internal`: whether the loop goes wrong, and `_pos` at its end, from `pos` on.
unfoldable pub parse_internal :
    {S : Type 0} → List (OptionGroup S) → List Str → ℕ → S → Outcome S × ℕ
unfolding parse_flag starts_with str_eq
parse_internal groups [] n s = (parsed s, n)
parse_internal groups (arg ∷ args) n s =
    if str_eq arg (codes "--")
    then (parsed s, suc n)
    else if starts_with arg (codes "-")
    then (elim (parse_flag groups arg s) [
      | parsed t ↦ parse_internal groups args (suc n) t
      | refused e t ↦ (refused e t, n)
    ])
    else (parsed s, n)

-- `ArgParser::parse` on the arguments after the program's name: the left-over ones, `remaining` as it
-- was where there are none at all. `_doExit` is part of the state, and is cleared by `reset`.
unfoldable pub parse :
    {S : Type 0} → (S → S) → List (OptionGroup S) → List Str → List Str → S → Outcome S × List Str
unfolding parse_internal
parse reset groups [] remaining s = (parsed (reset s), remaining)
parse reset groups (arg ∷ args) remaining s =
    let (outcome, n) = parse_internal groups (arg ∷ args) zero (reset s) in
    (outcome, drop n (arg ∷ args))
