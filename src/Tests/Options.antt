-- ===== src/Tests/Options.antt =====
-- The options of the command line (src/tracer/main.cpp, src/tracer/parse.cpp).
use forktrace.Prelude.{
  ℕ, ◌+◌, ◌≡◌, ◌≢◌, ◌⊎◌, ◌↔◌, inl, inr, refl, Bool, true, false, none, some, List, [], ◌∷◌, ◌++◌,
  Str, codes, str_eq, ◌==◌, negsuc,
}
use forktrace.Command.Table.{is_valid_name, is_before, starts_with, begins}
use forktrace.Parse.{parse_bool, parse_int, parse_below, from_digits, to_lower}
use forktrace.Settings.{init_switches, set_log_category_enabled, Switches}
use forktrace.Options.{
  returned, thrown, option0, option1, ProgramOption, OptionGroup, parsed, refused, catch,
  no_short_flag, find_option, find_short_option, call_handler, parse_option, cut_value,
  parse_long_flag, parse_short_flags, parse_flag, parse_internal, parse, add_option, add_to_last,
  sort_options, insert_option, start_option_group,
}
use forktrace.Options.Members.{InGroups}
use forktrace.Options.Table.{IsTable, add_option_adds}
use forktrace.Options.Leftover.{Explains, run_flags, parse-Explains}
use forktrace.Options.Cluster.{parse_flag-cluster}
use forktrace.Options.Long.{parse_flag-reaches}
use forktrace.Options.Register.{Session, register_options, new_parser, add_all, main, exit_status}

-- Options that count, and note the length of a value.
abbrev step : ProgramOption ℕ
step = record {
  name = codes "step";
  short_name = b's';
  param = [];
  help = [];
  handler = option0 (λ n. returned (n + 1));
}

abbrev set_to : ProgramOption ℕ
set_to = record {
  name = codes "at";
  short_name = b'a';
  param = codes "N";
  help = [];
  handler = option1 (λ v n. elim (str_eq v (codes "7")) [ true ↦ returned 7 | false ↦ thrown v n ]);
}

abbrev group : List (ProgramOption ℕ) → List (OptionGroup ℕ)
group os = record { group_name = []; options = os } ∷ []

empty-IsTable : IsTable (group [])
empty-IsTable = record {
  valid = λ o h. elim h [ inl x ↦ elim x [ ] | inr x ↦ elim x [ ] ];
  names = λ o p h k e. elim h [ inl x ↦ elim x [ ] | inr x ↦ elim x [ ] ];
  shorts = λ o p h k n e. elim h [ inl x ↦ elim x [ ] | inr x ↦ elim x [ ] ];
}

step_added : add_option (group []) step ≡ some (group (step ∷ []))
unfolding add_option add_to_last sort_options insert_option is_valid_name find_option
    find_short_option
step_added = refl

both_added : add_option (group (step ∷ [])) set_to ≡ some (group (set_to ∷ step ∷ []))
unfolding add_option add_to_last sort_options insert_option is_before is_valid_name find_option
    find_short_option str_eq
both_added = refl

-- A name that is there already fails the assertion.
twice : add_option (group (step ∷ [])) step ≡ none
unfolding add_option is_valid_name find_option find_short_option str_eq
twice = refl

add_option_adds_example :
    IsTable (group (step ∷ []))
    × ((o : ProgramOption ℕ)
        → ((o ≡ step) ⊎ InGroups o (group [])) ↔ InGroups o (group (step ∷ [])))
add_option_adds_example =
    add_option_adds (group []) (group (step ∷ [])) step empty-IsTable step_added

abbrev table : List (OptionGroup ℕ)
table = group (set_to ∷ step ∷ [])

table-IsTable : IsTable table
table-IsTable =
    (add_option_adds (group (step ∷ [])) table set_to
      (add_option_adds (group []) (group (step ∷ [])) step empty-IsTable step_added).0 both_added).0

parse_flag-reaches_example :
    (parse_flag table (codes "--" ++ codes "at" ++ b'=' ∷ codes "7") 0
      ≡ catch (parse_option set_to (some (codes "7")) 0) parsed)
    × (parse_flag table (codes "--" ++ codes "at") 0 ≡ catch (parse_option set_to none 0) parsed)
    × (set_to.short_name ≢ 0
        → set_to.short_name ≢ b'-'
        → (parse_flag table (b'-' ∷ b'a' ∷ b'=' ∷ codes "7") 0
            ≡ catch (parse_option set_to (some (codes "7")) 0) parsed)
          × (parse_flag table (b'-' ∷ b'a' ∷ []) 0 ≡ catch (parse_option set_to none 0) parsed))
parse_flag-reaches_example =
    parse_flag-reaches table set_to (codes "7") 0 table-IsTable (inl (inl refl))

parse_flag-cluster_example :
    parse_flag table (codes "-ssa=7") 0
    ≡ run_flags table (codes "-s" ∷ codes "-s" ∷ codes "-a=7" ∷ []) 0
parse_flag-cluster_example = parse_flag-cluster table (codes "ss") b'a' (codes "=7") 0 refl refl

parse-Explains_example :
    Explains table
      (codes "-s" ∷ codes "--" ∷ codes "-s" ∷ [])
      0
      (parse (λ n. n) table (codes "-s" ∷ codes "--" ∷ codes "-s" ∷ []) [] 0)
parse-Explains_example =
    parse-Explains table (λ n. n) (codes "-s") (codes "--" ∷ codes "-s" ∷ []) [] 0

-- Runs.
separated :
    parse (λ n. n) table (codes "-s" ∷ codes "--step" ∷ codes "--" ∷ codes "-s" ∷ []) [] 0
    ≡ (parsed 2, codes "-s" ∷ [])
unfolding parse parse_internal parse_flag parse_long_flag parse_short_flags cut_value find_option
    find_short_option parse_option call_handler starts_with begins str_eq
separated = refl

culprit :
    parse (λ n. n) table (codes "-s" ∷ codes "-sx" ∷ codes "a" ∷ []) [] 0
    ≡ (refused (no_short_flag b'x') 2, codes "-sx" ∷ codes "a" ∷ [])
unfolding parse parse_internal parse_flag parse_long_flag parse_short_flags cut_value find_option
    find_short_option parse_option call_handler starts_with begins str_eq
culprit = refl

bools :
    parse_bool (codes "YES") ∷ parse_bool (codes "off") ∷ parse_bool (codes "2") ∷ []
    ≡ some true ∷ some false ∷ none ∷ []
unfolding parse_bool to_lower str_eq
bools = refl

numbers :
    parse_int (codes "-12") ∷ parse_int (codes "12x") ∷ parse_int (codes "2147483648") ∷ []
    ≡ some (negsuc 11) ∷ none ∷ none ∷ []
unfolding parse_int parse_below from_digits
numbers = refl

-- The whole of `main`: the width that the run gets, and the exit status of --help.
abbrev switches_off : Switches
switches_off = record {
  error_on = false;
  warn_on = false;
  log_on = false;
  verb_on = false;
  dbg_on = false;
  colour_on = true;
}

abbrev seven_wide : List Str → Session → Bool
seven_wide rest s = s.opts.lane_width == 7

wide :
    main seven_wide (codes "forktrace" ∷ codes "--lane-width=7" ∷ codes "ls" ∷ []) switches_off
    ≡ some 0
unfolding main register_options new_parser add_all exit_status init_switches
    set_log_category_enabled parse parse_internal parse_flag parse_long_flag cut_value find_option
    find_short_option parse_option call_handler starts_with begins str_eq add_option add_to_last
    sort_options insert_option is_before is_valid_name start_option_group parse_below from_digits
wide = refl

abbrev never : List Str → Session → Bool
never rest s = false

helped : main never (codes "forktrace" ∷ codes "-h" ∷ codes "ls" ∷ []) switches_off ≡ some 0
unfolding main register_options new_parser add_all exit_status init_switches
    set_log_category_enabled parse parse_internal parse_flag parse_short_flags find_option
    find_short_option parse_option call_handler starts_with begins str_eq add_option add_to_last
    sort_options insert_option is_before is_valid_name start_option_group
helped = refl
