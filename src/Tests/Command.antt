-- ===== src/Tests/Command.antt =====
-- Runs of the command line (src/tracer/command.cpp).
use forktrace.Prelude.{
  ℕ, ◌+◌, ◌≡◌, ◌≢◌, refl, true, false, none, some, List, [], ◌∷◌, codes, str_eq, arith,
}
use forktrace.Command.{
  no_fuel, tokens_from, tokenise, extract_string, extract, extract_escape, read_word, simple_escape,
  read_hex,
}
use forktrace.Command.Fuel.{tokens_from-ne-no_fuel}
use forktrace.Command.Table.{
  Group, Command, Parser, with_one_arg, without_args, start_new_group, add, add_last, insert, sort,
  begins, starts_with, is_valid_name, match_commands, match_groups, find_command, perform,
  do_command,
}
use forktrace.Command.Lookup.{all_commands, first_named, the_only, prefixed, find_command-the_only}
use forktrace.Command.RoundTrip.{tokenise-escaped_string}
use forktrace.Util.Escape.{escaped_string}

-- A command that steps, and one that notes the length of its argument.
abbrev step : Command ℕ
step = record {
  name = codes "step";
  params = [];
  help = [];
  action = without_args (λ n. n + 1);
  auto_repeat = true;
}

abbrev stop : Command ℕ
stop = record {
  name = codes "stop";
  params = [];
  help = [];
  action = with_one_arg (λ a n. 0);
  auto_repeat = false;
}

abbrev table : List (Group ℕ)
table = record { group_name = []; commands = step ∷ stop ∷ [] } ∷ []

added :
    add (start_new_group [] []) stop ≡ some (record { group_name = []; commands = stop ∷ [] } ∷ [])
unfolding add add_last start_new_group sort insert is_valid_name
added = refl

quoted : tokenise (codes "a 'b c' \"\\x41\\n\"") ≡ codes "a" ∷ codes "b c" ∷ codes "A\n" ∷ []
unfolding tokenise tokens_from extract_string extract extract_escape read_word simple_escape
    read_hex
quoted = refl

steps :
    do_command table (some (codes "ste")) (record { repeated = []; state = 4 })
    ≡ (true, record { repeated = codes "ste"; state = 5 })
unfolding do_command perform find_command match_groups match_commands str_eq starts_with begins
    tokenise tokens_from read_word without_args
steps = refl

tokens_from-ne-no_fuel_example : tokens_from 8 (codes "a 'b c'") ≢ no_fuel
tokens_from-ne-no_fuel_example = tokens_from-ne-no_fuel 8 (codes "a 'b c'") (omega arith)

abbrev initial : Parser ℕ
initial = record { repeated = []; state = 4 }

ste_repeats : (do_command table (some (codes "ste")) initial).1.repeated ≢ []
unfolding do_command perform find_command match_groups match_commands str_eq starts_with begins
    tokenise tokens_from read_word without_args
ste_repeats = ground arith

find_command-the_only_example :
    find_command table (codes "st") ≡ elim (first_named (codes "st") (all_commands table)) [
      | some c ↦ some c
      | none ↦ the_only (prefixed (codes "st") (all_commands table))
    ]
find_command-the_only_example = find_command-the_only table (codes "st")

tokenise-escaped_string_example : tokenise (escaped_string (codes "a\tb")) ≡ codes "a\tb" ∷ []
tokenise-escaped_string_example =
    tokenise-escaped_string (codes "a\tb")
      (omega arith, omega arith, (omega arith, omega arith, (omega arith, omega arith, tt))) refl
