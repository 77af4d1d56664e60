-- ===== src/Tests/Interface.antt =====
-- Runs of the user interface (src/tracer/forktrace.cpp), on the kernel of Tests/Tracer.antt.
use forktrace.Prelude.{ℕ, ◌≡◌, refl, pos, false, none, some, List, [], ◌∷◌, codes}
use forktrace.Tracer.{running}
use forktrace.Settings.{default_settings, Switches}
use forktrace.Command.Table.{
  Group, add, add_last, insert, sort, is_before, is_valid_name, start_new_group,
}
use forktrace.Interface.Commands.{Forktrace, do_go}
use forktrace.Interface.Console.{Console, register_commands, add_groups, add_each}
use forktrace.Interface.CommandLine.{
  Input, line_read, orphan_read, interrupt, at_command, last_console, command_line, run_program,
}
use forktrace.Interface.Orderly.{IsOrderly, command_line-IsOrderly, run_program-IsOrderly}
use forktrace.Interface.Go.{Gone, do_go_ends}
use forktrace.Tests.Tracer.{scripted, one, one_process, one-IsConsistent}

abbrev all_off : Switches
all_off = record {
  error_on = false;
  warn_on = false;
  log_on = false;
  verb_on = false;
  dbg_on = false;
  colour_on = false;
}

abbrev first : Forktrace ℕ
first = record {
  world = one one_process running;
  opts = default_settings;
  switches = all_off;
  trees = 0 ∷ [];
  outputs = [];
}

abbrev console : Console ℕ
console = record { ft = first; errors = []; quitting = false; is_over = false }

abbrev registered : List (Group (Console ℕ))
registered = elim (register_commands (scripted 768) 10 3 5) [ none ↦ [] | some groups ↦ groups ]

registered_lem : register_commands (scripted 768) 10 3 5 ≡ some registered
unfolding register_commands add_groups add_each start_new_group add add_last insert sort is_before
    is_valid_name
registered_lem = refl

abbrev session : List Input
session =
    line_read (some (codes "march"))
    ∷ orphan_read (pos 5)
    ∷ line_read (some (codes "list"))
    ∷ interrupt
    ∷ line_read (some (codes "quit"))
    ∷ []

command_line-IsOrderly_example : IsOrderly (
    last_console (
      command_line
        (scripted 768)
        10
        3
        5
        registered
        at_command
        session
        (record { repeated = []; state = console })))
command_line-IsOrderly_example =
    command_line-IsOrderly (scripted 768) 10 3 5 registered session console registered_lem refl
      one-IsConsistent

run_program-IsOrderly_example :
    IsOrderly (run_program (scripted 4991) 10 3 5 (codes "ls" ∷ []) console)
run_program-IsOrderly_example =
    run_program-IsOrderly (scripted 4991) 10 3 5 (codes "ls" ∷ []) console refl one-IsConsistent

do_go_ends_example : Gone (do_go (scripted 768) 10 3 5 first)
do_go_ends_example = do_go_ends (scripted 768) 10 3 5 first
