-- ===== src/Interface/Console.antt =====
-- The console: what a command leaves behind, and the table of commands (`register_commands` of
-- src/tracer/forktrace.cpp).
use forktrace.Prelude.{
  ℕ, Bool, true, false, not, ◌||◌, Option, none, some, List, [], ◌∷◌, ◌++◌, Str, codes,
}
use forktrace.Process.{assertion_failed, wild_read, dangling_ref, no_end}
use forktrace.Action.{
  Error, bad_trace, system_error, tree_error, runtime_error, Outcome, done, raised, M,
}
use forktrace.Kernel.{Kernel}
use forktrace.Parse.{parse_bool, parse_size}
use forktrace.Settings.{
  Settings, Switches, log_log, log_verb, log_dbg, set_log_category_enabled, set_colour_enabled,
}
use forktrace.Command.Table.{Command, Group, without_args, with_one_arg, start_new_group, add}
use forktrace.Interface.Commands.{
  Forktrace, draw, view, list_shown, put_out, do_tree, do_trees, do_draw, do_start, do_go, do_run,
  do_march, do_next,
}

-- The commands' state, with what they threw. `quitting` is the `QuitCommandLoop` on its way;
-- `is_over` says that the program has ended by something that is no exception.
pub record Console (K : Type 0) : Type 0 where
  pub ft : Forktrace K
  pub errors : List Error
  pub quitting : Bool
  pub is_over : Bool

-- What `catch (const std::exception&)` catches.
abbrev pub is_exception : Error → Bool
is_exception (bad_trace pid) = true
is_exception (system_error e) = true
is_exception (tree_error assertion_failed) = false
is_exception (tree_error wild_read) = false
is_exception (tree_error dangling_ref) = false
is_exception (tree_error no_end) = false
is_exception (tree_error f) = true
is_exception runtime_error = true
is_exception _ = false

module _ {K : Type 0} where
  -- The state after an action.
  abbrev pub settle : Console K → Forktrace K × Outcome (Unit {0}) → Console K
  settle c (f, done u) = record c { ft = f }
  settle c (f, raised e) = record c {
    ft = f;
    errors = c.errors ++ e ∷ [];
    is_over = c.is_over || not (is_exception e);
  }

  -- An action as `do_command` runs it, under its handler.
  abbrev pub run_action : M (Forktrace K) (Unit {0}) → Console K → Console K
  run_action m c = settle c (m c.ft)

  abbrev pub set_opts : (Settings → Settings) → M (Forktrace K) (Unit {0})
  set_opts g f = (record f { opts = g f.opts }, done tt)

  abbrev pub set_switches : (Switches → Switches) → M (Forktrace K) (Unit {0})
  set_switches g f = (record f { switches = g f.switches }, done tt)

  abbrev pub or_throw :
      {A : Type 0} → Option A → (A → M (Forktrace K) (Unit {0})) → M (Forktrace K) (Unit {0})
  or_throw none act f = (f, raised runtime_error)
  or_throw (some a) act f = act a f

  -- The three overloads of `add`.
  abbrev pub plain : M (Forktrace K) (Unit {0}) → List Str → Console K → Console K
  plain m = without_args (run_action m)

  abbrev pub unary : (Str → M (Forktrace K) (Unit {0})) → List Str → Console K → Console K
  unary m = with_one_arg (λ a. run_action (m a))

  abbrev pub variadic : (List Str → M (Forktrace K) (Unit {0})) → List Str → Console K → Console K
  variadic m args = run_action (m args)

  abbrev pub on_off : (Bool → Switches → Switches) → List Str → Console K → Console K
  on_off g = unary (λ a. or_throw (parse_bool a) (λ b. set_switches (g b)))

  abbrev pub yes_no : (Bool → Settings → Settings) → List Str → Console K → Console K
  yes_no g = unary (λ a. or_throw (parse_bool a) (λ b. set_opts (g b)))

  -- The help command, whose text is not modelled.
  abbrev pub show_help : List Str → Console K → Console K
  show_help args c = c

  abbrev pub quit_loop : Console K → Console K
  quit_loop c = record c { quitting = true }

  abbrev pub a_command :
      Str → Str → Str → (List Str → Console K → Console K) → Bool → Command (Console K)
  a_command name params help act again = record {
    name = name;
    params = params;
    help = help;
    action = act;
    auto_repeat = again;
  }

  abbrev pub general_commands : List (Command (Console K))
  general_commands =
      a_command (codes "help") (codes "[COMMAND]")
        (codes "shows help about a command, or all if none specified") show_help false
      ∷ a_command (codes "quit") [] (codes "quit forktrace") (without_args quit_loop) false
      ∷ []

  abbrev pub log_commands : List (Command (Console K))
  log_commands =
      a_command (codes "colour") (codes "on|off") (codes "enable/disable colour")
        (on_off set_colour_enabled) false
      ∷ a_command (codes "debug") (codes "on|off") (codes "enable/disable debug messages")
          (on_off (set_log_category_enabled log_dbg)) false
      ∷ a_command (codes "verbose") (codes "on|off") (codes "enable/disable extra log messages")
          (on_off (set_log_category_enabled log_verb)) false
      ∷ a_command (codes "log") (codes "on|off") (codes "enable/disable general log messages")
          (on_off (set_log_category_enabled log_log)) false
      ∷ []

  abbrev pub config_commands : List (Command (Console K))
  config_commands =
      a_command (codes "lane-width") (codes "WIDTH") (codes "set the diagram lane width")
        (unary (λ a. or_throw (parse_size a) (λ n. set_opts (λ o. record o { lane_width = n }))))
        false
      ∷ a_command (codes "show-non-fatal") (codes "yes|no") (codes "hide or show non-fatal signals")
          (yes_no (λ b o. record o { show_non_fatal = b })) false
      ∷ a_command (codes "show-execs") (codes "yes|no") (codes "hide or show successful execs")
          (yes_no (λ b o. record o { show_all_execs = b })) false
      ∷ a_command (codes "show-bad-execs") (codes "yes|no") (codes "hide or show failed execs")
          (yes_no (λ b o. record o { show_bad_execs = b })) false
      ∷ a_command (codes "show-signal-sends") (codes "yes|no") (codes "hide or show signal sends")
          (yes_no (λ b o. record o { show_sends = b })) false
      ∷ a_command (codes "merge-execs") (codes "yes|no")
          (codes "if true, merge retried execs of the same program")
          (yes_no (λ b o. record o { merge_execs = b })) false
      ∷ []

  -- Groups of commands, added one after the other; `none` is a failed assertion of `add`.
  unfoldable pub add_each :
      List (Command (Console K)) → List (Group (Console K)) → Option (List (Group (Console K)))
  add_each [] groups = some groups
  add_each (c ∷ cs) groups = elim (add groups c) [ none ↦ none | some after ↦ add_each cs after ]

  unfoldable pub add_groups :
      List (Str × List (Command (Console K)))
      → List (Group (Console K))
      → Option (List (Group (Console K)))
  unfolding add_each
  add_groups [] groups = some groups
  add_groups ((name, cs) ∷ rest) groups = elim (add_each cs (start_new_group groups name)) [
    | none ↦ none
    | some after ↦ add_groups rest after
  ]

module _ {K : Type 0} (kernel : Kernel K) (fuel rounds bound : ℕ) where
  abbrev pub tree_commands : List (Command (Console K))
  tree_commands =
      a_command (codes "list") [] (codes "print a list of all tracees") (plain (put_out list_shown))
        false
      ∷ a_command (codes "tree") (codes "[TREE]")
          (codes "debug output for a process tree, or all if none specified") (variadic do_tree)
          false
      ∷ a_command (codes "trees") [] (codes "print a list of all the process trees")
          (plain do_trees) false
      ∷ a_command (codes "draw") (codes "[TREE]")
          (codes "draw a process tree, or all if none specified") (variadic (do_draw bound draw))
          false
      ∷ a_command (codes "view") (codes "[TREE]")
          (codes "view a process tree in a scrollable window (defaults to tree 0)")
          (variadic (do_draw bound view)) false
      ∷ []

  abbrev pub control_commands : List (Command (Console K))
  control_commands =
      a_command (codes "start") (codes "PROGRAM [ARGS...]") (codes "start a tracee program")
        (variadic (do_start kernel fuel rounds)) false
      ∷ a_command (codes "run") (codes "PROGRAM [ARGS...]")
          (codes "equivalent to \"start\" followed by \"go\"")
          (variadic (do_run kernel fuel rounds bound)) false
      ∷ a_command (codes "march") [] (codes "resume all tracees until they stop again")
          (plain (do_march kernel fuel rounds)) true
      ∷ a_command (codes "next") [] (codes "equivalent to \"march\" followed by \"draw\"")
          (plain (do_next kernel fuel rounds bound)) true
      ∷ a_command (codes "go") [] (codes "resumes all tracees until until they end")
          (plain (do_go kernel fuel rounds bound)) false
      ∷ []

  -- The commands of all groups, those of the constructor of `CommandParser` first.
  abbrev pub command_groups : List (Str × List (Command (Console K)))
  command_groups =
      ([], general_commands)
      ∷ (codes "Log & colour", log_commands)
      ∷ (codes "Process tree", tree_commands)
      ∷ (codes "Tracee control", control_commands)
      ∷ (codes "Diagram config", config_commands)
      ∷ []

  -- The constructor of `CommandParser` and `register_commands`.
  unfoldable pub register_commands : Option (List (Group (Console K)))
  unfolding add_groups
  register_commands = add_groups command_groups []
