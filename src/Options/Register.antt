-- ===== src/Options/Register.antt =====
-- The options of forktrace and what they do (`register_options`, `main`).
use forktrace.Prelude.{
  ℕ, ℤ, Bool, true, false, if◌then◌else◌, Option, none, some, List, [], ◌∷◌, ◌++◌, Str, codes,
}
use forktrace.Parse.{parse_bool, parse_int, parse_size}
use forktrace.Settings.{
  Settings, default_settings, Switches, log_log, log_verb, log_dbg, set_log_category_enabled,
  set_colour_enabled, init_switches,
}
use forktrace.Options.{
  Call, returned, thrown, Handler, option0, option1, ProgramOption, OptionGroup, Outcome, parsed,
  refused, start_option_group, add_option, parse,
}

-- What options ask for that is only printed.
pub data Print : Type 0 where
  print_help : Print
  diagnose_status : ℤ → Print
  print_syscall : ℤ → Print

-- All that the callbacks change: the options, the switches, `_doExit`, and what is printed.
pub record Session : Type 0 where
  pub opts : Settings
  pub switches : Switches
  pub do_exit : Bool
  pub printed : List Print

-- `schedule_exit`, and the reset at the start of `parse`.
abbrev pub schedule_exit : Session → Session
schedule_exit s = record s { do_exit = true }

abbrev pub reset_exit : Session → Session
reset_exit s = record s { do_exit = false }

abbrev pub print_and_exit : Print → Session → Session
print_and_exit p s = schedule_exit (record s { printed = s.printed ++ p ∷ [] })

-- A callback that parses its value; what does not parse is thrown as a `ParseError`.
abbrev pub or_throw :
    {A : Type 0} → Option A → Str → (A → Session → Session) → Session → Call Session
or_throw none e act s = thrown e s
or_throw (some a) e act s = returned (act a s)

abbrev pub not_a : Str → Str → Str
not_a v kind = codes "'" ++ v ++ codes "' is not a valid " ++ kind

abbrev pub with_bool : (Bool → Settings → Settings) → Handler Session
with_bool f = option1 (λ v.
    or_throw (parse_bool v) (not_a v (codes "boolean.")) (λ b s. record s { opts = f b s.opts }))

abbrev pub with_size : (ℕ → Settings → Settings) → Handler Session
with_size f = option1 (λ v.
    or_throw (parse_size v) (not_a v (codes "number.")) (λ n s. record s { opts = f n s.opts }))

abbrev pub with_int : (ℤ → Print) → Handler Session
with_int f =
    option1 (λ v. or_throw (parse_int v) (not_a v (codes "number.")) (λ n. print_and_exit (f n)))

abbrev pub with_settings : (Settings → Settings) → Handler Session
with_settings f = option0 (λ s. returned (record s { opts = f s.opts }))

abbrev pub with_switches : (Switches → Switches) → Handler Session
with_switches f = option0 (λ s. returned (record s { switches = f s.switches }))

abbrev pub an_option : Str → ℕ → Str → Str → Handler Session → ProgramOption Session
an_option name c param help act = record {
  name = name;
  short_name = c;
  param = param;
  help = help;
  handler = act;
}

-- The constructor's option.
abbrev pub help_options : List (ProgramOption Session)
help_options =
    an_option (codes "help") b'h' [] (codes "displays this help message")
      (option0 (λ s. returned (print_and_exit print_help s)))
    ∷ []

abbrev pub general_options : List (ProgramOption Session)
general_options =
    an_option (codes "no-colour") b'c' [] (codes "disables colours")
      (with_switches (set_colour_enabled false))
    ∷ an_option (codes "no-reaper") 0 [] (codes "disables the sub-reaper process")
        (with_settings (λ o. record o { reaper = false }))
    ∷ an_option (codes "status") 0 (codes "STATUS") (codes "diagnose a wait(2) child status")
        (with_int diagnose_status)
    ∷ an_option (codes "syscall") 0 (codes "NUMBER") (codes "print info about a syscall number")
        (with_int print_syscall)
    ∷ []

abbrev pub diagram_options : List (ProgramOption Session)
diagram_options =
    an_option (codes "scroll-view") b's' []
      (codes "always opt for the scroll-view when in instant mode")
      (with_settings (λ o. record o { force_scroll_view = true }))
    ∷ an_option (codes "non-fatal") 0 (codes "yes|no") (codes "show or hide non-fatal signals")
        (with_bool (λ b o. record o { show_non_fatal = b }))
    ∷ an_option (codes "execs") 0 (codes "yes|no") (codes "show or hide successful execs")
        (with_bool (λ b o. record o { show_all_execs = b }))
    ∷ an_option (codes "bad-execs") 0 (codes "yes|no") (codes "show or hide failed execs")
        (with_bool (λ b o. record o { show_bad_execs = b }))
    ∷ an_option (codes "signal-sends") 0 (codes "yes|no") (codes "show or hide sent signals")
        (with_bool (λ b o. record o { show_sends = b }))
    ∷ an_option (codes "merge-execs") 0 (codes "yes|no")
        (codes "if true, merge retried execs of the same program")
        (with_bool (λ b o. record o { merge_execs = b }))
    ∷ an_option (codes "lane-width") 0 (codes "WIDTH") (codes "set the diagram lane width")
        (with_size (λ n o. record o { lane_width = n }))
    ∷ []

abbrev pub logging_options : List (ProgramOption Session)
logging_options =
    an_option (codes "verbose") b'v' [] (codes "shows more information than usual")
      (with_switches (set_log_category_enabled log_verb true))
    ∷ an_option (codes "debug") b'd' [] (codes "shows debugging log messages")
        (with_switches (set_log_category_enabled log_dbg true))
    ∷ an_option (codes "no-log") b'l' [] (codes "disable general log messages")
        (with_switches (set_log_category_enabled log_log false))
    ∷ []

-- Calls of `add` in a row, and those under a group of their own.
unfoldable pub add_all :
    {S : Type 0}
    → List (ProgramOption S)
    → Option (List (OptionGroup S))
    → Option (List (OptionGroup S))
add_all os none = none
add_all [] (some groups) = some groups
add_all (o ∷ os) (some groups) = add_all os (add_option groups o)

abbrev pub under_group :
    {S : Type 0} → Str → Option (List (OptionGroup S)) → Option (List (OptionGroup S))
under_group name none = none
under_group name (some groups) = some (start_option_group groups name)

-- The constructor of `ArgParser`, and `register_options`.
unfoldable pub new_parser : Option (List (OptionGroup Session))
unfolding add_all
new_parser = add_all help_options (some (start_option_group [] []))

unfoldable pub register_options :
    Option (List (OptionGroup Session)) → Option (List (OptionGroup Session))
unfolding add_all
register_options parser = add_all logging_options (
    under_group (codes "Logging options") (
      add_all diagram_options
        (under_group (codes "Diagram options") (add_all general_options parser))))

-- The end of `main`: the parser's result, `_doExit`, and `forktrace` for the run itself.
unfoldable pub exit_status : (List Str → Session → Bool) → Outcome Session × List Str → ℕ
exit_status forktrace (refused e s, rest) = 1
exit_status forktrace (parsed s, rest) = if s.do_exit then 0 else if forktrace rest s then 0 else 1

abbrev pub first_session : Switches → Session
first_session w = record { opts = default_settings; switches = w; do_exit = false; printed = [] }

-- `main` on `argv`: the exit status; `none` is a failed assertion.
unfoldable pub main : (List Str → Session → Bool) → List Str → Switches → Option ℕ
unfolding new_parser register_options init_switches exit_status parse
main forktrace [] w = some 1
main forktrace (program ∷ args) w = elim (register_options new_parser) [
  | none ↦ none
  | some groups ↦
      some
        (exit_status forktrace (parse reset_exit groups args [] (first_session (init_switches w))))
]
