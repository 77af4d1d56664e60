-- ===== src/Interface/Typed.antt =====
-- Every command that is registered keeps the console steady.
use forktrace.Prelude.{ℕ, Bool, Option, none, some, List, [], ◌∷◌, Str}
use forktrace.Action.{M}
use forktrace.Kernel.{Kernel}
use forktrace.Parse.{parse_bool, parse_size}
use forktrace.Settings.{Settings, Switches}
use forktrace.Command.Table.{Command, Group, without_args, start_new_group, add}
use forktrace.Interface.Commands.{Forktrace, draw, view}
use forktrace.Interface.Sound.{
  Holds, put_out-Holds, do_tree-Holds, do_trees-Holds, do_draw-Holds, do_start-Holds, do_go-Holds,
  do_run-Holds, do_march-Holds, do_next-Holds,
}
use forktrace.Interface.Console
use forktrace.Interface.Console.{
  Console, settle, run_action, set_opts, set_switches, or_throw, plain, unary, variadic, on_off,
  yes_no, general_commands, log_commands, tree_commands, control_commands, config_commands,
  add_each, add_groups, command_groups, register_commands,
}
use forktrace.Interface.Registered.{
  AllIn, AllGroups, AnyGroups, add-AnyGroups, start_new_group-AllGroups,
}
use forktrace.Interface.Steady.{
  Steady, KeepsSteady, run_action-Steady, set_opts-Holds, set_switches-Holds, or_throw-Holds,
  plain-Steady, unary-Steady,
}

module _ {K : Type 0} where
  plain-Keeps :
      (m : M (Forktrace K) (Unit {0})) (name params help : Str) (again : Bool)
      → Holds m
      → KeepsSteady (Console.a_command name params help (plain m) again)
  plain-Keeps m name params help again h = record { keeps = λ args c s. plain-Steady m args c h s }

  variadic-Keeps :
      (m : List Str → M (Forktrace K) (Unit {0})) (name params help : Str) (again : Bool)
      → ((args : List Str) → Holds (m args))
      → KeepsSteady (Console.a_command name params help (variadic m) again)
  variadic-Keeps m name params help again h = record {
    keeps = λ args c s. run_action-Steady (m args) c (h args) s;
  }

  on_off-Keeps :
      (g : Bool → Switches → Switches) (name params help : Str) (again : Bool)
      → KeepsSteady {K = K} (Console.a_command name params help (on_off g) again)
  on_off-Keeps g name params help again = record {
    keeps = λ args c s.
        unary-Steady _ args c (λ a. or_throw-Holds (parse_bool a) _ (λ b. set_switches-Holds (g b)))
          s;
  }

  yes_no-Keeps :
      (g : Bool → Settings → Settings) (name params help : Str) (again : Bool)
      → KeepsSteady {K = K} (Console.a_command name params help (yes_no g) again)
  yes_no-Keeps g name params help again = record {
    keeps = λ args c s.
        unary-Steady _ args c (λ a. or_throw-Holds (parse_bool a) _ (λ b. set_opts-Holds (g b))) s;
  }

  general_commands-AllIn : AllIn (KeepsSteady {K = K}) general_commands
  unfolding without_args
  general_commands-AllIn =
      (record { keeps = λ args c s. s }, (record { keeps = λ args c s. quits args c s }, tt))
    where
      quits :
          (args : List Str) (c : Console K)
          → Steady c
          → Steady (without_args Console.quit_loop args c)
      quits [] c s = s
      quits (a ∷ args) c s = s

  log_commands-AllIn : AllIn (KeepsSteady {K = K}) log_commands
  log_commands-AllIn = (
    on_off-Keeps _ _ _ _ _,
    (on_off-Keeps _ _ _ _ _, (on_off-Keeps _ _ _ _ _, (on_off-Keeps _ _ _ _ _, tt))),
  )

  config_commands-AllIn : AllIn (KeepsSteady {K = K}) config_commands
  config_commands-AllIn = (
    record {
      keeps = λ args c s.
          unary-Steady _ args c
            (λ a.
              or_throw-Holds (parse_size a) _
                (λ n. set_opts-Holds (λ o. record o { lane_width = n })))
            s;
    },
    (
      yes_no-Keeps _ _ _ _ _,
      (
        yes_no-Keeps _ _ _ _ _,
        (yes_no-Keeps _ _ _ _ _, (yes_no-Keeps _ _ _ _ _, (yes_no-Keeps _ _ _ _ _, tt))),
      ),
    ),
  )

  add_each-AnyGroups :
      (cs : List (Command (Console K))) (gs : List (Group (Console K)))
      → AllIn KeepsSteady cs
      → AllGroups KeepsSteady gs
      → AnyGroups KeepsSteady (add_each cs gs)
  unfolding add_each
  add_each-AnyGroups [] gs a b = b
  add_each-AnyGroups (c ∷ cs) gs (k, a) b =
      behind (λ after h. add_each-AnyGroups cs after a h) (add gs c)
        (add-AnyGroups KeepsSteady gs c k b)
    where
      behind :
          ((after : List (Group (Console K)))
            → AllGroups KeepsSteady after
            → AnyGroups KeepsSteady (add_each cs after))
          → (o : Option (List (Group (Console K)))) → AnyGroups KeepsSteady o
          → AnyGroups KeepsSteady (elim o [ none ↦ none | some after ↦ add_each cs after ])
      behind rest none h = tt
      behind rest (some after) h = rest after h

  abbrev AllLists : List (Str × List (Command (Console K))) → Type 0
  AllLists [] = Unit {0}
  AllLists ((name, cs) ∷ rest) = AllIn KeepsSteady cs × AllLists rest

  add_groups-AnyGroups :
      (ls : List (Str × List (Command (Console K)))) (gs : List (Group (Console K)))
      → AllLists ls
      → AllGroups KeepsSteady gs
      → AnyGroups KeepsSteady (add_groups ls gs)
  unfolding add_groups
  add_groups-AnyGroups [] gs a b = b
  add_groups-AnyGroups ((name, cs) ∷ ls) gs (k, a) b =
      behind (λ after h. add_groups-AnyGroups ls after a h) (add_each cs (start_new_group gs name))
        (add_each-AnyGroups cs (start_new_group gs name) k
          (start_new_group-AllGroups KeepsSteady gs name b))
    where
      behind :
          ((after : List (Group (Console K)))
            → AllGroups KeepsSteady after
            → AnyGroups KeepsSteady (add_groups ls after))
          → (o : Option (List (Group (Console K)))) → AnyGroups KeepsSteady o
          → AnyGroups KeepsSteady (elim o [ none ↦ none | some after ↦ add_groups ls after ])
      behind rest none h = tt
      behind rest (some after) h = rest after h

module _ {K : Type 0} (kernel : Kernel K) (fuel rounds bound : ℕ) where
  tree_commands-AllIn : AllIn (KeepsSteady {K = K}) (tree_commands kernel fuel rounds bound)
  tree_commands-AllIn = (
    plain-Keeps _ _ _ _ _ (put_out-Holds _),
    (
      variadic-Keeps _ _ _ _ _ do_tree-Holds,
      (
        plain-Keeps _ _ _ _ _ do_trees-Holds,
        (
          variadic-Keeps _ _ _ _ _ (do_draw-Holds bound draw),
          (variadic-Keeps _ _ _ _ _ (do_draw-Holds bound view), tt),
        ),
      ),
    ),
  )

  control_commands-AllIn : AllIn KeepsSteady (control_commands kernel fuel rounds bound)
  control_commands-AllIn = (
    variadic-Keeps _ _ _ _ _ (do_start-Holds kernel fuel rounds),
    (
      variadic-Keeps _ _ _ _ _ (do_run-Holds kernel fuel rounds bound),
      (
        plain-Keeps _ _ _ _ _ (do_march-Holds kernel fuel rounds),
        (
          plain-Keeps _ _ _ _ _ (do_next-Holds kernel fuel rounds bound),
          (plain-Keeps _ _ _ _ _ (do_go-Holds kernel fuel rounds bound), tt),
        ),
      ),
    ),
  )

  pub register_commands-AnyGroups :
      AnyGroups KeepsSteady (register_commands kernel fuel rounds bound)
  unfolding register_commands
  register_commands-AnyGroups =
      add_groups-AnyGroups (command_groups kernel fuel rounds bound) []
        (
          general_commands-AllIn,
          (
            log_commands-AllIn,
            (tree_commands-AllIn, (control_commands-AllIn, (config_commands-AllIn, tt))),
          ),
        )
        tt
