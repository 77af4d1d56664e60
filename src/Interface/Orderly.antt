-- ===== src/Interface/Orderly.antt =====
-- What the command loop and a run leave behind.
use forktrace.Prelude.{ℕ, ◌≡◌, ◌⊎◌, inl, inr, refl, subst, true, if◌then◌else◌, some, List, [], Str}
use forktrace.Kernel.{Kernel}
use forktrace.Command.Table.{Group}
use forktrace.Tracer.Sound.Calls.{IsConsistent, consistent-IsSound, sound-IsConsistent}
use forktrace.Interface.Commands.{view, draw_or_view}
use forktrace.Interface.Sound.{Holds-then, do_draw-Holds, do_run-Holds}
use forktrace.Interface.Console.{Console, register_commands}
use forktrace.Interface.CommandLine.{Input, at_command, last_console, command_line, run_program}
use forktrace.Interface.Registered.{AnyGroups}
use forktrace.Interface.Steady.{no_tree_error, FirstInTurn, Steady, KeepsSteady, run_action-Steady}
use forktrace.Interface.Typed.{register_commands-AnyGroups}
use forktrace.Interface.Prompted.{command_line-Steady}

-- Either the process tree has thrown nothing, and the tracees and the process tree agree; or what it
-- threw first is not that it was told of an event out of turn.
abbrev pub IsOrderly : {K : Type 0} → Console K → Type 0
IsOrderly c = ((no_tree_error c.errors ≡ true) × IsConsistent c.ft.world) ⊎ FirstInTurn c.errors

Steady-IsOrderly : {K : Type 0} (c : Console K) → Steady c → IsOrderly c
Steady-IsOrderly c (inl (n, s)) = inl (n, sound-IsConsistent c.ft.world s)
Steady-IsOrderly c (inr i) = inr i

first-Steady : {K : Type 0} (c : Console K) → c.errors ≡ [] → IsConsistent c.ft.world → Steady c
first-Steady c none' s = inl (rw none' refl, consistent-IsSound c.ft.world s)

module _ {K : Type 0} (kernel : Kernel K) (fuel rounds bound : ℕ) where
  -- From a consistent world, the command line of the registered commands, on whatever lines are typed,
  -- orphans the reaper sends and interrupts come between them, leaves the tracees and the process tree
  -- in agreement, also after commands that failed. Only once the process tree has thrown may they be
  -- another, and what it threw first is never that it was told of an event out of turn.
  pub command_line-IsOrderly :
      (groups : List (Group (Console K))) (inputs : List Input) (c : Console K)
      → register_commands kernel fuel rounds bound ≡ some groups
      → c.errors ≡ []
      → IsConsistent c.ft.world
      → IsOrderly (
          last_console (
            command_line kernel fuel rounds bound groups at_command inputs
              (record { repeated = []; state = c })))
  command_line-IsOrderly groups inputs c e n s =
      Steady-IsOrderly
        (last_console (
          command_line kernel fuel rounds bound groups at_command inputs
            (record { repeated = []; state = c })))
        (command_line-Steady kernel fuel rounds bound groups at_command inputs
          (record { repeated = []; state = c })
          (subst (AnyGroups KeepsSteady) e (register_commands-AnyGroups kernel fuel rounds bound))
          (first-Steady c n s))

  -- A run of a program from start to finish leaves the tracees and the process tree in agreement, if it
  -- begins so, whether it ends well or is stopped by an error. Only where the process tree has thrown
  -- may they be another, and then it was not told of an event out of turn.
  pub run_program-IsOrderly :
      (command : List Str) (c : Console K)
      → c.errors ≡ []
      → IsConsistent c.ft.world
      → IsOrderly (run_program kernel fuel rounds bound command c)
  unfolding run_program
  run_program-IsOrderly command c n s =
      Steady-IsOrderly (run_program kernel fuel rounds bound command c) (
        run_action-Steady _ c
          (Holds-then (do_run-Holds kernel fuel rounds bound command) (λ u. record {
            from = λ f sound.
                (do_draw-Holds bound (if f.opts.force_scroll_view then view else draw_or_view)
                    []).from
                  f sound;
          }))
          (first-Steady c n s))
