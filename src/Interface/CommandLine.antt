-- ===== src/Interface/CommandLine.antt =====
-- The command loop and the runs (`command_line`, `run` of src/tracer/forktrace.cpp). The reaper's and
-- the signals' threads act between two commands.
use forktrace.Prelude.{
  ℕ, ℤ, Bool, true, false, ◌||◌, if◌then◌else◌, Option, none, some, List, [], ◌∷◌, Str, codes,
  str_eq,
}
use forktrace.Action.{Outcome, done, raised, ◌>>◌}
use forktrace.Kernel.{Kernel}
use forktrace.Command.Table.{Group, Parser, do_command}
use forktrace.Tracer.Loop.{tracees_alive, notify_orphan, check_orphans, nuke}
use forktrace.Interface.Commands.{Forktrace, view, draw_or_view, on_tracer, do_draw, do_run}
use forktrace.Interface.Console.{Console, settle, run_action}

-- What happens next: `read_line` gives a line, or the end of the input; the reaper sends the pid of
-- an orphan (`reaper_thread`); or the user presses Ctrl+C (`signal_thread`).
pub data Input : Type 0 where
  line_read : Option Str → Input
  orphan_read : ℤ → Input
  interrupt : Input

-- How the loop ends: it returns; an exception leaves it; the program is over; or there is no more
-- input to be seen.
pub data Ending (K : Type 0) : Type 0 where
  returned : Console K → Ending K
  thrown : Console K → Ending K
  aborted : Console K → Ending K
  waiting : Console K → Ending K

-- The console at the end of the loop.
abbrev pub last_console : {K : Type 0} → Ending K → Console K
last_console (returned c) = c
last_console (thrown c) = c
last_console (aborted c) = c
last_console (waiting c) = c

-- The prompt, or the question of `confirm_quit`.
pub data Prompt : Type 0 where
  at_command at_question : Prompt

abbrev pub is_yes : Option Str → Bool
is_yes none = true
is_yes (some line) = str_eq line (codes "y") || str_eq line (codes "Y")

-- What is left to do after a command: to go on, to ask, or to end.
pub data Next (K : Type 0) : Type 0 where
  go_on : Console K → Next K
  ask : Console K → Next K
  end_loop : Ending K → Next K

module _ {K : Type 0} where
  -- `confirm_quit`, up to its question.
  abbrev pub confirm_quit : Console K → Next K
  confirm_quit c = if tracees_alive c.ft.world then ask c else end_loop (returned c)

  abbrev pub checked : Console K → Forktrace K × Outcome (Unit {0}) → Next K
  checked c (f, done u) = go_on (record c { ft = f })
  checked c (f, raised e) = end_loop (thrown (settle c (f, raised e)))

  -- `check_orphans` after a command, or the end of the loop.
  unfoldable pub after_command : Bool → Console K → Next K
  after_command more c =
      if c.is_over
      then end_loop (aborted c)
      else if c.quitting
      then confirm_quit (record c { quitting = false })
      else if more
      then checked c (on_tracer check_orphans c.ft)
      else confirm_quit c

module _ {K : Type 0} (kernel : Kernel K) (fuel rounds bound : ℕ) where
  -- What the threads do.
  abbrev pub on_thread : Input → Console K → Console K
  on_thread (line_read l) c = c
  on_thread (orphan_read pid) c = run_action (on_tracer (notify_orphan pid)) c
  on_thread interrupt c = run_action (on_tracer (nuke kernel fuel)) c

  -- `command_line`, on what happens.
  unfoldable pub command_line :
      List (Group (Console K)) → Prompt → List Input → Parser (Console K) → Ending K
  unfolding after_command
  command_line groups at [] p = waiting p.state
  command_line groups at_question (line_read l ∷ rest) p =
      let on = command_line groups at_command rest p in if is_yes l then returned p.state else on
  command_line groups at_command (line_read l ∷ rest) p =
      let (more, q) = do_command groups l p in
      elim (after_command more q.state) [
        | end_loop e ↦ e
        | go_on c ↦ command_line groups at_command rest (record q { state = c })
        | ask c ↦ command_line groups at_question rest (record q { state = c })
      ]
  command_line groups at (orphan_read pid ∷ rest) p =
      command_line groups at rest (record p { state = on_thread (orphan_read pid) p.state })
  command_line groups at (interrupt ∷ rest) p =
      command_line groups at rest (record p { state = on_thread interrupt p.state })

  -- `run` of a program from start to finish, in the handler of `run`.
  unfoldable pub run_program : List Str → Console K → Console K
  run_program command c =
      run_action
        (do_run kernel fuel rounds bound command >> λ f.
          do_draw bound (if f.opts.force_scroll_view then view else draw_or_view) [] f)
        c
