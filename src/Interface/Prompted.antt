-- ===== src/Interface/Prompted.antt =====
-- The command loop keeps the console steady.
use forktrace.Prelude.{ℕ, ℤ, Bool, true, false, if◌then◌else◌, List, [], ◌∷◌}
use forktrace.Action.{Outcome, done, raised}
use forktrace.Kernel.{Kernel}
use forktrace.Command.Table.{Group, Parser, do_command}
use forktrace.Tracer.Sound.{IsSound}
use forktrace.Tracer.Sound.Reaped.{collect_orphans-Keeps}
use forktrace.Tracer.Loop.{tracees_alive, tracees_exist, notify_orphan, check_orphans, nuke}
use forktrace.Tracer.Loop
use forktrace.Interface.Commands.{Forktrace, on_tracer}
use forktrace.Interface.Sound.{Left, Holds, on_tracer-Holds}
use forktrace.Interface.Console.{Console, settle}
use forktrace.Interface.CommandLine.{
  Input, line_read, orphan_read, interrupt, Ending, returned, aborted, last_console, Prompt,
  at_command, at_question, is_yes, Next, go_on, ask, end_loop, on_thread, confirm_quit, checked,
  after_command, command_line,
}
use forktrace.Interface.Registered.{AllGroups}
use forktrace.Interface.Steady.{Steady, KeepsSteady, run_action-Steady, do_command-Steady}

module _ {K : Type 0} (kernel : Kernel K) (fuel rounds bound : ℕ) where
  abbrev SteadyNext : Next K → Type 0
  SteadyNext (go_on c) = Steady c
  SteadyNext (ask c) = Steady c
  SteadyNext (end_loop e) = Steady (last_console e)

  confirm_quit-Steady : (c : Console K) → Steady c → SteadyNext (confirm_quit c)
  confirm_quit-Steady c s = choose (tracees_alive c.ft.world)
    where
      choose : (b : Bool) → SteadyNext (if b then ask c else end_loop (returned c))
      choose true = s
      choose false = s

  checked-Steady :
      (c : Console K) (x : Forktrace K × Outcome (Unit {0}))
      → Steady (settle c x)
      → SteadyNext (checked c x)
  checked-Steady c (f, done u) s = s
  checked-Steady c (f, raised e) s = s

  after_command-Steady :
      (more : Bool) (c : Console K) → Steady c → SteadyNext (after_command more c)
  unfolding after_command check_orphans
  after_command-Steady more c s = over c.is_over
    where
      goes :
          (b : Bool)
          → SteadyNext (if b then checked c (on_tracer check_orphans c.ft) else confirm_quit c)
      goes true =
          checked-Steady c _ (
            run_action-Steady (on_tracer check_orphans) c (on_tracer-Holds collect_orphans-Keeps) s)
      goes false = confirm_quit-Steady c s

      quits :
          (b : Bool)
          → SteadyNext (
              if b
              then confirm_quit (record c { quitting = false })
              else if more
              then checked c (on_tracer check_orphans c.ft)
              else confirm_quit c)
      quits true = confirm_quit-Steady (record c { quitting = false }) s
      quits false = goes more

      over :
          (b : Bool)
          → SteadyNext (
              if b
              then end_loop (aborted c)
              else if c.quitting
              then confirm_quit (record c { quitting = false })
              else if more
              then checked c (on_tracer check_orphans c.ft)
              else confirm_quit c)
      over true = s
      over false = quits c.quitting

  notify_orphan-Holds : (pid : ℤ) → Holds {K = K} (on_tracer (notify_orphan pid))
  unfolding notify_orphan
  notify_orphan-Holds pid = record { from = λ f s. s }

  nuke-Holds : Holds (on_tracer (nuke kernel fuel))
  unfolding nuke
  nuke-Holds = record { from = λ f s. choose f s (tracees_exist f.world) }
    where
      choose :
          (f : Forktrace K)
          → IsSound f.world
          → (b : Bool)
          → Left (
              on_tracer
                (λ w.
                  if b
                  then (
                    record w { system = Loop.kill_groups kernel fuel w.leaders w.system },
                    done tt,
                  )
                  else (w, done tt))
                f)
      choose f s true = s
      choose f s false = s

  on_thread-Steady :
      (i : Input) (c : Console K) → Steady c → Steady (on_thread kernel fuel rounds bound i c)
  on_thread-Steady (line_read l) c s = s
  on_thread-Steady (orphan_read pid) c s =
      run_action-Steady (on_tracer (notify_orphan pid)) c (notify_orphan-Holds pid) s
  on_thread-Steady interrupt c s = run_action-Steady (on_tracer (nuke kernel fuel)) c nuke-Holds s

  pub command_line-Steady :
      (groups : List (Group (Console K))) (at : Prompt) (inputs : List Input)
      (p : Parser (Console K))
      → AllGroups KeepsSteady groups
      → Steady p.state
      → Steady (last_console (command_line kernel fuel rounds bound groups at inputs p))
  unfolding command_line
  command_line-Steady groups at [] p all s = s
  command_line-Steady groups at_question (line_read l ∷ rest) p all s =
      choose (is_yes l) (command_line-Steady groups at_command rest p all s)
    where
      choose :
          (b : Bool)
          → Steady (last_console (command_line kernel fuel rounds bound groups at_command rest p))
          → Steady (
              last_console (
                if b
                then returned p.state
                else command_line kernel fuel rounds bound groups at_command rest p))
      choose true h = s
      choose false h = h
  command_line-Steady groups at_command (line_read l ∷ rest) p all s =
      let (more, q) = do_command groups l p in
      next (λ at c h. command_line-Steady groups at rest (record q { state = c }) all h)
        (after_command more q.state)
        (after_command-Steady more q.state (do_command-Steady groups l p all s))
    where
      next :
          ((at : Prompt) (c : Console K)
            → Steady c
            → Steady (
                last_console (
                  command_line kernel fuel rounds bound groups at rest
                    (record (do_command groups l p).1 { state = c }))))
          → (n : Next K) → SteadyNext n
          → Steady (
              last_console (elim n as (λ x. Ending K) [
                | end_loop e ↦ e
                | go_on c ↦
                    command_line kernel fuel rounds bound groups at_command rest
                      (record (do_command groups l p).1 { state = c })
                | ask c ↦
                    command_line kernel fuel rounds bound groups at_question rest
                      (record (do_command groups l p).1 { state = c })
              ]))
      next ih (end_loop e) h = h
      next ih (go_on c) h = ih at_command c h
      next ih (ask c) h = ih at_question c h
  command_line-Steady groups at (orphan_read pid ∷ rest) p all s =
      command_line-Steady groups at rest
        (record p { state = on_thread kernel fuel rounds bound (orphan_read pid) p.state }) all
        (on_thread-Steady (orphan_read pid) p.state s)
  command_line-Steady groups at (interrupt ∷ rest) p all s =
      command_line-Steady groups at rest
        (record p { state = on_thread kernel fuel rounds bound interrupt p.state }) all
        (on_thread-Steady interrupt p.state s)
