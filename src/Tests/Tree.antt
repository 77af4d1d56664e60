-- ===== src/Tests/Tree.antt =====
-- Runs of the process tree (src/tracer/process.cpp): a shell that forks, waits and reaps.
use forktrace.Prelude.{
  ◌≡◌, refl, pos, negsuc, true, false, none, some, inr, List, [], ◌∷◌, codes, arith, length, ap,
  str_eq, strs_eq,
}
use forktrace.Util.{join}
use forktrace.Event.{Ref, WaitEvent, fork_event, wait_event, reap_event}
use forktrace.Process.{
  zombie, reaped, orphaned, wild_read, dangling_ref, ok, new_process, new_child, notify_waiting,
  notify_failed_wait, notify_orphaned, notify_signaled, notify_forked, resolve_wait, notify_exec,
  notify_ended, command_line, show_command,
}
use forktrace.Tree.{
  Heap, update, Notice, started, born, waiting, reaped_child, forked, execed, ended, signaled,
  orphan, notify, notify_all, notify_reaped, is_full, capacity, receive_kill, notify_sent_signal,
}
use forktrace.Tree.Coherence.{AllCoherent, notify_all-AllCoherent}
use forktrace.Tree.Lifecycle.{Follows, notify_all-Follows}
use forktrace.Tree.Waits.{notify_reaped_resolves}
use forktrace.Process.Search.{search_wait, without_wait, resolve_wait_lem}
use forktrace.Tree.Signals.{notify_sent_signal_links, notify_sent_signal_dangles}
use forktrace.Tree.CommandLine.{command_line-notify, command_line-notify_exec}

abbrev bare : Heap
bare r = new_process (pos 0) [] []

bare-AllCoherent : AllCoherent bare
unfolding new_process
bare-AllCoherent r = (refl, refl)

-- The heap after a history; to unfold it is to unfold all that the notifications call.
after : List (Ref × Notice) → Heap
unfolding notify_all notify_reaped notify_sent_signal receive_kill notify_orphaned notify_ended
    notify_signaled notify_exec notify_waiting notify_failed_wait notify_forked resolve_wait
    new_process is_full capacity new_child str_eq strs_eq
after = notify_all bare

-- 768 is the status of an exit with code 3, and 15 that of a death by SIGTERM.
abbrev session : List (Ref × Notice)
session =
    (0, started (pos 10) (codes "sh") (codes "sh" ∷ []))
    ∷ (1, born (pos 11) 0)
    ∷ (0, forked 1)
    ∷ (0, waiting (negsuc 0) false)
    ∷ (1, execed (codes "/bin/ls") (codes "ls" ∷ []) (pos 2))
    ∷ (1, execed (codes "/usr/bin/ls") (codes "ls" ∷ []) (pos 0))
    ∷ (1, ended 768)
    ∷ (0, reaped_child 1)
    ∷ (0, signaled (negsuc 0) (pos 15))
    ∷ (0, ended 15)
    ∷ (0, orphan)
    ∷ []

session_ends : (after session 0).state ≡ orphaned
unfolding after
session_ends = refl

session_merges_execs : length (after session 1).history ≡ 2
unfolding after
session_merges_execs = refl

session_command : command_line (after session 1) (negsuc 0) ≡ ok (codes "/usr/bin/ls [ ls ]")
unfolding after command_line show_command join
session_command = refl

-- A signal that ended a process already reaped makes it a zombie again.
revived : (after ((0, ended 9) ∷ (0, orphan) ∷ (0, ended 9) ∷ []) 0).state ≡ zombie
unfolding after
revived = refl

-- A child that is reaped with no wait to blame stays marked.
reaped_without_wait : (notify_reaped (after ((1, ended 9) ∷ [])) 0 1).1 ≡ some wild_read
unfolding after
reaped_without_wait = refl

notify_all-AllCoherent_example : AllCoherent (notify_all bare session)
notify_all-AllCoherent_example = notify_all-AllCoherent bare session bare-AllCoherent

abbrev later : List (Ref × Notice)
later = (1, forked 5) ∷ (1, ended 9) ∷ (0, waiting (pos 1) true) ∷ (0, reaped_child 1) ∷ []

notify_all-Follows_example : Follows (bare 1).state (notify_all bare later 1).state
unfolding after
notify_all-Follows_example = notify_all-Follows bare later (tt, (refl, (tt, (tt, tt)))) 1

-- A parent that waits, and a child that has died.
abbrev waited : List (Ref × Notice)
waited = (0, waiting (pos 11) false) ∷ (0, forked 1) ∷ (1, ended 9) ∷ []

abbrev open_wait : WaitEvent
open_wait = record { waited_id = pos 11; error = pos 0; nohang = false }

notify_reaped_resolves_example : notify_reaped (after waited) 0 1 ≡ (
  update
      (update (after waited) 1 (record (after waited 1) { state = reaped }))
      0
      (record (after waited 0) {
        history =
            record { kind = fork_event 1; location = none }
            ∷ record { kind = reap_event 1 open_wait; location = none }
            ∷ [];
      }),
  none,
)
unfolding after
notify_reaped_resolves_example =
    notify_reaped_resolves (after waited) 0 1 (record { kind = fork_event 1; location = none } ∷ [])
      [] open_wait none (omega arith) refl refl refl refl

-- A child that has forked twice and died.
abbrev forked_twice : Heap
forked_twice =
    notify_all bare
      ((1, started (pos 11) [] []) ∷ (1, forked 2) ∷ (1, forked 3) ∷ (1, ended 9) ∷ [])

-- One that has died at once.
abbrev alone : Heap
alone = notify_all bare ((1, started (pos 11) [] []) ∷ (1, ended 9) ∷ [])

notify_sent_signal_links_example :
    (notify_sent_signal forked_twice (pos 11) 0 (some 1) (pos 9) false).1 ≡ none
unfolding after
notify_sent_signal_links_example =
    ap (λ o. o.1)
      (notify_sent_signal_links forked_twice (pos 11) 0 1 (pos 9) false (omega arith) refl refl
        (refl, refl) (inr refl))

notify_sent_signal_dangles_example :
    (notify_sent_signal alone (pos 11) 0 (some 1) (pos 9) false).1 ≡ some dangling_ref
unfolding after
notify_sent_signal_dangles_example =
    ap (λ o. o.1)
      (notify_sent_signal_dangles alone (pos 11) 0 1 (pos 9) false 0 (omega arith) refl refl
        (refl, refl) (λ e. cc) refl)

-- An open wait, behind a fork.
resolve_wait_lem_example :
    resolve_wait wait_event (after waited 0).history
    ≡ search_wait wait_event (without_wait (after waited 0).history) (after waited 0).history
resolve_wait_lem_example = resolve_wait_lem wait_event (after waited 0).history

command_line-notify_example :
    command_line ((notify bare 1 (ended 9)).0 1) (negsuc 0) ≡ command_line (bare 1) (negsuc 0)
command_line-notify_example = command_line-notify bare 1 (ended 9) tt 1

command_line-notify_exec_example :
    command_line (after ((0, execed (codes "ls") [] (pos 0)) ∷ []) 0) (negsuc 0)
    ≡ ok (show_command (codes "ls") [])
unfolding after
command_line-notify_exec_example =
    command_line-notify_exec (bare 0) (codes "ls") []
      (after ((0, execed (codes "ls") [] (pos 0)) ∷ []) 0) refl
