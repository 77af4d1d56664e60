-- ===== src/Tracer/WaitCall.antt =====
-- The wait calls of a tracee, from their entry to their result (`WaitCall` and its subclasses in
-- src/tracer/tracer.cpp).
use forktrace.Prelude.{
  ℕ, ◌-◌, ◌^◌, ◌%◌, ℤ, pos, neg_ℤ, is_neg, is_pos, to_int, ◌==ℤ◌, Bool, true, false, not, ◌&&◌,
  ◌||◌, ◌==◌, if◌then◌else◌, Option, none, some, [], replicate, drop, take, Str,
}
use forktrace.Status.{is_exited, is_signaled}
use forktrace.Event.{Ref}
use forktrace.Tree.{waiting, failed_wait, reaped_child}
use forktrace.Action.{
  Error, Outcome, system_error, bad_trace, done, raised, M, ◌>>=◌, ◌>>◌, give, if_some,
}
use forktrace.Kernel.{Kernel, eio, efault}
use forktrace.Ptrace.{get_syscall_ret, get_tracee_result_addr, set_syscall_arg}
use forktrace.Ptrace.Memory.{copy_from_tracee, copy_to_tracee, memset_tracee, word_of}
use forktrace.Tracer.{World, BlockingCall, is_dead, lift, tell, erase}

-- `to_wait4_id`.
unfoldable pub to_wait4_id : ℕ → ℕ → ℤ
to_wait4_id type id =
    if type == 0
    then neg_ℤ (pos 1)
    else if type == 1
    then to_int id
    else if type == 2
    then neg_ℤ (to_int id)
    else pos (2 ^ 31 - 1)

-- The constructors.
abbrev pub wait4_call : ℕ → ℕ → ℕ → BlockingCall
wait4_call pid status flags = record {
  is_waitid = false;
  waited_id = to_int pid;
  nohang = flags % 2 == 1;
  result = status;
  old_data = none;
}

abbrev pub waitid_call : ℕ → ℕ → ℕ → ℕ → BlockingCall
waitid_call type id infop flags = record {
  is_waitid = true;
  waited_id = to_wait4_id (type % 2 ^ 32) id;
  nohang = flags % 2 == 1;
  result = infop;
  old_data = none;
}

-- `sizeof(Result)`, for `int` and `siginfo_t`, and `ResultArgIndex`.
abbrev pub result_size : BlockingCall → ℕ
result_size c = if c.is_waitid then 128 else 4

abbrev pub result_arg : BlockingCall → ℕ
result_arg c = if c.is_waitid then 2 else 1

-- A field of a structure: the `int` at an offset.
abbrev pub int_at : ℕ → Str → ℤ
int_at offset bytes = to_int (word_of (take 4 (drop offset bytes)))

-- EFAULT and EIO are caught, everything else is not.
abbrev pub is_bad_address : Error → Bool
is_bad_address (system_error e) = e == efault || e == eio
is_bad_address _ = false

abbrev pub catching : {S A : Type 0} → A → S × Outcome A → S × Outcome A
catching a (s, done b) = (s, done b)
catching a (s, raised e) = if is_bad_address e then (s, done a) else (s, raised e)

-- Neither an address nor old data: the address was bad.
abbrev pub is_hopeless : BlockingCall → Bool
is_hopeless c = elim c.old_data [ some d ↦ false | none ↦ c.result == 0 ]

-- CLD_EXITED, CLD_KILLED and CLD_DUMPED.
abbrev pub tells_end : ℤ → Bool
tells_end code = code ==ℤ pos 1 || code ==ℤ pos 2 || code ==ℤ pos 3

module _ {K : Type 0} (kernel : Kernel K) where
  -- The end of `prepare`: the result's memory is cleared for waitid, and the wait has begun.
  unfoldable pub begin_wait : BlockingCall → ℤ → Ref → M (World K) (Option BlockingCall)
  begin_wait c pid process = do
    o ←
        (if c.is_waitid
          then lift (memset_tracee kernel pid c.result 0 (result_size c))
          else give (some tt))
    if_some o (give none) (λ u. do tell process (waiting c.waited_id c.nohang); give (some c))

  -- Points the call to an address of ours, whose bytes are kept.
  unfoldable pub redirect : BlockingCall → ℤ → Ref → ℕ → Str → M (World K) (Option BlockingCall)
  redirect c pid process addr old = do
    o ← lift (set_syscall_arg kernel pid addr (result_arg c))
    if_some o (give none)
        (λ u. begin_wait (record c { result = addr; old_data = some old }) pid process)

  -- The bytes at the address found, or that it is bad.
  unfoldable pub save_old : BlockingCall → ℤ → ℕ → M K (Option (Option Str))
  save_old c pid addr k = catching (some none) (
      (copy_from_tracee kernel pid (replicate (result_size c) 0) addr >>= λ o.
      if_some o (give none) (λ old. give (some (some old))))
        k)

  -- `prepare`: the call as it is kept, or `none` where the tracee has died. A bad address of ours ends
  -- it early.
  unfoldable pub prepare : BlockingCall → ℤ → Ref → M (World K) (Option BlockingCall)
  prepare c pid process = if not (c.result == 0) then begin_wait c pid process else (do
    o ← lift (get_tracee_result_addr kernel pid)
    if_some o (give none) (λ addr. do
      o' ← lift (save_old c pid addr)
      if_some o' (give none) (λ saved. elim saved [
        | none ↦ give (some (record c { result = 0; old_data = none }))
        | some old ↦ redirect c pid process addr old
      ])))

  -- Puts back the bytes and the argument.
  unfoldable pub restore : BlockingCall → ℤ → M (World K) (Option (Unit {0}))
  restore c pid = elim c.old_data [
    | none ↦ give (some tt)
    | some old ↦ do
      o ← lift (copy_to_tracee kernel pid c.result old)
      if_some o (give none) (λ u. lift (set_syscall_arg kernel pid 0 (result_arg c)))
  ]

  -- `_get_result`: the result's bytes and the return value. The bytes of a failed call are not read;
  -- the rest of a buffer that no word is copied to is taken to be zero.
  unfoldable pub get_result : BlockingCall → ℤ → M (World K) (Option (Str × ℕ))
  get_result c pid = if is_hopeless c then give (some ([], 2 ^ 64 - 1)) else (do
    o ← lift (get_syscall_ret kernel pid)
    if_some o (give none) (λ retval. do
      o' ← lift (copy_from_tracee kernel pid (replicate (result_size c) 0) c.result)
      if_some o' (give none) (λ bytes. do
        o'' ← restore c pid
        if_some o'' (give none) (λ u. give (some (bytes, retval))))))

  -- `_on_success`: the child has been reaped.
  unfoldable pub on_success : ℤ → Ref → ℤ → M (World K) (Unit {0})
  on_success pid process chosen w = elim (w.tracees chosen) [
    | none ↦ (w, raised (bad_trace pid))
    | some child ↦
        if is_dead child.run
        then (tell process (reaped_child child.process) >> erase chosen) w
        else (w, raised (bad_trace pid))
  ]

  -- `_on_failure`, with the errno that the return value is the negative of.
  unfoldable pub on_failure : Ref → ℕ → M (World K) (Unit {0})
  on_failure process retval = tell process (failed_wait (neg_ℤ (to_int retval)))

  -- `Wait4Call::finalise` and `WaitIDCall::finalise`, from the result on.
  unfoldable pub conclude_wait4 : ℤ → Ref → Str → ℕ → M (World K) (Unit {0})
  conclude_wait4 pid process bytes retval =
      if is_pos (to_int retval) && (is_exited (word_of bytes) || is_signaled (word_of bytes))
      then on_success pid process (to_int retval)
      else if is_neg (to_int retval)
      then on_failure process retval
      else give tt

  unfoldable pub conclude_waitid : ℤ → Ref → Str → ℕ → M (World K) (Unit {0})
  conclude_waitid pid process info retval =
      if retval == 0 && not (int_at 16 info ==ℤ pos 0) && tells_end (int_at 8 info)
      then on_success pid process (int_at 16 info)
      else if is_neg (to_int retval)
      then on_failure process retval
      else give tt

  unfoldable pub finalise : BlockingCall → ℤ → Ref → M (World K) (Option (Unit {0}))
  finalise c pid process = do
    o ← get_result c pid
    if_some o (give none) (λ found. do
      (if c.is_waitid
          then conclude_waitid pid process found.0 found.1
          else conclude_wait4 pid process found.0 found.1)
      give (some tt))
