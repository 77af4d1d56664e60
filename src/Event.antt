-- ===== src/Event.antt =====
-- The events of a process's history (src/tracer/event.hpp). A subclass of `Event` is a constructor
-- of `Kind`; a reference to a `Process` is a number, its address in the heap of Process.antt.
use forktrace.Prelude.{ℕ, ℤ, pos, ◌==ℤ◌, Bool, true, false, Option, List, [], ◌∷◌, Str}

abbrev pub Ref : Type 0
Ref = ℕ

pub record SourceLocation : Type 0 where
  pub file : Str
  pub func : Str
  pub line : ℕ

pub record WaitEvent : Type 0 where
  pub waited_id : ℤ
  pub error : ℤ
  pub nohang : Bool

pub record KillInfo : Type 0 where
  pub source : Ref
  pub dest : Ref
  pub signal : ℤ
  pub to_thread : Bool

pub record SignalEvent : Type 0 where
  pub origin : ℤ
  pub signal : ℤ
  pub killed : Bool

pub record ExecCall : Type 0 where
  pub file : Str
  pub errcode : ℤ

-- The vector `calls` is built with one element and only grows: `call` is its last element, and
-- `earlier` the ones before it, the latest first.
pub record ExecEvent : Type 0 where
  pub call : ExecCall
  pub earlier : List ExecCall
  pub args : List Str

pub data Kind : Type 0 where
  fork_event : Ref → Kind
  wait_event : WaitEvent → Kind
  reap_event : Ref → WaitEvent → Kind
  raise_event : ℤ → ℤ → Bool → Kind
  kill_event : KillInfo → Bool → Kind
  signal_event : SignalEvent → Kind
  exit_event : ℤ → Kind
  exec_event : ExecEvent → Kind

pub record Event : Type 0 where
  pub kind : Kind
  pub location : Option SourceLocation

-- `ExecEvent::succeeded`.
abbrev pub succeeded : ExecEvent → Bool
succeeded e = e.call.errcode ==ℤ pos 0

-- The constructor of `ExecEvent`.
abbrev pub new_exec : Str → List Str → ℤ → ExecEvent
new_exec path args err = record {
  call = record { file = path; errcode = err };
  earlier = [];
  args = args;
}

-- `calls.emplace_back(file, err)`.
abbrev pub add_call : ExecEvent → Str → ℤ → ExecEvent
add_call e path err = record e {
  call = record { file = path; errcode = err };
  earlier = e.call ∷ e.earlier;
}

-- `dynamic_cast<const LinkEvent*>`: the events that connect two paths of the diagram.
abbrev pub is_link : Kind → Bool
is_link (fork_event c) = true
is_link (reap_event c w) = true
is_link (kill_event i s) = true
is_link _ = false

-- `KillEvent::linked_path`.
abbrev pub kill_partner : KillInfo → Bool → Ref
kill_partner i true = i.dest
kill_partner i false = i.source
