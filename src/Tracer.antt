-- ===== src/Tracer.antt =====
-- The tracer: what it keeps of every tracee, and the maps that it changes (src/tracer/tracer.hpp,
-- src/tracer/tracer.cpp). The process tree is the heap of Tree.antt; the kernel is a parameter.
pub mod Stops
pub mod WaitCall
pub mod Handlers
pub mod Entry
pub mod Loop
pub mod Recycle
pub mod Awake
pub mod Sound
use forktrace.Prelude.{
  ℕ, ◌+◌, ℤ, negsuc, ◌==ℤ◌, Bool, true, false, not, if◌then◌else◌, Option, none, some, List, [],
  ◌∷◌, ◌++◌, Str,
}
use forktrace.Event.{Ref}
use forktrace.Process.{Fault}
use forktrace.Tree.{Heap, Notice, notify}
use forktrace.Action.{Outcome, done, raised, tree_error, dangling, M}

pub data RunState : Type 0 where
  running stopped dead : RunState

abbrev pub is_running : RunState → Bool
is_running running = true
is_running _ = false

abbrev pub is_stopped_run : RunState → Bool
is_stopped_run stopped = true
is_stopped_run _ = false

abbrev pub is_dead : RunState → Bool
is_dead dead = true
is_dead _ = false

-- `Wait4Call` and `WaitIDCall`: `result` is an address in the tracee, 0 for null; `old_data` is what
-- stood there.
pub record BlockingCall : Type 0 where
  pub is_waitid : Bool
  pub waited_id : ℤ
  pub nohang : Bool
  pub result : ℕ
  pub old_data : Option Str

pub record Tracee : Type 0 where
  pub pid : ℤ
  pub run : RunState
  pub syscall : ℤ
  pub signal : ℕ
  pub call : Option BlockingCall
  pub process : Ref

-- SYSCALL_NONE.
abbrev pub syscall_none : ℤ
syscall_none = negsuc 0

-- The constructor: a tracee begins stopped.
abbrev pub new_tracee : ℤ → Ref → Tracee
new_tracee pid process = record {
  pid = pid;
  run = stopped;
  syscall = syscall_none;
  signal = 0;
  call = none;
  process = process;
}

-- The `Tracer`, with the process tree and the kernel that it works on. The map of tracees is a
-- function, with its keys in some order of iteration; `leaders` tells for each whether it has execed;
-- `fresh` is the address of the next object.
pub record World (K : Type 0) : Type 0 where
  pub system : K
  pub tracees : ℤ → Option Tracee
  pub pids : List ℤ
  pub orphans : List ℤ
  pub leaders : List (ℤ × Bool)
  pub recycled : List ℤ
  pub heap : Heap
  pub fresh : Ref

abbrev pub put : (ℤ → Option Tracee) → ℤ → Option Tracee → ℤ → Option Tracee
put m pid t q = if pid ==ℤ q then t else m q

abbrev pub without : ℤ → List ℤ → List ℤ
without pid [] = []
without pid (q ∷ qs) = if pid ==ℤ q then without pid qs else q ∷ without pid qs

abbrev pub is_leader : ℤ → List (ℤ × Bool) → Bool
is_leader pid [] = false
is_leader pid ((q, execed) ∷ qs) = if pid ==ℤ q then true else is_leader pid qs

abbrev pub has_execed : ℤ → List (ℤ × Bool) → Bool
has_execed pid [] = false
has_execed pid ((q, execed) ∷ qs) = if pid ==ℤ q then execed else has_execed pid qs

abbrev pub set_execed : ℤ → Bool → List (ℤ × Bool) → List (ℤ × Bool)
set_execed pid b [] = []
set_execed pid b ((q, execed) ∷ qs) =
    if pid ==ℤ q then (q, b) ∷ qs else (q, execed) ∷ set_execed pid b qs

-- `_leaders[pid] = Leader()`.
abbrev pub add_leader : ℤ → List (ℤ × Bool) → List (ℤ × Bool)
add_leader pid ls = if is_leader pid ls then set_execed pid false ls else (pid, false) ∷ ls

abbrev pub outcome_of : Option Fault → Outcome (Unit {0})
outcome_of none = done tt
outcome_of (some f) = raised (tree_error f)

-- A reference to a tracee; `dangling` where the tracee has been erased.
abbrev pub or_dangling : Option Tracee → Outcome Tracee
or_dangling none = raised dangling
or_dangling (some t) = done t

module _ {K : Type 0} where
  -- A call of the kernel.
  abbrev pub lift : {A : Type 0} → M K A → M (World K) A
  lift m w = (record w { system = (m w.system).0 }, (m w.system).1)

  -- A method of the process tree, which may throw.
  abbrev pub tell : Ref → Notice → M (World K) (Unit {0})
  tell r n w = (record w { heap = (notify w.heap r n).0 }, outcome_of (notify w.heap r n).1)

  abbrev pub tracee : ℤ → M (World K) Tracee
  tracee pid w = (w, or_dangling (w.tracees pid))

  abbrev pub set_tracee : ℤ → Tracee → World K → World K
  set_tracee pid t w = record w { tracees = put w.tracees pid (some t) }

  abbrev pub modify : ℤ → (Tracee → Tracee) → M (World K) (Unit {0})
  modify pid f w = elim (w.tracees pid) [
    | none ↦ (w, raised dangling)
    | some t ↦ (set_tracee pid (f t) w, done tt)
  ]

  -- `_tracees.erase(pid)`.
  abbrev pub erase : ℤ → M (World K) (Unit {0})
  erase pid w = (record w { tracees = put w.tracees pid none; pids = without pid w.pids }, done tt)

  -- `_add_tracee`: an older tracee with that pid gives way.
  unfoldable pub add_tracee : ℤ → Ref → M (World K) (Unit {0})
  add_tracee pid process w = (
    record w {
      tracees = put w.tracees pid (some (new_tracee pid process));
      pids = pid ∷ without pid w.pids;
      recycled = elim (w.tracees pid) [ none ↦ w.recycled | some t ↦ w.recycled ++ pid ∷ [] ];
    },
    done tt,
  )

  -- `make_shared<Process>(...)`: a new object.
  abbrev pub new_object : Notice → M (World K) Ref
  new_object n w =
      (record w { heap = (notify w.heap w.fresh n).0; fresh = w.fresh + 1 }, done w.fresh)
