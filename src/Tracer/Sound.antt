-- ===== src/Tracer/Sound.antt =====
-- The tracer and the process tree agree: what every step of the tracer keeps, whatever the kernel does.
pub mod Maps
pub mod Notices
pub mod Rules
pub mod Live
pub mod Changes
pub mod Reaped
pub mod Births
pub mod Plain
pub mod Stops
pub mod Requests
pub mod Waits
pub mod Handlers
pub mod Entry
pub mod Loop
pub mod Calls
use forktrace.Prelude.{ℕ, ◌<◌, ◌≡◌, refl, ℤ, Bool, true, false, Option, none, some}
use forktrace.Event.{Ref}
use forktrace.Process.{State, alive, zombie, Fault, not_alive, not_zombie}
use forktrace.Tree.{Heap}
use forktrace.Tree.Coherence.{AllCoherent}
use forktrace.Action.{Error, tree_error, Outcome, done, raised, M, after, ◌>>=◌, ◌>>◌}
use forktrace.Tracer.{RunState, running, stopped, dead, is_dead, Tracee, World, lift}

-- A tracee is dead exactly while its process is a zombie, and alive otherwise.
abbrev pub Agrees : RunState → State → Type 0
Agrees dead s = s ≡ zombie
Agrees running s = s ≡ alive
Agrees stopped s = s ≡ alive

-- The tracee's process is an object of the tree, has the tracee's pid, and agrees with it.
abbrev pub Link : Heap → Ref → ℤ → Tracee → Type 0
Link h fresh pid t =
    (t.process < fresh) × ((h t.process).pid ≡ pid) × Agrees t.run (h t.process).state

abbrev pub AllLinked : (ℤ → Option Tracee) → Heap → Ref → Type 0
AllLinked m h fresh = (pid : ℤ) (t : Tracee) → m pid ≡ some t → Link h fresh pid t

-- A fault of the process tree that would mean that the tracer told it of an event out of turn: to a
-- process that is not alive, or of the end of one that is no zombie.
abbrev pub IsInTurn : Error → Type 0
IsInTurn (tree_error not_alive) = ⊥
IsInTurn (tree_error not_zombie) = ⊥
IsInTurn _ = Unit {0}

abbrev pub is_of_tree : Error → Bool
is_of_tree (tree_error f) = true
is_of_tree _ = false

-- A thrown error is not one of the process tree.
abbrev pub IsPlain : {A : Type 0} → Outcome A → Type 0
IsPlain (done a) = Unit {0}
IsPlain (raised e) = IsInTurn e

module _ {K : Type 0} where
  abbrev pub IsSound : World K → Type 0
  IsSound w = AllCoherent w.heap × AllLinked w.tracees w.heap w.fresh

  abbrev pub LiveAs : ℤ → Tracee → World K → Type 0
  LiveAs pid t w = IsSound w × (w.tracees pid ≡ some t) × (is_dead t.run ≡ false)

  -- A tracee with the pid that is not dead.
  abbrev pub Live : ℤ → World K → Type 0
  Live pid w = (t : Tracee) × LiveAs pid t w

  -- What a run leaves: `Q` where it returns; where it throws, an error in turn, and a sound world
  -- unless the process tree is what threw it.
  abbrev pub Post : {A : Type 0} → (A → World K → Type 0) → World K × Outcome A → Type 0
  Post Q (w, done a) = Q a w
  Post Q (w, raised e) = IsInTurn e × (is_of_tree e ≡ false → IsSound w)

  -- From a world with `P`, the run leaves `Q`.
  pub record Triple {A : Type 0} (P : World K → Type 0) (m : M (World K) A)
      (Q : A → World K → Type 0) : Type 0 where
    pub from : (w : World K) → P w → Post Q (m w)

  -- A run that keeps the world sound.
  abbrev pub Keeps : (World K → Type 0) → M (World K) (Unit {0}) → Type 0
  Keeps P m = Triple P m (λ u. IsSound)

  pub Post-after :
      {A B : Type 0} (Q : A → World K → Type 0) (R : B → World K → Type 0) (x : World K × Outcome A)
      (f : A → M (World K) B)
      → Post Q x
      → ((a : A) → Triple (Q a) (f a) R)
      → Post R (after x f)
  Post-after Q R (w, done a) f q next = (next a).from w q
  Post-after Q R (w, raised e) f q next = q

  pub Triple-then :
      {A B : Type 0} {P : World K → Type 0} (Q : A → World K → Type 0) {R : B → World K → Type 0}
      {m : M (World K) A} {f : A → M (World K) B}
      → Triple P m Q
      → ((a : A) → Triple (Q a) (f a) R)
      → Triple P (m >>= f) R
  Triple-then Q {R = R} {m = m} {f = f} t next = record {
    from = λ w p. Post-after Q R (m w) f (t.from w p) next;
  }

  pub Post-plain :
      {A : Type 0} (Q : A → World K → Type 0) (w : World K) (o : Outcome A)
      → IsPlain o
      → IsSound w
      → ((a : A) → Q a w)
      → Post Q (w, o)
  Post-plain Q w (done a) plain sound q = q a
  Post-plain Q w (raised e) plain sound q = (plain, λ other. sound)
