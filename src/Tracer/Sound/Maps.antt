-- ===== src/Tracer/Sound/Maps.antt =====
-- Changes of the map of tracees and of the heap that keep both linked.
use forktrace.Prelude.{
  ◌+◌, ◌≡◌, sym, ◌∙◌, ap, ℤ, ◌==ℤ◌, ==ℤ_iff, ◌==◌, false, Bool-cases, inl, inr, Option, none, some,
  arith,
}
use forktrace.Event.{Ref}
use forktrace.Process.{Process}
use forktrace.Tree.{Heap, update}
use forktrace.Tracer.{Tracee, put}
use forktrace.Tracer.Sound.{Link, AllLinked}

pub put-AllLinked :
    (m : ℤ → Option Tracee) (h : Heap) (n : Ref) (pid : ℤ) (t : Tracee)
    → AllLinked m h n
    → Link h n pid t
    → AllLinked (put m pid (some t)) h n
put-AllLinked m h n pid t all link q u e = elim (Bool-cases (pid ==ℤ q)) [
  | inl same ↦
      let pid' : pid ≡ q = (==ℤ_iff pid q).0 same in
      let t' : t ≡ u = ground (arith, same, e) in rw (← pid', ← t') link
  | inr other ↦ all q u (rw other at e)
]

pub erase-AllLinked :
    (m : ℤ → Option Tracee) (h : Heap) (n : Ref) (pid : ℤ)
    → AllLinked m h n
    → AllLinked (put m pid none) h n
erase-AllLinked m h n pid all q u e = elim (Bool-cases (pid ==ℤ q)) [
  | inl same ↦ absurd (ground (arith, same, e))
  | inr other ↦ all q u (rw other at e)
]

-- A change of the heap that leaves every process its pid and its state.
abbrev pub IsSame : Process → Process → Type 0
IsSame p q = (q.pid ≡ p.pid) × (q.state ≡ p.state)

abbrev pub AllSame : Heap → Heap → Type 0
AllSame h h' = (r : Ref) → IsSame (h r) (h' r)

pub same-AllLinked :
    (m : ℤ → Option Tracee) (h h' : Heap) (n : Ref)
    → AllLinked m h n
    → AllSame h h'
    → AllLinked m h' n
same-AllLinked m h h' n all same pid t e =
    let (below, pid', agrees) = all pid t e in
    (below, (same t.process).0 ∙ pid', rw ((same t.process).1) agrees)

-- A change of the process `r`, which only the tracee `pid` has.
pub change-AllLinked :
    (m : ℤ → Option Tracee) (h : Heap) (n r : Ref) (p : Process) (pid : ℤ) (t : Option Tracee)
    → AllLinked m h n
    → (h r).pid ≡ pid
    → p.pid ≡ pid
    → ((u : Tracee) → t ≡ some u → Link (update h r p) n pid u)
    → AllLinked (put m pid t) (update h r p) n
change-AllLinked m h n r p pid t all was is mine q u e = elim (Bool-cases (pid ==ℤ q)) [
  | inl same ↦ let pid' : pid ≡ q = (==ℤ_iff pid q).0 same in rw (← pid') (mine u (rw same at e))
  | inr other ↦
      let (below, pid', agrees) = all q u (rw other at e) in
      elim (Bool-cases (r == u.process)) [
        | inl hit ↦
            let r' : r ≡ u.process = ground (arith, hit) in
            absurd (ground (arith, other, ==ℤ_iff pid q, sym was ∙ ap (λ s. (h s).pid) r' ∙ pid'))
        | inr miss ↦ (below, rw miss pid', rw miss agrees)
      ]
]

-- A new object at the next address.
pub new-AllLinked :
    (m : ℤ → Option Tracee) (h : Heap) (n : Ref) (p : Process)
    → AllLinked m h n
    → AllLinked m (update h n p) (n + 1)
new-AllLinked m h n p all pid t e =
    let (below, pid', agrees) = all pid t e in
    let other : (n == t.process) ≡ false = ground (arith, below) in
    (omega (arith, below), rw other pid', rw other agrees)
