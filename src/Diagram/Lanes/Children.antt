-- ===== src/Diagram/Lanes/Children.antt =====
-- The allocation of a whole tree of processes.
use forktrace.Prelude.{
  ℕ, zero, suc, ◌+◌, ◌<◌, ◌≤◌, ◌≡◌, ◌≢◌, refl, Option, none, some, Option-cases, inl, inr, List, [],
  ◌∷◌, length, arith, Bool-cases, ◌==◌,
}
use forktrace.Event.{Ref}
use forktrace.Tree.{Heap}
use forktrace.Diagram.{DiagramPath}
use forktrace.Diagram.Lanes.{settle, Placed, forks, allocate_each, allocate}
use forktrace.Diagram.Lanes.Disjoint.{AllDisjoint, place-AllDisjoint, place_rests}

-- There is a lane, and no two paths of a lane share a line.
abbrev pub IsLaid : Placed → Type 0
IsLaid d = (0 < length d.lanes) × AllDisjoint d.lanes

allocate_each-IsLaid :
    (f : Placed → Ref → Option Placed)
    → ((d d' : Placed) (r : Ref) → f d r ≡ some d' → IsLaid d → IsLaid d')
    → (rs : List Ref) (d d' : Placed) → allocate_each f d rs ≡ some d'
    → IsLaid d
    → IsLaid d'
unfolding allocate_each
allocate_each-IsLaid f keeps [] d d' e laid = ground (arith, laid)
allocate_each-IsLaid f keeps (r ∷ rs) d d' e laid = elim (Option-cases (f d r)) [
  | inl failed ↦ ground (arith, failed)
  | inr (d₁, done) ↦
      allocate_each-IsLaid f keeps rs d₁ d' (ground (arith, done)) (keeps d d₁ r done laid)
]

settle-IsLaid : (d : Placed) (r : Ref) (p : DiagramPath) → IsLaid d → IsLaid (settle d r p)
settle-IsLaid d r p laid = (
  omega (arith, place_rests d.lanes p 0 laid.0 laid.0),
  place-AllDisjoint d.lanes p laid.0 laid.1,
)

-- Whatever the processes and their paths, an allocation that succeeds keeps the paths of each lane
-- apart.
pub allocate-IsLaid :
    (fuel : ℕ) (h : Heap) (d d' : Placed) (r : Ref)
    → allocate fuel h d r ≡ some d'
    → IsLaid d
    → IsLaid d'
unfolding allocate
allocate-IsLaid zero h d d' r e laid = cc
allocate-IsLaid (suc fuel) h d d' r e laid = elim (Option-cases (d.paths r)) [
  | inl missing ↦ ground (arith, missing)
  | inr (p, found) ↦
      allocate_each-IsLaid (allocate fuel h)
        (λ d₁ d₂ s e' laid'. allocate-IsLaid fuel h d₁ d₂ s e' laid') (forks (h r).history)
        (settle d r p) d' (rw (found, allocate) at e) (settle-IsLaid d r p laid)
]

-- The forks of every process lead to later addresses, below a bound.
abbrev pub All : (Ref → Type 0) → List Ref → Type 0
All P [] = Unit {0}
All P (r ∷ rs) = P r × All P rs

abbrev pub IsForest : Heap → ℕ → Type 0
IsForest h bound = (r : Ref) → All (λ c. (r < c) × (c < bound)) (forks (h r).history)

abbrev pub HasPaths : Placed → ℕ → Type 0
HasPaths d bound = (r : Ref) → r < bound → d.paths r ≢ none

-- The allocation runs to its end, with paths for all processes below the bound.
abbrev Completes : Option Placed → ℕ → Type 0
Completes o bound = (d : Placed) × (o ≡ some d) × HasPaths d bound

settle-HasPaths :
    (d : Placed) (r : Ref) (p : DiagramPath) (bound : ℕ)
    → HasPaths d bound
    → HasPaths (settle d r p) bound
settle-HasPaths d r p bound all q h e = elim (Bool-cases (r == q)) [
  | inl same ↦ cc (rw same at e)
  | inr other ↦ all q h (rw other at e)
]

allocate_each-Completes :
    (f : Placed → Ref → Option Placed) (P : Ref → Type 0) (bound : ℕ)
    → ((d : Placed) (r : Ref) → P r → HasPaths d bound → Completes (f d r) bound)
    → (rs : List Ref) (d : Placed) → All P rs
    → HasPaths d bound
    → Completes (allocate_each f d rs) bound
unfolding allocate_each
allocate_each-Completes f P bound total [] d all paths = (d, refl, paths)
allocate_each-Completes f P bound total (r ∷ rs) d all paths =
    let (d₁, done, paths₁) = total d r all.0 paths in
    rw (done, allocate_each) (allocate_each-Completes f P bound total rs d₁ all.1 paths₁)

allocate-Completes :
    (fuel : ℕ) (h : Heap) (bound : ℕ) (d : Placed) (r : Ref)
    → IsForest h bound
    → HasPaths d bound
    → r < bound
    → bound ≤ fuel + r
    → Completes (allocate fuel h d r) bound
unfolding allocate
allocate-Completes zero h bound d r forest paths inside enough = absurd (omega arith)
allocate-Completes (suc fuel) h bound d r forest paths inside enough =
    elim (Option-cases (d.paths r)) [
      | inl missing ↦ absurd (paths r inside missing)
      | inr (p, found) ↦
          rw (found, allocate)
            (allocate_each-Completes (allocate fuel h) (λ c. (r < c) × (c < bound)) bound
              (λ d₁ c later paths₁.
                allocate-Completes fuel h bound d₁ c forest paths₁ later.1 (omega (arith, later.0)))
              (forks (h r).history) (settle d r p) (forest r) (settle-HasPaths d r p bound paths))
    ]

-- Where every process below the bound has a path and forks lead to later addresses below it, the
-- allocation from any of these processes succeeds with the bound as its fuel, from lanes that keep
-- paths apart to such lanes.
pub allocate_succeeds :
    (h : Heap) (bound : ℕ) (d : Placed) (r : Ref)
    → IsForest h bound
    → HasPaths d bound
    → r < bound
    → IsLaid d
    → (d' : Placed) × (allocate bound h d r ≡ some d') × IsLaid d'
allocate_succeeds h bound d r forest paths inside laid =
    let (d', done, _) = allocate-Completes bound h bound d r forest paths inside (omega arith) in
    (d', done, allocate-IsLaid bound h d d' r done laid)
