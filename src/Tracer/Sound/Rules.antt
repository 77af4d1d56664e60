-- ===== src/Tracer/Sound/Rules.antt =====
-- The rules for the parts that the handlers are made of.
use forktrace.Prelude.{
  ◌≡◌, refl, sym, subst, ap, ℤ, Bool, true, false, if◌then◌else◌, Option, none, some,
}
use forktrace.Event.{Ref}
use forktrace.Process.{Fault, State, alive}
use forktrace.Tree.{Heap, Notice, notify}
use forktrace.Action.{Error, Outcome, done, raised, M, give, throw, if_some}
use forktrace.Tracer.{RunState, running, stopped, dead, is_dead, Tracee, World, outcome_of, tell}
use forktrace.Tracer.Sound.{Agrees, IsInTurn, IsSound, LiveAs, Live, Post, Triple}

-- A tracee that is not dead has a living process.
pub Agrees-alive : (r : RunState) (s : State) → is_dead r ≡ false → Agrees r s → s ≡ alive
Agrees-alive running s h a = a
Agrees-alive stopped s h a = a
Agrees-alive dead s h a = cc

pub alive-Agrees : (r : RunState) (s : State) → is_dead r ≡ false → s ≡ alive → Agrees r s
alive-Agrees running s h a = a
alive-Agrees stopped s h a = a
alive-Agrees dead s h a = cc

module _ {K : Type 0} where
  pub Live-alive :
      (pid : ℤ) (t : Tracee) (w : World K) → LiveAs pid t w → (w.heap t.process).state ≡ alive
  Live-alive pid t w (sound, here, living) =
      Agrees-alive t.run (w.heap t.process).state living (sound.1 pid t here).2

  pub Post-by :
      {A : Type 0} (Q : A → World K → Type 0) {x y : World K × Outcome A}
      → x ≡ y
      → Post Q y
      → Post Q x
  Post-by Q e p = subst (Post Q) (sym e) p

  pub Post-if :
      {A : Type 0} (Q : A → World K → Type 0) (b : Bool) (x y : World K × Outcome A)
      → (b ≡ true → Post Q x)
      → (b ≡ false → Post Q y)
      → Post Q (if b then x else y)
  Post-if Q true x y p q = p refl
  Post-if Q false x y p q = q refl

  pub Triple-if :
      {A : Type 0} {P : World K → Type 0} {Q : A → World K → Type 0} {m n : M (World K) A}
      (b : Bool)
      → (b ≡ true → Triple P m Q)
      → (b ≡ false → Triple P n Q)
      → Triple P (if b then m else n) Q
  Triple-if true t u = t refl
  Triple-if false t u = u refl

  pub Post-option :
      {A B : Type 0} (Q : B → World K → Type 0) (o : Option A) (x : World K × Outcome B)
      (f : A → World K × Outcome B)
      → (o ≡ none → Post Q x)
      → ((a : A) → o ≡ some a → Post Q (f a))
      → Post Q (elim o as (λ q. World K × Outcome B) [ none ↦ x | some a ↦ f a ])
  Post-option Q none x f p q = p refl
  Post-option Q (some a) x f p q = q a refl

  pub tell-is :
      (r : Ref) (n : Notice) (w : World K) (o : Heap × Option Fault)
      → notify w.heap r n ≡ o
      → tell r n w ≡ (record w { heap = o.0 }, outcome_of o.1)
  tell-is r n w o e = ap (λ o'. (record w { heap = o'.0 }, outcome_of o'.1)) e

  pub Triple-some :
      {A B : Type 0} {P : World K → Type 0} {R : B → World K → Type 0} {m : M (World K) B}
      {f : A → M (World K) B} (o : Option A)
      → Triple P m R
      → ((a : A) → Triple P (f a) R)
      → Triple P (if_some o m f) R
  Triple-some none t u = t
  Triple-some (some a) t u = u a

  pub Triple-give :
      {A : Type 0} {P : World K → Type 0} {Q : A → World K → Type 0} {a : A}
      → ((w : World K) → P w → Q a w)
      → Triple P (give a) Q
  Triple-give h = record { from = h }

  pub Triple-throw :
      {A : Type 0} {P : World K → Type 0} {Q : A → World K → Type 0} {e : Error}
      → IsInTurn e
      → ((w : World K) → P w → IsSound w)
      → Triple P (throw e) Q
  Triple-throw turn h = record { from = λ w p. (turn, λ q. h w p) }

  pub Triple-from :
      {A : Type 0} {P P' : World K → Type 0} {Q : A → World K → Type 0} {m : M (World K) A}
      → ((w : World K) → P' w → P w)
      → Triple P m Q
      → Triple P' m Q
  Triple-from h t = record { from = λ w p. t.from w (h w p) }

  Post-to :
      {A : Type 0} (Q R : A → World K → Type 0) (x : World K × Outcome A)
      → ((a : A) (w : World K) → Q a w → R a w)
      → Post Q x
      → Post R x
  Post-to Q R (w, done a) h q = h a w q
  Post-to Q R (w, raised e) h q = q

  pub Triple-to :
      {A : Type 0} {P : World K → Type 0} (Q : A → World K → Type 0) {R : A → World K → Type 0}
      {m : M (World K) A}
      → ((a : A) (w : World K) → Q a w → R a w)
      → Triple P m Q
      → Triple P m R
  Triple-to Q {R = R} {m = m} h t = record { from = λ w p. Post-to Q R (m w) h (t.from w p) }

  pub LiveAs-IsSound : (pid : ℤ) (t : Tracee) (w : World K) → LiveAs pid t w → IsSound w
  LiveAs-IsSound pid t w l = l.0

  pub Live-IsSound : (pid : ℤ) (w : World K) → Live pid w → IsSound w
  Live-IsSound pid w l = l.1.0

  pub LiveAs-Live : (pid : ℤ) (t : Tracee) (w : World K) → LiveAs pid t w → Live pid w
  LiveAs-Live pid t w l = (t, l)
