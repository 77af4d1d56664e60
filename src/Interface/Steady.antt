-- ===== src/Interface/Steady.antt =====
-- The command loop keeps the tracees and the process tree in line, whatever is typed.
use forktrace.Prelude.{
  ◌≡◌, ◌⊎◌, inl, inr, Bool, true, false, not, ◌&&◌, Bool-cases, if◌then◌else◌, Option, none, some,
  List, [], ◌∷◌, ◌++◌, Str, arith,
}
use forktrace.Action.{Error, Outcome, done, raised, M}
use forktrace.Settings.{Settings, Switches}
use forktrace.Command.{tokenise}
use forktrace.Util.{is_empty}
use forktrace.Command.Table.{
  Command, Group, Parser, without_args, with_one_arg, find_command, perform, do_command,
}
use forktrace.Tracer.Sound.{IsInTurn, IsSound, is_of_tree}
use forktrace.Interface.Commands.{Forktrace}
use forktrace.Interface.Sound.{Left, Holds}
use forktrace.Interface.Console.{
  Console, settle, run_action, set_opts, set_switches, or_throw, plain, unary,
}
use forktrace.Interface.Registered.{AllGroups, AnyFound, find_command-AnyFound}

abbrev pub no_tree_error : List Error → Bool
no_tree_error [] = true
no_tree_error (e ∷ es) = not (is_of_tree e) && no_tree_error es

-- The first error of the process tree is not that it was told of an event out of turn.
abbrev pub FirstInTurn : List Error → Type 0
FirstInTurn [] = ⊥
FirstInTurn (e ∷ es) = elim (is_of_tree e) [ true ↦ IsInTurn e | false ↦ FirstInTurn es ]

no_tree_error-append :
    (es : List Error) (e : Error)
    → no_tree_error es ≡ true
    → is_of_tree e ≡ false
    → no_tree_error (es ++ e ∷ []) ≡ true
no_tree_error-append [] e h k = ground (arith, k)
no_tree_error-append (d ∷ es) e h k = elim (Bool-cases (is_of_tree d)) [
  | inl y ↦ absurd (ground (arith, h, y))
  | inr n ↦ ground (arith, n, no_tree_error-append es e (ground (arith, h, n)) k)
]

-- The two cases of `FirstInTurn`.
of_tree :
    (b : Bool) (X Y : Type 0) → b ≡ true → X → elim b as (λ x. Type 0) [ true ↦ X | false ↦ Y ]
of_tree true X Y e x = x
of_tree false X Y e x = absurd (ground (arith, e))

not_of_tree :
    (b : Bool) (X Y : Type 0) → b ≡ false → Y → elim b as (λ x. Type 0) [ true ↦ X | false ↦ Y ]
not_of_tree true X Y e y = absurd (ground (arith, e))
not_of_tree false X Y e y = y

first_error :
    (es : List Error) (e : Error)
    → no_tree_error es ≡ true
    → is_of_tree e ≡ true
    → IsInTurn e
    → FirstInTurn (es ++ e ∷ [])
first_error [] e h k t = of_tree (is_of_tree e) (IsInTurn e) ⊥ k t
first_error (d ∷ es) e h k t = elim (Bool-cases (is_of_tree d)) [
  | inl y ↦ absurd (ground (arith, h, y))
  | inr n ↦
      not_of_tree (is_of_tree d) (IsInTurn d) (FirstInTurn (es ++ e ∷ [])) n
        (first_error es e (ground (arith, h, n)) k t)
]

later_error : (es : List Error) (e : Error) → FirstInTurn es → FirstInTurn (es ++ e ∷ [])
later_error [] e f = elim f [ ]
later_error (d ∷ es) e f = behind (is_of_tree d) (later_error es e) f
  where
    behind :
        (b : Bool)
        → (FirstInTurn es → FirstInTurn (es ++ e ∷ []))
        → elim b as (λ x. Type 0) [ true ↦ IsInTurn d | false ↦ FirstInTurn es ]
        → elim b as (λ x. Type 0) [ true ↦ IsInTurn d | false ↦ FirstInTurn (es ++ e ∷ []) ]
    behind true ih x = x
    behind false ih x = ih x

module _ {K : Type 0} where
  -- While the process tree has thrown nothing, the world is sound; and what it throws first is not
  -- that it was told of an event out of turn.
  abbrev pub Steady : Console K → Type 0
  Steady c = ((no_tree_error c.errors ≡ true) × IsSound c.ft.world) ⊎ FirstInTurn c.errors

  pub settle-Steady :
      (c : Console K) (x : Forktrace K × Outcome (Unit {0}))
      → no_tree_error c.errors ≡ true
      → Left x
      → Steady (settle c x)
  settle-Steady c (f, done u) n l = inl (n, l)
  settle-Steady c (f, raised e) n l = elim (Bool-cases (is_of_tree e)) [
    | inl tree ↦ inr (first_error c.errors e n tree l.0)
    | inr other ↦ inl (no_tree_error-append c.errors e n other, l.1 other)
  ]

  pub settle-FirstInTurn :
      (c : Console K) (x : Forktrace K × Outcome (Unit {0}))
      → FirstInTurn c.errors
      → FirstInTurn (settle c x).errors
  settle-FirstInTurn c (f, done u) i = i
  settle-FirstInTurn c (f, raised e) i = later_error c.errors e i

  pub run_action-Steady :
      (m : M (Forktrace K) (Unit {0})) (c : Console K)
      → Holds m
      → Steady c
      → Steady (run_action m c)
  run_action-Steady m c h (inl (n, s)) = settle-Steady c (m c.ft) n (h.from c.ft s)
  run_action-Steady m c h (inr i) = inr (settle-FirstInTurn c (m c.ft) i)

  -- A command whose action keeps a console steady.
  pub record KeepsSteady (cmd : Command (Console K)) : Type 0 where
    pub keeps : (args : List Str) (c : Console K) → Steady c → Steady (cmd.action args c)

  pub set_opts-Holds : (g : Settings → Settings) → Holds {K = K} (set_opts g)
  set_opts-Holds g = record { from = λ f s. s }

  pub set_switches-Holds : (g : Switches → Switches) → Holds {K = K} (set_switches g)
  set_switches-Holds g = record { from = λ f s. s }

  pub or_throw-Holds :
      {A : Type 0} (o : Option A) (act : A → M (Forktrace K) (Unit {0}))
      → ((a : A) → Holds (act a))
      → Holds (or_throw o act)
  or_throw-Holds none act h = record { from = λ f s. (tt, λ other. s) }
  or_throw-Holds (some a) act h = h a

  pub plain-Steady :
      (m : M (Forktrace K) (Unit {0})) (args : List Str) (c : Console K)
      → Holds m
      → Steady c
      → Steady (plain m args c)
  unfolding without_args
  plain-Steady m [] c h s = run_action-Steady m c h s
  plain-Steady m (a ∷ args) c h s = s

  pub unary-Steady :
      (m : Str → M (Forktrace K) (Unit {0})) (args : List Str) (c : Console K)
      → ((a : Str) → Holds (m a))
      → Steady c
      → Steady (unary m args c)
  unfolding with_one_arg
  unary-Steady m [] c h s = s
  unary-Steady m (a ∷ []) c h s = run_action-Steady (m a) c (h a) s
  unary-Steady m (a ∷ b ∷ args) c h s = s

  perform-Steady :
      (groups : List (Group (Console K))) (line : Str) (tokens : List Str) (c : Console K)
      → AllGroups KeepsSteady groups
      → Steady c
      → Steady (perform groups line tokens c).state
  unfolding perform
  perform-Steady groups line [] c all s = s
  perform-Steady groups line (name ∷ args) c all s =
      found (find_command groups name) (find_command-AnyFound KeepsSteady groups name all)
    where
      found :
          (o : Option (Command (Console K)))
          → AnyFound KeepsSteady o
          → Steady
              (elim o as (λ x. Parser (Console K)) [
                | none ↦ record { repeated = []; state = c }
                | some k ↦ record {
                  repeated = if k.auto_repeat then line else [];
                  state = k.action args c;
                }
              ]).state
      found none k = s
      found (some cmd) k = k.keeps args c s

  pub do_command-Steady :
      (groups : List (Group (Console K))) (line : Option Str) (p : Parser (Console K))
      → AllGroups KeepsSteady groups
      → Steady p.state
      → Steady (do_command groups line p).1.state
  unfolding do_command
  do_command-Steady groups none p all s = s
  do_command-Steady groups (some []) p all s = choose (is_empty p.repeated)
    where
      choose :
          (b : Bool)
          → Steady
              (if◌then◌else◌ {A = Bool × Parser (Console K)} b
                (true, p)
                (true, perform groups p.repeated (tokenise p.repeated) p.state)).1.state
      choose true = s
      choose false = perform-Steady groups p.repeated (tokenise p.repeated) p.state all s
  do_command-Steady groups (some (c ∷ l)) p all s =
      perform-Steady groups (c ∷ l) (tokenise (c ∷ l)) p.state all s
