-- ===== src/Command/Repeat.antt =====
-- Repeated commands, and names given in full.
use forktrace.Prelude.{◌≡◌, ◌≢◌, refl, Bool-cases, inl, inr, some, Option-cases, List, [], ◌∷◌, Str}
use forktrace.Command.{tokenise}
use forktrace.Command.Table.{Group, Parser, perform, do_command, find_command}

perform-repeated :
    {S : Type 0} (groups : List (Group S)) (line : Str) (ts : List Str) (s : S)
    → (perform groups line ts s).repeated ≢ []
    → (perform groups line ts s).repeated ≡ line
unfolding perform
perform-repeated groups line [] s h = absurd (h refl)
perform-repeated groups line (name ∷ args) s h = elim (Option-cases (find_command groups name)) [
  | inl e ↦ absurd (h (rw (e, perform) refl))
  | inr (c, e) ↦ elim (Bool-cases c.auto_repeat) [
    | inl t ↦ rw (e, perform, t) refl
    | inr f ↦ absurd (h (rw (e, perform, f) refl))
  ]
]

-- Where a line leaves a command to repeat, an empty line next does what the same line would do
-- again: it runs the command with the same arguments, and leaves it to be repeated once more.
pub do_command-repeats :
    {S : Type 0} (groups : List (Group S)) (line : Str) (p : Parser S)
    → line ≢ []
    → (do_command groups (some line) p).1.repeated ≢ []
    → do_command groups (some []) (do_command groups (some line) p).1
      ≡ do_command groups (some line) (do_command groups (some line) p).1
unfolding do_command
do_command-repeats groups [] p nonempty h = absurd (nonempty refl)
do_command-repeats groups (c ∷ s) p nonempty h =
    rw (perform-repeated groups (c ∷ s) (tokenise (c ∷ s)) p.state h) refl
