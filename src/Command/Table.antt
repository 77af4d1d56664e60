-- ===== src/Command/Table.antt =====
-- The table of commands, and a round of the command loop (`CommandParser`).
use forktrace.Prelude.{
  Bool, true, false, ◌||◌, ◌&&◌, ◌==◌, ltb, if◌then◌else◌, Option, none, some, List, [], ◌∷◌, ◌++◌,
  Str, str_eq, length,
}
use forktrace.Util.Chars.{is_alnum}
use forktrace.Util.{is_empty}
use forktrace.Command.{tokenise}

-- `starts_with` of src/tracer/util.cpp; `strncmp` ends at a NUL that both have.
unfoldable pub begins : Str → Str → Bool
begins s [] = true
begins [] (p ∷ prefix) = false
begins (c ∷ s) (p ∷ prefix) =
    let rest = begins s prefix in if c == p then (if c == 0 then true else rest) else false

unfoldable pub starts_with : Str → Str → Bool
unfolding begins
starts_with s prefix =
    if ltb (length s) (length prefix) || is_empty prefix then false else begins s prefix

-- `is_valid_name`: no character but letters, digits, '_' and '-'.
unfoldable pub is_valid_name : Str → Bool
is_valid_name [] = true
is_valid_name (c ∷ s) = (is_alnum c || c == b'_' || c == b'-') && is_valid_name s

-- `Command`: an action changes a state of the caller's; what it throws is caught and printed.
pub record Command (S : Type 0) : Type 0 where
  pub name : Str
  pub params : Str
  pub help : Str
  pub action : List Str → S → S
  pub auto_repeat : Bool

pub record Group (S : Type 0) : Type 0 where
  pub group_name : Str
  pub commands : List (Command S)

-- The wrappers of `add` for actions without an argument and with a single one.
unfoldable pub without_args : {S : Type 0} → (S → S) → List Str → S → S
without_args act [] s = act s
without_args act (a ∷ args) s = s

unfoldable pub with_one_arg : {S : Type 0} → (Str → S → S) → List Str → S → S
with_one_arg act [] s = s
with_one_arg act (a ∷ []) s = act a s
with_one_arg act (a ∷ b ∷ args) s = s

-- `string::compare`, as `a.compare(b) < 0`.
unfoldable pub is_before : Str → Str → Bool
is_before s [] = false
is_before [] (d ∷ t) = true
is_before (c ∷ s) (d ∷ t) = let rest = is_before s t in if c == d then rest else ltb c d

-- `std::sort` by name.
unfoldable pub insert : {S : Type 0} → Command S → List (Command S) → List (Command S)
insert c [] = c ∷ []
insert c (d ∷ cs) =
    let rest = insert c cs in if is_before d.name c.name then d ∷ rest else c ∷ d ∷ cs

unfoldable pub sort : {S : Type 0} → List (Command S) → List (Command S)
unfolding insert
sort [] = []
sort (c ∷ cs) = insert c (sort cs)

-- `start_new_group`.
unfoldable pub start_new_group : {S : Type 0} → List (Group S) → Str → List (Group S)
start_new_group groups name = groups ++ record { group_name = name; commands = [] } ∷ []

-- `add`, to the last group; `none` is a failed assertion.
unfoldable pub add_last : {S : Type 0} → List (Group S) → Command S → Option (List (Group S))
add_last [] c = none
add_last (g ∷ []) c =
    some (record { group_name = g.group_name; commands = sort (g.commands ++ c ∷ []) } ∷ [])
add_last (g ∷ h ∷ gs) c = elim (add_last (h ∷ gs) c) [ none ↦ none | some hs ↦ some (g ∷ hs) ]

unfoldable pub add : {S : Type 0} → List (Group S) → Command S → Option (List (Group S))
unfolding add_last
add groups c = if is_valid_name c.name then add_last groups c else none

-- What the loops of `_find_command` find: a command of that name, or those whose names begin so.
pub data Found (S : Type 0) : Type 0 where
  exact : Command S → Found S
  matches : List (Command S) → Found S

unfoldable pub match_commands : {S : Type 0} → Str → List (Command S) → List (Command S) → Found S
match_commands prefix [] found = matches found
match_commands prefix (c ∷ cs) found =
    let next = match_commands prefix cs (found ++ c ∷ []) in
    let skip = match_commands prefix cs found in
    if str_eq c.name prefix then exact c else if starts_with c.name prefix then next else skip

unfoldable pub match_groups : {S : Type 0} → Str → List (Group S) → List (Command S) → Found S
match_groups prefix [] found = matches found
match_groups prefix (g ∷ gs) found = elim (match_commands prefix g.commands found) [
  | exact c ↦ exact c
  | matches cs ↦ match_groups prefix gs cs
]

-- `_find_command`; `none` where it prints an error.
abbrev pub sole : {S : Type 0} → Found S → Option (Command S)
sole (exact c) = some c
sole (matches []) = none
sole (matches (c ∷ [])) = some c
sole (matches (c ∷ d ∷ cs)) = none

unfoldable pub find_command : {S : Type 0} → List (Group S) → Str → Option (Command S)
unfolding match_groups match_commands
find_command groups prefix = sole (match_groups prefix groups [])

-- The command that an empty line repeats, and the state that the actions change.
pub record Parser (S : Type 0) : Type 0 where
  pub repeated : Str
  pub state : S

-- `do_command` from the tokens on.
unfoldable pub perform : {S : Type 0} → List (Group S) → Str → List Str → S → Parser S
perform groups line [] s = record { repeated = []; state = s }
perform groups line (name ∷ args) s = elim (find_command groups name) [
  | none ↦ record { repeated = []; state = s }
  | some c ↦ record { repeated = if c.auto_repeat then line else []; state = c.action args s }
]

-- `do_command` on what `read_line` gives, `none` at the end of the input: is there more to do?
unfoldable pub do_command : {S : Type 0} → List (Group S) → Option Str → Parser S → Bool × Parser S
do_command groups none p = (false, p)
do_command groups (some []) p =
    if is_empty p.repeated
    then (true, p)
    else (true, perform groups p.repeated (tokenise p.repeated) p.state)
do_command groups (some (c ∷ s)) p = (true, perform groups (c ∷ s) (tokenise (c ∷ s)) p.state)
