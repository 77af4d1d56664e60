-- ===== src/Command/Lookup.antt =====
-- `_find_command` against a description without loops.
use forktrace.Prelude.{
  ◌≡◌, refl, sym, ap, if◌then◌else◌, Bool-cases, inl, inr, Option, none, some, List, [], ◌∷◌, ◌++◌,
  append_assoc, append-nil, Str, str_eq, arith,
}
use forktrace.Command.Table.{
  Command, Group, Found, exact, matches, starts_with, match_commands, match_groups, sole,
  find_command,
}

-- All commands, group after group.
abbrev pub all_commands : {S : Type 0} → List (Group S) → List (Command S)
all_commands [] = []
all_commands (g ∷ gs) = g.commands ++ all_commands gs

-- The first command of that very name.
abbrev pub first_named : {S : Type 0} → Str → List (Command S) → Option (Command S)
first_named name [] = none
first_named name (c ∷ cs) = if str_eq c.name name then some c else first_named name cs

-- The commands whose names begin so.
abbrev pub prefixed : {S : Type 0} → Str → List (Command S) → List (Command S)
prefixed prefix [] = []
prefixed prefix (c ∷ cs) =
    if starts_with c.name prefix then c ∷ prefixed prefix cs else prefixed prefix cs

abbrev pub the_only : {A : Type 0} → List A → Option A
the_only (a ∷ []) = some a
the_only _ = none

-- What the loops have found, after the commands `found`.
abbrev found_in : {S : Type 0} → Str → List (Command S) → List (Command S) → Found S
found_in prefix cs found = elim (first_named prefix cs) [
  | some c ↦ exact c
  | none ↦ matches (found ++ prefixed prefix cs)
]

module _ {S : Type 0} (p : Str) where
  match_commands-found_in :
      (cs found : List (Command S)) → match_commands p cs found ≡ found_in p cs found
  unfolding match_commands
  match_commands-found_in [] found = ap matches (sym (append-nil found))
  match_commands-found_in (c ∷ cs) found = elim (Bool-cases (str_eq c.name p)) [
    | inl same ↦ ground (arith, same)
    | inr other ↦ elim (Bool-cases (starts_with c.name p)) [
      | inl begins' ↦ ground (
        arith,
        other,
        begins',
        match_commands-found_in cs (found ++ c ∷ []),
        append_assoc found (c ∷ []) (prefixed p cs),
      )
      | inr not' ↦ ground (arith, other, not', match_commands-found_in cs found)
    ]
  ]

  first_named-append :
      (cs ds : List (Command S))
      → first_named p (cs ++ ds)
        ≡ elim (first_named p cs) [ some c ↦ some c | none ↦ first_named p ds ]
  first_named-append [] ds = refl
  first_named-append (c ∷ cs) ds = ground (arith, first_named-append cs ds)

  prefixed-append :
      (cs ds : List (Command S)) → prefixed p (cs ++ ds) ≡ prefixed p cs ++ prefixed p ds
  prefixed-append [] ds = refl
  prefixed-append (c ∷ cs) ds = ground (arith, prefixed-append cs ds)

  match_groups-found_in :
      (gs : List (Group S)) (found : List (Command S))
      → match_groups p gs found ≡ found_in p (all_commands gs) found
  unfolding match_groups
  match_groups-found_in [] found = ap matches (sym (append-nil found))
  match_groups-found_in (g ∷ gs) found = ground (
    arith,
    match_commands-found_in g.commands found,
    first_named-append g.commands (all_commands gs),
    match_groups-found_in gs (found ++ prefixed p g.commands),
    prefixed-append g.commands (all_commands gs),
    append_assoc found (prefixed p g.commands) (prefixed p (all_commands gs)),
  )

  sole-the_only :
      (cs : List (Command S))
      → sole (found_in p cs [])
        ≡ elim (first_named p cs) [ some c ↦ some c | none ↦ the_only (prefixed p cs) ]
  sole-the_only cs = ground (arith, only (prefixed p cs))
    where
      only : (ds : List (Command S)) → sole (matches ds) ≡ the_only ds
      only [] = refl
      only (d ∷ []) = refl
      only (d ∷ d' ∷ ds) = refl

-- A command whose name is given in full is found, the first such, even if other names begin with
-- it; otherwise the command whose name begins so, if it is the only one. The search of the groups
-- comes to nothing else.
pub find_command-the_only :
    {S : Type 0} (groups : List (Group S)) (prefix : Str)
    → find_command groups prefix ≡ elim (first_named prefix (all_commands groups)) [
      | some c ↦ some c
      | none ↦ the_only (prefixed prefix (all_commands groups))
    ]
unfolding find_command
find_command-the_only groups prefix =
    rw (match_groups-found_in prefix groups []) (sole-the_only prefix (all_commands groups))
