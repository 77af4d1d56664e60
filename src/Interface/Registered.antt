-- ===== src/Interface/Registered.antt =====
-- What holds of all commands that are added holds of the one that a line names.
use forktrace.Prelude.{
  sym, subst, Bool, true, false, if◌then◌else◌, Option, none, some, List, [], ◌∷◌, ◌++◌, Str,
  str_eq,
}
use forktrace.Command.Table.{
  Command, Group, is_valid_name, is_before, insert, sort, start_new_group, add_last, add,
  starts_with, find_command,
}
use forktrace.Command.Lookup.{all_commands, first_named, prefixed, the_only, find_command-the_only}

module _ {S : Type 0} (P : Command S → Type 0) where
  abbrev pub AllIn : List (Command S) → Type 0
  AllIn [] = Unit {0}
  AllIn (c ∷ cs) = P c × AllIn cs

  abbrev pub AllGroups : List (Group S) → Type 0
  AllGroups [] = Unit {0}
  AllGroups (g ∷ gs) = AllIn g.commands × AllGroups gs

  abbrev pub AnyGroups : Option (List (Group S)) → Type 0
  AnyGroups none = Unit {0}
  AnyGroups (some gs) = AllGroups gs

  abbrev pub AnyFound : Option (Command S) → Type 0
  AnyFound none = Unit {0}
  AnyFound (some c) = P c

  append-AllIn : (cs ds : List (Command S)) → AllIn cs → AllIn ds → AllIn (cs ++ ds)
  append-AllIn [] ds a b = b
  append-AllIn (c ∷ cs) ds (p, a) b = (p, append-AllIn cs ds a b)

  if-AllIn :
      (b : Bool) (cs ds : List (Command S)) → AllIn cs → AllIn ds → AllIn (if b then cs else ds)
  if-AllIn true cs ds h k = h
  if-AllIn false cs ds h k = k

  insert-AllIn : (c : Command S) (cs : List (Command S)) → P c → AllIn cs → AllIn (insert c cs)
  unfolding insert
  insert-AllIn c [] p a = (p, tt)
  insert-AllIn c (d ∷ cs) p (q, a) =
      if-AllIn (is_before d.name c.name) (d ∷ insert c cs) (c ∷ d ∷ cs) (q, insert-AllIn c cs p a)
        (p, (q, a))

  sort-AllIn : (cs : List (Command S)) → AllIn cs → AllIn (sort cs)
  unfolding sort
  sort-AllIn [] a = tt
  sort-AllIn (c ∷ cs) (p, a) = insert-AllIn c (sort cs) p (sort-AllIn cs a)

  pub start_new_group-AllGroups :
      (gs : List (Group S)) (name : Str) → AllGroups gs → AllGroups (start_new_group gs name)
  unfolding start_new_group
  start_new_group-AllGroups [] name a = (tt, tt)
  start_new_group-AllGroups (g ∷ gs) name (h, a) = (h, start_new_group-AllGroups gs name a)

  add_last-AnyGroups :
      (gs : List (Group S)) (c : Command S) → P c → AllGroups gs → AnyGroups (add_last gs c)
  unfolding add_last
  add_last-AnyGroups [] c p a = tt
  add_last-AnyGroups (g ∷ []) c p (h, a) =
      (sort-AllIn (g.commands ++ c ∷ []) (append-AllIn g.commands (c ∷ []) h (p, tt)), tt)
  add_last-AnyGroups (g ∷ k ∷ gs) c p (h, a) =
      behind (add_last (k ∷ gs) c) (add_last-AnyGroups (k ∷ gs) c p a)
    where
      behind :
          (r : Option (List (Group S)))
          → AnyGroups r
          → AnyGroups (elim r [ none ↦ none | some hs ↦ some (g ∷ hs) ])
      behind none b = tt
      behind (some hs) b = (h, b)

  pub add-AnyGroups :
      (gs : List (Group S)) (c : Command S) → P c → AllGroups gs → AnyGroups (add gs c)
  unfolding add
  add-AnyGroups gs c p a = choose (is_valid_name c.name)
    where
      choose : (b : Bool) → AnyGroups (if b then add_last gs c else none)
      choose true = add_last-AnyGroups gs c p a
      choose false = tt

  all_commands-AllIn : (gs : List (Group S)) → AllGroups gs → AllIn (all_commands gs)
  all_commands-AllIn [] a = tt
  all_commands-AllIn (g ∷ gs) (h, a) =
      append-AllIn g.commands (all_commands gs) h (all_commands-AllIn gs a)

  first_named-AnyFound :
      (name : Str) (cs : List (Command S)) → AllIn cs → AnyFound (first_named name cs)
  first_named-AnyFound name [] a = tt
  first_named-AnyFound name (c ∷ cs) (p, a) =
      choose (str_eq c.name name) (first_named-AnyFound name cs a)
    where
      choose :
          (b : Bool)
          → AnyFound (first_named name cs)
          → AnyFound (if b then some c else first_named name cs)
      choose true f = p
      choose false f = f

  prefixed-AllIn : (name : Str) (cs : List (Command S)) → AllIn cs → AllIn (prefixed name cs)
  prefixed-AllIn name [] a = tt
  prefixed-AllIn name (c ∷ cs) (p, a) =
      if-AllIn (starts_with c.name name) (c ∷ prefixed name cs) (prefixed name cs)
        (p, prefixed-AllIn name cs a) (prefixed-AllIn name cs a)

  the_only-AnyFound : (cs : List (Command S)) → AllIn cs → AnyFound (the_only cs)
  the_only-AnyFound [] a = tt
  the_only-AnyFound (c ∷ []) (p, a) = p
  the_only-AnyFound (c ∷ d ∷ cs) a = tt

  pub find_command-AnyFound :
      (gs : List (Group S)) (name : Str) → AllGroups gs → AnyFound (find_command gs name)
  find_command-AnyFound gs name a =
      subst AnyFound (sym (find_command-the_only gs name)) (
        pick (first_named name (all_commands gs)) (first_named-AnyFound name (all_commands gs) all))
    where
      all : AllIn (all_commands gs)
      all = all_commands-AllIn gs a

      pick :
          (o : Option (Command S))
          → AnyFound o
          → AnyFound
              (elim o [ some c ↦ some c | none ↦ the_only (prefixed name (all_commands gs)) ])
      pick none f =
          the_only-AnyFound (prefixed name (all_commands gs))
            (prefixed-AllIn name (all_commands gs) all)
      pick (some c) f = f
