-- ===== src/Options/Table.antt =====
-- The table that `start_new_group` and `add` of `ArgParser` build.
use forktrace.Prelude.{
  ◌≡◌, ◌≢◌, ◌⊎◌, ◌↔◌, inl, inr, refl, sym, ap, subst, ◌∙◌, Bool, true, false, ◌&&◌, Bool-cases,
  Option-cases, Option, none, some, List, [], ◌∷◌, Str, str_eq_iff, arith,
}
use forktrace.Command.Table.{is_valid_name}
use forktrace.Options.Members.{In, InGroups, InTable, In-add_to_last, add_to_last_In}
use forktrace.Options.{
  ProgramOption, OptionGroup, find_in, find_in_groups, has_name, has_short_name, find_option,
  find_short_option, start_option_group, add_to_last, is_none, add_option,
}

-- Names are valid, and neither a name nor a short name stands for two options.
pub record IsTable {S : Type 0} (groups : List (OptionGroup S)) : Type 0 where
  pub valid : (o : ProgramOption S) → InGroups o groups → is_valid_name o.name ≡ true
  pub names :
      (o p : ProgramOption S) → InGroups o groups → InGroups p groups → o.name ≡ p.name → o ≡ p
  pub shorts :
      (o p : ProgramOption S)
      → InGroups o groups
      → InGroups p groups
      → o.short_name ≢ 0
      → o.short_name ≡ p.short_name
      → o ≡ p

is_none-none : {A : Type 0} (o : Option A) → is_none o ≡ true → o ≡ none
is_none-none none e = refl
is_none-none (some a) e = absurd (ground (arith, e))

module _ {S : Type 0} where
  find_in-none :
      (test : ProgramOption S → Bool) (o : ProgramOption S) (os : List (ProgramOption S))
      → find_in test os ≡ none
      → In o os
      → test o ≡ false
  find_in-none test o [] e h = elim h [ ]
  find_in-none test o (p ∷ os) e (inl q) = elim (Bool-cases (test p)) [
    | inl y ↦ absurd (ground (arith, e, y))
    | inr n ↦ ap test q ∙ n
  ]
  find_in-none test o (p ∷ os) e (inr h) = elim (Bool-cases (test p)) [
    | inl y ↦ absurd (ground (arith, e, y))
    | inr n ↦ find_in-none test o os (ground (arith, e, n)) h
  ]

  find_in_groups-none :
      (test : ProgramOption S → Bool) (o : ProgramOption S) (gs : List (OptionGroup S))
      → find_in_groups test gs ≡ none
      → InGroups o gs
      → test o ≡ false
  find_in_groups-none test o [] e h = elim h [ ]
  find_in_groups-none test o (g ∷ gs) e h = elim (Option-cases (find_in test g.options)) [
    | inl n ↦ elim h [
      | inl k ↦ find_in-none test o g.options n k
      | inr k ↦ find_in_groups-none test o gs (ground (arith, e, n)) k
    ]
    | inr (p, f) ↦ absurd (ground (arith, e, f))
  ]

  find_in-some :
      (test : ProgramOption S → Bool) (p : ProgramOption S) (os : List (ProgramOption S))
      → find_in test os ≡ some p
      → In p os × (test p ≡ true)
  find_in-some test p [] e = absurd (ground (arith, e))
  find_in-some test p (q ∷ os) e = elim (Bool-cases (test q)) [
    | inl y ↦ let s : q ≡ p = ground (arith, e, y) in (inl (sym s), ap test (sym s) ∙ y)
    | inr n ↦ let (k, t) = find_in-some test p os (ground (arith, e, n)) in (inr k, t)
  ]

  find_in_groups-some :
      (test : ProgramOption S → Bool) (p : ProgramOption S) (gs : List (OptionGroup S))
      → find_in_groups test gs ≡ some p
      → InGroups p gs × (test p ≡ true)
  find_in_groups-some test p [] e = absurd (ground (arith, e))
  find_in_groups-some test p (g ∷ gs) e = elim (Option-cases (find_in test g.options)) [
    | inl n ↦ let (k, t) = find_in_groups-some test p gs (ground (arith, e, n)) in (inr k, t)
    | inr (q, f) ↦
        let (k, t) = find_in-some test p g.options (f ∙ ground (arith, e, f)) in (inl k, t)
  ]

  -- What the assertions of `add` have checked where it returns.
  record Added (groups after : List (OptionGroup S)) (p : ProgramOption S) : Type 0 where
    is_valid : is_valid_name p.name ≡ true
    new_name : find_option groups p.name ≡ none
    new_short : find_short_option groups p.short_name ≡ none
    put : add_to_last groups p ≡ some after

  add_option-Added :
      (groups after : List (OptionGroup S)) (p : ProgramOption S)
      → add_option groups p ≡ some after
      → Added groups after p
  unfolding add_option
  add_option-Added groups after p e =
      elim (Bool-cases (
        is_valid_name p.name
        && is_none (find_option groups p.name)
        && is_none (find_short_option groups p.short_name))) [
          | inl y ↦ record {
            is_valid = ground (arith, y);
            new_name = is_none-none (find_option groups p.name) (ground (arith, y));
            new_short = is_none-none (find_short_option groups p.short_name) (ground (arith, y));
            put = ground (arith, e, y);
          }
          | inr n ↦ absurd (ground (arith, e, n))
        ]

  not_named :
      (groups : List (OptionGroup S)) (p o : ProgramOption S)
      → find_option groups p.name ≡ none
      → InGroups o groups
      → o.name ≢ p.name
  unfolding find_option
  not_named groups p o e h same =
      ground (
        arith,
        find_in_groups-none (has_name p.name) o groups e h,
        (str_eq_iff o.name p.name).1 same,
      )

  not_short_named :
      (groups : List (OptionGroup S)) (p o : ProgramOption S)
      → find_short_option groups p.short_name ≡ none
      → InGroups o groups
      → o.short_name ≢ 0
      → o.short_name ≢ p.short_name
  unfolding find_short_option
  not_short_named groups p o e h some' same =
      ground (arith, find_in_groups-none (has_short_name p.short_name) o groups e h, some', same)

  -- `add` keeps the table in order: what it asserts is enough for that.
  pub add_option-IsTable :
      (groups after : List (OptionGroup S)) (p : ProgramOption S)
      → IsTable groups
      → add_option groups p ≡ some after
      → IsTable after
  add_option-IsTable groups after p table e =
      let a = add_option-Added groups after p e in
      let from : (o : ProgramOption S) → InGroups o after → (o ≡ p) ⊎ InGroups o groups =
        λ o h. In-add_to_last o p groups (subst (InTable o) (sym a.put) h) in
      record {
        valid = λ o h. elim (from o h) [
          | inl q ↦ ap (λ (x : ProgramOption S). is_valid_name x.name) q ∙ a.is_valid
          | inr k ↦ table.valid o k
        ];
        names = λ o q h k same. elim (from o h) [
          | inl x ↦ elim (from q k) [
            | inl y ↦ x ∙ sym y
            | inr m ↦ absurd (
                not_named groups p q a.new_name m
                  (sym same ∙ ap (λ (z : ProgramOption S). z.name) x))
          ]
          | inr l ↦ elim (from q k) [
            | inl y ↦
                absurd (
                  not_named groups p o a.new_name l (same ∙ ap (λ (z : ProgramOption S). z.name) y))
            | inr m ↦ table.names o q l m same
          ]
        ];
        shorts = λ o q h k some' same. elim (from o h) [
          | inl x ↦ elim (from q k) [
            | inl y ↦ x ∙ sym y
            | inr m ↦ absurd (
                not_short_named groups p q a.new_short m (λ z. some' (same ∙ z))
                  (sym same ∙ ap (λ (z : ProgramOption S). z.short_name) x))
          ]
          | inr l ↦ elim (from q k) [
            | inl y ↦ absurd (
                not_short_named groups p o a.new_short l some'
                  (same ∙ ap (λ (z : ProgramOption S). z.short_name) y))
            | inr m ↦ table.shorts o q l m some' same
          ]
        ];
      }

  -- The options after an `add` are those before it and the one that was added.
  pub add_option_In :
      (groups after : List (OptionGroup S)) (o p : ProgramOption S)
      → add_option groups p ≡ some after
      → ((o ≡ p) ⊎ InGroups o groups) ↔ InGroups o after
  add_option_In groups after o p e =
      let a = add_option-Added groups after p e in
      (
        λ h. subst (InTable o) a.put (add_to_last_In o p groups after a.put h),
        λ h. In-add_to_last o p groups (subst (InTable o) (sym a.put) h),
      )

  -- Where `add` returns, the options are those before it and the one that was added, and the table is
  -- still in order: the name of each is valid, and neither a name nor a short name stands for two.
  pub add_option_adds :
      (groups after : List (OptionGroup S)) (p : ProgramOption S)
      → IsTable groups
      → add_option groups p ≡ some after
      → IsTable after × ((o : ProgramOption S) → ((o ≡ p) ⊎ InGroups o groups) ↔ InGroups o after)
  add_option_adds groups after p table e =
      (add_option-IsTable groups after p table e, λ o. add_option_In groups after o p e)

  -- `_find` of a name that the table has gives the option of that name.
  pub find_option_lem :
      (groups : List (OptionGroup S)) (o : ProgramOption S)
      → IsTable groups
      → InGroups o groups
      → find_option groups o.name ≡ some o
  unfolding find_option
  find_option_lem groups o table h = elim (Option-cases (find_in_groups (has_name o.name) groups)) [
    | inl n ↦ absurd (
        ground (
          arith,
          find_in_groups-none (has_name o.name) o groups n h,
          (str_eq_iff o.name o.name).1 refl,
        ))
    | inr (p, e) ↦
        let (k, t) = find_in_groups-some (has_name o.name) p groups e in
        e ∙ ap some (table.names p o k h ((str_eq_iff p.name o.name).0 t))
  ]

  pub find_short_option_lem :
      (groups : List (OptionGroup S)) (o : ProgramOption S)
      → IsTable groups
      → InGroups o groups
      → o.short_name ≢ 0
      → find_short_option groups o.short_name ≡ some o
  unfolding find_short_option
  find_short_option_lem groups o table h ne =
      elim (Option-cases (find_in_groups (has_short_name o.short_name) groups)) [
        | inl n ↦
            absurd
              (ground (arith, find_in_groups-none (has_short_name o.short_name) o groups n h, ne))
        | inr (p, e) ↦
            let (k, t) = find_in_groups-some (has_short_name o.short_name) p groups e in
            e ∙ ap some (table.shorts p o k h (ground (arith, t)) (ground (arith, t)))
      ]

  InGroups-start :
      (o : ProgramOption S) (groups : List (OptionGroup S)) (name : Str)
      → InGroups o (start_option_group groups name)
      → InGroups o groups
  unfolding start_option_group
  InGroups-start o [] name h = elim h [ inl x ↦ elim x [ ] | inr x ↦ elim x [ ] ]
  InGroups-start o (g ∷ gs) name (inl h) = inl h
  InGroups-start o (g ∷ gs) name (inr h) = inr (InGroups-start o gs name h)

  pub start_option_group-IsTable :
      (groups : List (OptionGroup S)) (name : Str)
      → IsTable groups
      → IsTable (start_option_group groups name)
  start_option_group-IsTable groups name table =
      let old = λ (o : ProgramOption S) (h : InGroups o (start_option_group groups name)).
        InGroups-start o groups name h in
      record {
        valid = λ o h. table.valid o (old o h);
        names = λ o p h k. table.names o p (old o h) (old p k);
        shorts = λ o p h k. table.shorts o p (old o h) (old p k);
      }
