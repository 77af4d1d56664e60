-- ===== src/Options/Members.antt =====
-- What `add` puts into the groups: the options before it and the new one.
use forktrace.Prelude.{
  ◌≡◌, ◌⊎◌, inl, inr, subst, Bool, true, false, Option-cases, if◌then◌else◌, Option, none, some,
  List, [], ◌∷◌, ◌++◌, arith,
}
use forktrace.Command.Table.{is_before}
use forktrace.Options.{ProgramOption, OptionGroup, insert_option, sort_options, add_to_last}

abbrev pub In : {A : Type 0} → A → List A → Type 0
In a [] = ⊥
In a (b ∷ bs) = (a ≡ b) ⊎ In a bs

-- The options of all groups.
abbrev pub InGroups : {S : Type 0} → ProgramOption S → List (OptionGroup S) → Type 0
InGroups o [] = ⊥
InGroups o (g ∷ gs) = In o g.options ⊎ InGroups o gs

module _ {S : Type 0} where
  In-append :
      (o : ProgramOption S) (os : List (ProgramOption S)) (p : ProgramOption S)
      → In o (os ++ p ∷ [])
      → (o ≡ p) ⊎ In o os
  In-append o [] p (inl e) = inl e
  In-append o [] p (inr h) = elim h [ ]
  In-append o (q ∷ os) p (inl e) = inr (inl e)
  In-append o (q ∷ os) p (inr h) = elim (In-append o os p h) [ inl e ↦ inl e | inr k ↦ inr (inr k) ]

  In-insert :
      (o p : ProgramOption S) (os : List (ProgramOption S))
      → In o (insert_option p os)
      → (o ≡ p) ⊎ In o os
  unfolding insert_option
  In-insert o p [] (inl e) = inl e
  In-insert o p [] (inr h) = elim h [ ]
  In-insert o p (q ∷ os) h = split_on (In-insert o p os) (is_before q.name p.name) h
    where
      split_on :
          (In o (insert_option p os) → (o ≡ p) ⊎ In o os)
          → (b : Bool) → In o (if b then (q ∷ insert_option p os) else (p ∷ q ∷ os))
          → (o ≡ p) ⊎ In o (q ∷ os)
      split_on rest true (inl e) = inr (inl e)
      split_on rest true (inr k) = elim (rest k) [ inl e ↦ inl e | inr m ↦ inr (inr m) ]
      split_on rest false (inl e) = inl e
      split_on rest false (inr k) = inr k

  In-sort : (o : ProgramOption S) (os : List (ProgramOption S)) → In o (sort_options os) → In o os
  unfolding sort_options
  In-sort o [] h = h
  In-sort o (p ∷ os) h = elim (In-insert o p (sort_options os) h) [
    | inl e ↦ inl e
    | inr k ↦ inr (In-sort o os k)
  ]

  -- The options of the table that an `add` gives.
  abbrev pub InTable : ProgramOption S → Option (List (OptionGroup S)) → Type 0
  InTable o none = ⊥
  InTable o (some groups) = InGroups o groups

  -- What stands in the table after `add` stood there before, or is the option that was added.
  pub In-add_to_last :
      (o p : ProgramOption S) (groups : List (OptionGroup S))
      → InTable o (add_to_last groups p)
      → (o ≡ p) ⊎ InGroups o groups
  unfolding add_to_last
  In-add_to_last o p [] h = elim h [ ]
  In-add_to_last o p (g ∷ []) (inl h) =
      elim (In-append o g.options p (In-sort o (g.options ++ p ∷ []) h)) [
        | inl e ↦ inl e
        | inr k ↦ inr (inl k)
      ]
  In-add_to_last o p (g ∷ []) (inr h) = elim h [ ]
  In-add_to_last o p (g ∷ k ∷ gs) h =
      behind (add_to_last (k ∷ gs) p) (In-add_to_last o p (k ∷ gs)) h
    where
      behind :
          (r : Option (List (OptionGroup S)))
          → (InTable o r → (o ≡ p) ⊎ InGroups o (k ∷ gs))
          → InTable o (elim r [ none ↦ none | some hs ↦ some (g ∷ hs) ])
          → (o ≡ p) ⊎ InGroups o (g ∷ k ∷ gs)
      behind none ih x = elim x [ ]
      behind (some hs) ih (inl x) = inr (inl x)
      behind (some hs) ih (inr x) = elim (ih x) [ inl e ↦ inl e | inr y ↦ inr (inr y) ]

  append_In :
      (o p : ProgramOption S) (os : List (ProgramOption S))
      → (o ≡ p) ⊎ In o os
      → In o (os ++ p ∷ [])
  append_In o p [] (inl e) = inl e
  append_In o p [] (inr h) = elim h [ ]
  append_In o p (q ∷ os) (inl e) = inr (append_In o p os (inl e))
  append_In o p (q ∷ os) (inr (inl e)) = inl e
  append_In o p (q ∷ os) (inr (inr h)) = inr (append_In o p os (inr h))

  insert_In :
      (o p : ProgramOption S) (os : List (ProgramOption S))
      → (o ≡ p) ⊎ In o os
      → In o (insert_option p os)
  unfolding insert_option
  insert_In o p [] h = h
  insert_In o p (q ∷ os) h = split_on (insert_In o p os) (is_before q.name p.name) h
    where
      split_on :
          ((o ≡ p) ⊎ In o os → In o (insert_option p os))
          → (b : Bool) → (o ≡ p) ⊎ In o (q ∷ os)
          → In o (if b then (q ∷ insert_option p os) else (p ∷ q ∷ os))
      split_on rest true (inl e) = inr (rest (inl e))
      split_on rest true (inr (inl e)) = inl e
      split_on rest true (inr (inr k)) = inr (rest (inr k))
      split_on rest false (inl e) = inl e
      split_on rest false (inr k) = inr k

  sort_In : (o : ProgramOption S) (os : List (ProgramOption S)) → In o os → In o (sort_options os)
  unfolding sort_options
  sort_In o [] h = h
  sort_In o (p ∷ os) (inl e) = insert_In o p (sort_options os) (inl e)
  sort_In o (p ∷ os) (inr h) = insert_In o p (sort_options os) (inr (sort_In o os h))

  -- Nothing is lost by `add`, if there is a group to take the option.
  pub add_to_last_In :
      (o p : ProgramOption S) (groups after : List (OptionGroup S))
      → add_to_last groups p ≡ some after
      → (o ≡ p) ⊎ InGroups o groups
      → InTable o (add_to_last groups p)
  unfolding add_to_last
  add_to_last_In o p [] after e h = absurd (ground (arith, e))
  add_to_last_In o p (g ∷ []) after e (inl q) =
      inl (sort_In o (g.options ++ p ∷ []) (append_In o p g.options (inl q)))
  add_to_last_In o p (g ∷ []) after e (inr (inl h)) =
      inl (sort_In o (g.options ++ p ∷ []) (append_In o p g.options (inr h)))
  add_to_last_In o p (g ∷ []) after e (inr (inr h)) = elim h [ ]
  add_to_last_In o p (g ∷ k ∷ gs) after e h = elim (Option-cases (add_to_last (k ∷ gs) p)) [
    | inl n ↦ absurd (ground (arith, e, n))
    | inr (hs, q) ↦
        rw q (behind hs (λ x. subst (InTable o) q (add_to_last_In o p (k ∷ gs) hs q x)) h)
  ]
    where
      behind :
          (hs : List (OptionGroup S))
          → ((o ≡ p) ⊎ InGroups o (k ∷ gs) → InGroups o hs)
          → (o ≡ p) ⊎ InGroups o (g ∷ k ∷ gs)
          → InGroups o (g ∷ hs)
      behind hs ih (inl x) = inr (ih (inl x))
      behind hs ih (inr (inl x)) = inl x
      behind hs ih (inr (inr x)) = inr (ih (inr x))
