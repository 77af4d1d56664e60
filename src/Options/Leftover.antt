-- ===== src/Options/Leftover.antt =====
-- Where `ArgParser::parse` stops, and what it leaves over.
use forktrace.Prelude.{
  ℕ, suc, ◌≡◌, ◌⊎◌, inl, inr, refl, ap, subst, true, false, Bool-cases, List, [], ◌∷◌, ◌++◌, drop,
  length, append_assoc, Str, codes, str_eq, str_eq_iff,
}
use forktrace.Command.Table.{starts_with}
use forktrace.Options.{
  OptionGroup, Outcome, Complaint, parsed, refused, parse_flag, parse_internal, parse,
}

abbrev pub after_flag : {S : Type 0} → Outcome S → (S → Outcome S) → Outcome S
after_flag (parsed t) next = next t
after_flag (refused e t) next = refused e t

-- The flags one after the other, up to the first that goes wrong.
abbrev pub run_flags : {S : Type 0} → List (OptionGroup S) → List Str → S → Outcome S
run_flags groups [] s = parsed s
run_flags groups (f ∷ fs) s = after_flag (parse_flag groups f s) (run_flags groups fs)

-- An argument that begins with a dash and is not the separator.
pub record IsFlag (a : Str) : Type 0 where
  pub dash : starts_with a (codes "-") ≡ true
  pub other : str_eq a (codes "--") ≡ false

abbrev pub AllFlags : List Str → Type 0
AllFlags [] = Unit
AllFlags (a ∷ as') = IsFlag a × AllFlags as'

-- What is left over where there was no separator does not begin with a flag.
abbrev pub IsWord : List Str → Type 0
IsWord [] = Unit
IsWord (a ∷ as') = (starts_with a (codes "-") ≡ false) × (str_eq a (codes "--") ≡ false)

-- What stands between the flags and the rest.
pub data Ends : List Str → List Str → Type 0 where
  separator : (rest : List Str) → Ends (codes "--" ∷ []) rest
  at_word : (rest : List Str) → IsWord rest → Ends [] rest

-- The arguments are flags, which all go well and lead to `t`, perhaps the separator, and the rest.
pub record Finishes {S : Type 0} (groups : List (OptionGroup S)) (args : List Str) (s t : S)
    (rest : List Str) : Type 0 where
  pub flags : List Str
  pub between : List Str
  pub parts : args ≡ flags ++ between ++ rest
  pub all : AllFlags flags
  pub runs : run_flags groups flags s ≡ parsed t
  pub ends : Ends between rest

-- The arguments are flags that go well, and a flag that goes wrong, with which the rest begins.
pub record Fails {S : Type 0} (groups : List (OptionGroup S)) (args : List Str) (s : S)
    (e : Complaint) (t : S) (rest : List Str) : Type 0 where
  pub flags : List Str
  pub culprit : Str
  pub after : List Str
  pub reached : S
  pub parts : args ≡ flags ++ rest
  pub first : rest ≡ culprit ∷ after
  pub all : AllFlags flags
  pub is_flag : IsFlag culprit
  pub runs : run_flags groups flags s ≡ parsed reached
  pub fails : parse_flag groups culprit reached ≡ refused e t

abbrev pub Explains :
    {S : Type 0} → List (OptionGroup S) → List Str → S → Outcome S × List Str → Type 0
Explains groups args s (parsed t, rest) = Finishes groups args s t rest
Explains groups args s (refused e t, rest) = Fails groups args s e t rest

Outcome-cases :
    {S : Type 0} (o : Outcome S)
    → ((t : S) × (o ≡ parsed t)) ⊎ ((e : Complaint) × (t : S) × (o ≡ refused e t))
Outcome-cases (parsed t) = inl (t, refl)
Outcome-cases (refused e t) = inr (e, t, refl)

module _ {S : Type 0} (groups : List (OptionGroup S)) where
  abbrev left : List Str → Outcome S × ℕ → Outcome S × List Str
  left args (o, n) = (o, drop n args)

  one_more :
      (a : Str) (args : List Str) (s t : S)
      → IsFlag a
      → parse_flag groups a s ≡ parsed t
      → (r : Outcome S × List Str) → Explains groups args t r
      → Explains groups (a ∷ args) s r
  one_more a args s t fl e (parsed u, rest) x = record {
    flags = a ∷ x.flags;
    between = x.between;
    parts = ap (λ l. a ∷ l) x.parts;
    all = (fl, x.all);
    runs = rw (e, run_flags) x.runs;
    ends = x.ends;
  }
  one_more a args s t fl e (refused c u, rest) x = record {
    flags = a ∷ x.flags;
    culprit = x.culprit;
    after = x.after;
    reached = x.reached;
    parts = ap (λ l. a ∷ l) x.parts;
    first = x.first;
    all = (fl, x.all);
    is_flag = x.is_flag;
    runs = rw (e, run_flags) x.runs;
    fails = x.fails;
  }

  drop-append : (pre args : List Str) → drop (length pre) (pre ++ args) ≡ args
  drop-append [] args = refl
  drop-append (p ∷ pre) args = drop-append pre args

  drop-append_suc :
      (pre : List Str) (a : Str) (args : List Str)
      → drop (suc (length pre)) (pre ++ a ∷ args) ≡ args
  drop-append_suc [] a args = refl
  drop-append_suc (p ∷ pre) a args = drop-append_suc pre a args

  length-snoc : (pre : List Str) (a : Str) → length (pre ++ a ∷ []) ≡ suc (length pre)
  length-snoc [] a = refl
  length-snoc (p ∷ pre) a = ap suc (length-snoc pre a)

  -- The first arguments `pre` are behind the loop.
  parse_internal-Explains :
      (pre args : List Str) (s : S)
      → Explains groups args s (left (pre ++ args) (parse_internal groups args (length pre) s))
  unfolding parse_internal
  parse_internal-Explains pre [] s =
      rw (drop-append pre []) record {
        flags = [];
        between = [];
        parts = refl;
        all = tt;
        runs = refl;
        ends = at_word [] tt;
      }
  parse_internal-Explains pre (a ∷ args) s =
      let ih = λ (t : S). parse_internal-Explains (pre ++ a ∷ []) args t in
      elim (Bool-cases (str_eq a (codes "--"))) [
        | inl sep ↦
            rw (sep, drop-append_suc pre a args)
              record {
                flags = [];
                between = codes "--" ∷ [];
                parts = ap (λ b. b ∷ args) ((str_eq_iff a (codes "--")).0 sep);
                all = tt;
                runs = refl;
                ends = separator args;
              }
        | inr other ↦ elim (Bool-cases (starts_with a (codes "-"))) [
          | inr word ↦
              rw (other, word, drop-append pre (a ∷ args))
                record {
                  flags = [];
                  between = [];
                  parts = refl;
                  all = tt;
                  runs = refl;
                  ends = at_word (a ∷ args) (word, other);
                }
          | inl dash ↦ elim (Outcome-cases (parse_flag groups a s)) [
            | inl (t, e) ↦
                rw (other, dash, e)
                  (one_more a args s t (record { dash = dash; other = other }) e
                    (left (pre ++ a ∷ args) (parse_internal groups args (suc (length pre)) t))
                    (subst
                      (λ (n : ℕ).
                        Explains groups args t
                          (left (pre ++ a ∷ args) (parse_internal groups args n t)))
                      (length-snoc pre a)
                      (subst
                        (λ (l : List Str).
                          Explains groups args t
                            (left l (parse_internal groups args (length (pre ++ a ∷ [])) t)))
                        (append_assoc pre (a ∷ []) args) (ih t))))
            | inr (c, t, e) ↦
                rw (other, dash, e, drop-append pre (a ∷ args))
                  record {
                    flags = [];
                    culprit = a;
                    after = args;
                    reached = s;
                    parts = refl;
                    first = refl;
                    all = tt;
                    is_flag = record { dash = dash; other = other };
                    runs = refl;
                    fails = e;
                  }
          ]
        ]
      ]

  -- Of at least one argument, `parse` reads flags from the first on. Where it succeeds, these lead
  -- one after the other to the state at the end, and what is left over is all the rest, which is
  -- cut off by the first "--" or begins with an argument that is no flag. Where it fails, the flags
  -- before the culprit have gone well, the culprit has failed in the state that they led to, and what
  -- is left over begins with it.
  pub parse-Explains :
      (reset : S → S) (arg : Str) (args remaining : List Str) (s : S)
      → Explains groups (arg ∷ args) (reset s) (parse reset groups (arg ∷ args) remaining s)
  unfolding parse
  parse-Explains reset arg args remaining s = parse_internal-Explains [] (arg ∷ args) (reset s)
