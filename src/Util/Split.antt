-- ===== src/Util/Split.antt =====
-- `split` and `join` undo one another.
use forktrace.Prelude.{
  ℕ, ◌≡◌, ◌≢◌, refl, ◌∙◌, ap, Bool, true, false, ◌&&◌, ◌==◌, Bool-cases, inl, inr, if◌then◌else◌,
  List, [], ◌∷◌, ◌++◌, append_assoc, append-nil, Str, arith,
}
use forktrace.Util.{join, is_empty, keep, split_from, split}

-- Does the delimiter stand in the text?
abbrev pub lacks : ℕ → Str → Bool
lacks d [] = true
lacks d (c ∷ s) = if c == d then false else lacks d s

-- The tokens of a split: none holds the delimiter, and none is empty where empty ones are ignored.
abbrev pub AllTokens : ℕ → Bool → List Str → Type 0
AllTokens d ignore [] = Unit {0}
AllTokens d ignore (t ∷ ts) =
    (lacks d t ≡ true) × ((is_empty t && ignore) ≡ false) × AllTokens d ignore ts

lacks-snoc :
    (d : ℕ) (t : Str) (c : ℕ) → lacks d t ≡ true → (c == d) ≡ false → lacks d (t ++ c ∷ []) ≡ true
lacks-snoc d [] c h k = rw k
lacks-snoc d (x ∷ t) c h k = ground (arith, lacks-snoc d t c)

keep-AllTokens :
    (d : ℕ) (ignore : Bool) (t : Str) (ts : List Str)
    → lacks d t ≡ true
    → AllTokens d ignore ts
    → AllTokens d ignore (keep ignore t ts)
keep-AllTokens d ignore t ts l all = elim (Bool-cases (is_empty t && ignore)) [
  | inl drop ↦ rw drop all
  | inr stay ↦ rw stay (l, stay, all)
]

split_from-AllTokens :
    (d : ℕ) (ignore : Bool) (token s : Str)
    → lacks d token ≡ true
    → AllTokens d ignore (split_from d ignore token s)
unfolding split_from
split_from-AllTokens d ignore token [] h = keep-AllTokens d ignore token [] h tt
split_from-AllTokens d ignore token (c ∷ s) h = elim (Bool-cases (c == d)) [
  | inl delim ↦
      rw delim (keep-AllTokens d ignore token _ h (split_from-AllTokens d ignore [] s refl))
  | inr other ↦
      rw other (split_from-AllTokens d ignore (token ++ c ∷ []) s (lacks-snoc d token c h other))
]

-- No token of a split holds the delimiter, and none is empty where empty ones are ignored.
pub split-AllTokens : (s : Str) (d : ℕ) (ignore : Bool) → AllTokens d ignore (split s d ignore)
unfolding split
split-AllTokens s d ignore = split_from-AllTokens d ignore [] s refl

pub split_from-ne-nil : (d : ℕ) (token s : Str) → split_from d false token s ≢ []
unfolding split_from
split_from-ne-nil d token [] = ground arith
split_from-ne-nil d token (c ∷ s) = ground (arith, split_from-ne-nil d (token ++ c ∷ []) s)

join-cons : (d : ℕ) (t : Str) (ts : List Str) → ts ≢ [] → join d (t ∷ ts) ≡ t ++ d ∷ join d ts
unfolding join
join-cons d t [] h = absurd (h refl)
join-cons d t (u ∷ ts) h = refl

pub keep-all : (t : Str) (ts : List Str) → keep false t ts ≡ t ∷ ts
keep-all [] ts = refl
keep-all (c ∷ t) ts = refl

join-split_from : (d : ℕ) (token s : Str) → join d (split_from d false token s) ≡ token ++ s
unfolding split_from
join-split_from d token [] = rw (keep-all, append-nil) (unfold join in refl)
join-split_from d token (c ∷ s) = elim (Bool-cases (c == d)) [
  | inl delim ↦
      rw (delim, keep-all, join-cons d token _ (split_from-ne-nil d [] s), join-split_from d [] s)
        (ap (λ (x : ℕ). token ++ x ∷ s) (ground (arith, delim)))
  | inr other ↦ rw other (join-split_from d (token ++ c ∷ []) s ∙ append_assoc token (c ∷ []) s)
]

-- Where empty tokens are kept, joining the tokens with the delimiter gives the text back.
pub join-split : (s : Str) (d : ℕ) → join d (split s d false) ≡ s
unfolding split
join-split s d = join-split_from d [] s
