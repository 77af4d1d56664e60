-- ===== src/Util/Strip.antt =====
-- What `strip` takes off.
use forktrace.Prelude.{
  ◌≡◌, refl, ap, ◌∙◌, Bool, true, not, ◌&&◌, Bool-cases, inl, inr, if◌then◌else◌, [], ◌∷◌, ◌++◌,
  Str, arith,
}
use forktrace.Util.Chars.{is_space}
use forktrace.Util.{is_empty, drop_spaces, trim_end, strip}

abbrev pub all_space : Str → Bool
all_space [] = true
all_space (c ∷ s) = is_space c && all_space s

-- No whitespace at the beginning, or at the end.
abbrev pub clean_start : Str → Bool
clean_start [] = true
clean_start (c ∷ s) = not (is_space c)

abbrev pub clean_end : Str → Bool
clean_end [] = true
clean_end (c ∷ s) = if is_empty s then not (is_space c) else clean_end s

drop_spaces_splits :
    (s : Str)
    → (a : Str) × (s ≡ a ++ drop_spaces s)
      × (all_space a ≡ true)
      × (clean_start (drop_spaces s) ≡ true)
unfolding drop_spaces
drop_spaces_splits [] = ([], refl, refl, refl)
drop_spaces_splits (c ∷ s) = elim (Bool-cases (is_space c)) [
  | inl blank ↦
      let (a, whole, spaces', clean) = drop_spaces_splits s in
      (
        c ∷ a,
        ground (arith, blank, whole),
        ground (arith, blank, spaces'),
        ground (arith, blank, clean),
      )
  | inr ink' ↦ ([], rw ink' refl, refl, ground (arith, ink'))
]

trim_end_splits :
    (s : Str)
    → (b : Str) × (s ≡ trim_end s ++ b) × (all_space b ≡ true) × (clean_end (trim_end s) ≡ true)
unfolding trim_end
trim_end_splits [] = ([], refl, refl, refl)
trim_end_splits (c ∷ s) = elim (Bool-cases (is_space c && is_empty (trim_end s))) [
  | inl gone ↦
      let (b, whole, spaces', clean) = trim_end_splits s in
      (c ∷ b, ground (arith, gone, whole), ground (arith, gone, spaces'), ground (arith, gone))
  | inr kept ↦
      let (b, whole, spaces', clean) = trim_end_splits s in
      (b, ground (arith, kept, whole), spaces', ground (arith, kept, clean))
]

clean_start-trim_end : (s : Str) → clean_start s ≡ true → clean_start (trim_end s) ≡ true
unfolding trim_end
clean_start-trim_end [] h = refl
clean_start-trim_end (c ∷ s) h = ground arith

-- `strip` takes off whitespace in front and behind, nothing else, and leaves none at either end.
pub strip_splits :
    (s : Str)
    → (a : Str) × (b : Str) × (s ≡ a ++ (strip s ++ b))
      × (all_space a ≡ true)
      × (all_space b ≡ true)
      × (clean_start (strip s) ≡ true)
      × (clean_end (strip s) ≡ true)
unfolding strip
strip_splits s =
    let (a, front, blank_a, start') = drop_spaces_splits s in
    let (b, back, blank_b, end') = trim_end_splits (drop_spaces s) in
    (
      a,
      b,
      front ∙ ap (λ t. a ++ t) back,
      blank_a,
      blank_b,
      clean_start-trim_end (drop_spaces s) start',
      end',
    )
