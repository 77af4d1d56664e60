-- ===== src/Logger/Lines.antt =====
-- A message is written line by line.
use forktrace.Prelude.{
  ◌≡◌, ◌≢◌, refl, ℤ, false, ◌==◌, Bool-cases, inl, inr, if◌then◌else◌, some, List, [], ◌∷◌, ◌++◌,
  Str, codes, ap,
}
use forktrace.Canvas.{Colour}
use forktrace.Util.{is_empty, split, split_from}
use forktrace.Util.Split.{split_from-ne-nil, keep-all}
use forktrace.Settings.{Log, Switches, is_log_enabled_for}
use forktrace.Logger.{write_lines, message_prefix, header, message_internal, message}

-- The lines, each with its beginning and a newline; the last part of a message is no line if it is
-- empty.
abbrev pub stamp : Str → Str → List Str → Str
stamp line prefix [] = []
stamp line prefix (t ∷ []) = if is_empty t then [] else line ++ t ++ codes "\n"
stamp line prefix (t ∷ u ∷ ts) = line ++ t ++ 10 ∷ stamp prefix prefix (u ∷ ts)

stamp-more :
    (line prefix t : Str) (ts : List Str)
    → ts ≢ []
    → stamp line prefix (t ∷ ts) ≡ line ++ t ++ 10 ∷ stamp prefix prefix ts
stamp-more line prefix t [] h = absurd (h refl)
stamp-more line prefix t (u ∷ ts) h = refl

write_lines-stamp :
    (line prefix read s : Str)
    → write_lines line prefix read s ≡ stamp line prefix (split_from 10 false read s)
unfolding write_lines split_from
write_lines-stamp line prefix read [] = rw (keep-all read []) refl
write_lines-stamp line prefix read (c ∷ s) = elim (Bool-cases (c == 10)) [
  | inl newline ↦
      rw
        (
          newline,
          keep-all read (split_from 10 false [] s),
          stamp-more line prefix read (split_from 10 false [] s) (split_from-ne-nil 10 [] s),
        )
        (ap (λ (x : Str). line ++ read ++ 10 ∷ x) (write_lines-stamp prefix prefix [] s))
  | inr other ↦ rw other (write_lines-stamp line prefix (read ++ c ∷ []) s)
]

module _ (paint : Colour → Str → Str) (own_pid : ℤ) where
  -- A message whose category is switched on is written as the lines that a split at its newlines
  -- gives: each ends with a newline, also the last, and begins with the prefix, which the category's
  -- header follows in the first line. What follows the last newline is a line only if it is not
  -- empty. Where the category is switched off, nothing is written.
  pub message-stamp :
      (w : Switches) (category : Log) (text : Str)
      → message paint own_pid w category text ≡ (
          if is_log_enabled_for category w
          then stamp
              (message_prefix paint own_pid w ++ header paint own_pid w (some category))
              (message_prefix paint own_pid w)
              (split text 10 false)
          else [])
  unfolding message message_internal split
  message-stamp w category text =
      rw
        (write_lines-stamp
          (message_prefix paint own_pid w ++ header paint own_pid w (some category))
          (message_prefix paint own_pid w) [] text)
        refl
