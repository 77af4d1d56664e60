-- ===== src/Tests/Text.antt =====
-- Runs of the helpers on text (src/tracer/util.cpp, src/tracer/text-wrap.cpp).
use forktrace.Prelude.{
  ◌≡◌, refl, inl, true, false, some, List, [], ◌∷◌, length, map, Str, codes, arith,
}
use forktrace.Util.{join, split, split_from}
use forktrace.Util.Split.{join-split}
use forktrace.Util.Escape.{escaped_string, escape_all, escape_char, hex_digit}
use forktrace.TextWrap.{
  assign_lines, fill, words_of, wrap_text, collect, show_paragraph, spread, render,
}
use forktrace.TextWrap.Greedy.{concat, AllFit, assign_lines-concat, assign_lines-AllFit}
use forktrace.TextWrap.Justify.{render-Fits}
use forktrace.TextWrap.Total.{ink, wrap_text-ink}

abbrev some_words : List Str
some_words = codes "one" ∷ codes "two" ∷ codes "threefour" ∷ codes "x" ∷ []

escaped_tab : escaped_string (codes "a\tb") ≡ codes "\"a\\x09b\""
unfolding escaped_string escape_all escape_char hex_digit
escaped_tab = refl

justified : wrap_text (codes "a b c d") 6 1 true ≡ some (codes " a b c\n d\n")
unfolding wrap_text collect show_paragraph spread render split split_from assign_lines fill join
justified = refl

join-split_example : join b',' (split (codes "a,,b") b',' false) ≡ codes "a,,b"
join-split_example = join-split (codes "a,,b") b','

assign_lines-concat_example :
    concat (map (words_of some_words) (assign_lines some_words 7)) ≡ some_words
assign_lines-concat_example = assign_lines-concat some_words 7

assign_lines-AllFit_example : AllFit 7 (map (words_of some_words) (assign_lines some_words 7))
assign_lines-AllFit_example = assign_lines-AllFit some_words 7

wrap_text-ink_example :
    (out : Str) × (wrap_text (codes "a b\n\nc") 4 1 true ≡ some out)
    × (ink out ≡ ink (codes "a b\n\nc"))
wrap_text-ink_example = wrap_text-ink (codes "a b\n\nc") 4 1 true

render-Fits_example :
    (text : Str) × (render (codes "ab" ∷ codes "c" ∷ codes "d" ∷ []) false 9 ≡ some text)
    × (length text ≡ 9)
render-Fits_example =
    render-Fits (codes "ab" ∷ codes "c" ∷ codes "d" ∷ []) false 9 (omega arith, inl (omega arith))
