-- ===== src/Util.antt =====
-- String helpers (src/tracer/util.cpp). A string is its list of bytes.
pub mod Chars
pub mod Split
pub mod Strip
pub mod Escape
use forktrace.Util.Chars.{is_space}
use forktrace.Prelude.{Bool, true, false, ◌&&◌, ◌==◌, if◌then◌else◌, ℕ, List, [], ◌∷◌, ◌++◌, Str}

-- `get_base_name`: what follows the last '/', or the whole path.
has_slash : Str → Bool
has_slash [] = false
has_slash (c ∷ s) = if c == b'/' then true else has_slash s

unfoldable pub get_base_name : Str → Str
unfolding has_slash
get_base_name [] = []
get_base_name (c ∷ s) =
    let rest = get_base_name s in if has_slash s then rest else if c == b'/' then s else c ∷ s

-- `join`, with the separator that the source uses for arguments as its default.
unfoldable pub join : ℕ → List Str → Str
join sep [] = []
join sep (s ∷ []) = s
join sep (s ∷ t ∷ ts) = s ++ sep ∷ join sep (t ∷ ts)

abbrev pub is_empty : Str → Bool
is_empty [] = true
is_empty (c ∷ s) = false

-- A token is kept unless it is empty and empty ones are ignored.
abbrev pub keep : Bool → Str → List Str → List Str
keep ignore token rest = if is_empty token && ignore then rest else token ∷ rest

-- The loop of `split_internal`; `token` is what was read since the last delimiter.
unfoldable pub split_from : ℕ → Bool → Str → Str → List Str
split_from delim ignore token [] = keep ignore token []
split_from delim ignore token (c ∷ s) =
    let next = keep ignore token (split_from delim ignore [] s) in
    let more = split_from delim ignore (token ++ c ∷ []) s in if c == delim then next else more

-- `split` and `split_views`.
unfoldable pub split : Str → ℕ → Bool → List Str
unfolding split_from
split s delim ignore = split_from delim ignore [] s

-- `strip`: the leading whitespace, then the trailing.
unfoldable pub drop_spaces : Str → Str
drop_spaces [] = []
drop_spaces (c ∷ s) = let rest = drop_spaces s in if is_space c then rest else c ∷ s

unfoldable pub trim_end : Str → Str
trim_end [] = []
trim_end (c ∷ s) = let rest = trim_end s in if is_space c && is_empty rest then [] else c ∷ rest

unfoldable pub strip : Str → Str
unfolding drop_spaces trim_end
strip s = trim_end (drop_spaces s)
