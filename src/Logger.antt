-- ===== src/Logger.antt =====
-- The messages of the log (src/tracer/log.cpp): every line of a message gets the prefix.
pub mod Lines
use forktrace.Prelude.{
  ℕ, ◌+◌, ℤ, Bool, true, false, ◌==◌, if◌then◌else◌, Option, none, some, List, [], ◌∷◌, ◌++◌, Str,
  codes,
}
use forktrace.Canvas.{Colour}
use forktrace.Util.{is_empty}
use forktrace.Diagram.Events.{show_int}
use forktrace.Settings.{
  Log, log_error, log_warn, log_log, log_verb, log_dbg, Switches, is_log_enabled_for,
}

-- `PREFIX_COLOUR` and the colours of the headers.
abbrev pub prefix_colour : Colour
prefix_colour = 1

abbrev pub error_colour : Colour
error_colour = 134

abbrev pub warning_colour : Colour
warning_colour = 136

abbrev pub debug_colour : Colour
debug_colour = 129

-- The loop of `message_internal` and what follows it: `line` is what the next line begins with, `read`
-- the bytes of the message since the last newline.
unfoldable pub write_lines : Str → Str → Str → Str → Str
write_lines line prefix read [] = if is_empty read then [] else line ++ read ++ codes "\n"
write_lines line prefix read (c ∷ s) =
    let next = write_lines prefix prefix [] s in
    let more = write_lines line prefix (read ++ c ∷ []) s in
    if c == 10 then line ++ read ++ 10 ∷ next else more

-- `colour`, whose escape codes the fmt library makes, and `getpid()`.
module _ (paint : Colour → Str → Str) (own_pid : ℤ) where
  unfoldable pub colour : Switches → Colour → Str → Str
  colour w c s = if w.colour_on then paint c s else s

  unfoldable pub header : Switches → Option Log → Str
  unfolding colour
  header w (some log_error) = colour w error_colour (codes "error: ")
  header w (some log_warn) = colour w warning_colour (codes "warning: ")
  header w (some log_dbg) = colour w debug_colour (codes "debug: ")
  header w (some log_log) = []
  header w (some log_verb) = []
  header w none = []

  abbrev pub message_prefix : Switches → Str
  message_prefix w = colour w prefix_colour (codes "[" ++ show_int own_pid ++ codes "] ")

  -- `message_internal`: what it writes to stderr.
  unfoldable pub message_internal : Switches → Option Log → Str → Str
  unfolding header colour write_lines
  message_internal w category message =
      write_lines (message_prefix w ++ header w category) (message_prefix w) [] message

  -- `message`: nothing where the category is switched off.
  unfoldable pub message : Switches → Log → Str → Str
  unfolding message_internal is_log_enabled_for
  message w category text =
      if is_log_enabled_for category w then message_internal w (some category) text else []
