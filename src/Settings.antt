-- ===== src/Settings.antt =====
-- What the options and the commands set: `Forktrace::Options` (src/tracer/forktrace.hpp) and the
-- switches of the log and of colours (src/tracer/log.cpp, src/tracer/terminal.cpp).
use forktrace.Prelude.{ℕ, ◌+◌, Bool, true, false, if◌then◌else◌}
use forktrace.Diagram.{show_execs, show_failed_execs, show_non_fatal_signals, show_signal_sends}

-- `Options`, and what a default-constructed one holds.
pub record Settings : Type 0 where
  pub reaper : Bool
  pub show_non_fatal : Bool
  pub show_all_execs : Bool
  pub show_bad_execs : Bool
  pub show_sends : Bool
  pub merge_execs : Bool
  pub lane_width : ℕ
  pub force_scroll_view : Bool

abbrev pub default_settings : Settings
default_settings = record {
  reaper = true;
  show_non_fatal = false;
  show_all_execs = true;
  show_bad_execs = false;
  show_sends = false;
  merge_execs = true;
  lane_width = 4;
  force_scroll_view = false;
}

-- The categories of the log.
pub data Log : Type 0 where
  log_error log_warn log_log log_verb log_dbg : Log

-- `gLogCategoryEnabled` and `gColourEnabled`.
pub record Switches : Type 0 where
  pub error_on : Bool
  pub warn_on : Bool
  pub log_on : Bool
  pub verb_on : Bool
  pub dbg_on : Bool
  pub colour_on : Bool

-- `set_log_category_enabled`, `is_log_enabled_for` and `set_colour_enabled`.
unfoldable pub set_log_category_enabled : Log → Bool → Switches → Switches
set_log_category_enabled log_error on w = record w { error_on = on }
set_log_category_enabled log_warn on w = record w { warn_on = on }
set_log_category_enabled log_log on w = record w { log_on = on }
set_log_category_enabled log_verb on w = record w { verb_on = on }
set_log_category_enabled log_dbg on w = record w { dbg_on = on }

unfoldable pub is_log_enabled_for : Log → Switches → Bool
is_log_enabled_for log_error w = w.error_on
is_log_enabled_for log_warn w = w.warn_on
is_log_enabled_for log_log w = w.log_on
is_log_enabled_for log_verb w = w.verb_on
is_log_enabled_for log_dbg w = w.dbg_on

unfoldable pub set_colour_enabled : Bool → Switches → Switches
set_colour_enabled on w = record w { colour_on = on }

-- The part of `init_log` that sets the switches.
unfoldable pub init_switches : Switches → Switches
unfolding set_log_category_enabled
init_switches w = set_log_category_enabled log_dbg false (
    set_log_category_enabled log_verb false (
      set_log_category_enabled log_log true
        (set_log_category_enabled log_warn true (set_log_category_enabled log_error true w))))

-- `MERGE_EXECS` of `Diagram::Options`.
abbrev pub merge_execs_flag : ℕ
merge_execs_flag = 16

-- The flags that `draw_tree` gives the diagram. Each is a bit of its own, so that `|=` adds it.
unfoldable pub diagram_flags : Settings → ℕ
diagram_flags o =
    (if o.show_non_fatal then show_non_fatal_signals else 0)
    + (if o.show_all_execs then show_execs else 0)
    + (if o.show_bad_execs then show_failed_execs else 0)
    + (if o.show_sends then show_signal_sends else 0)
    + (if o.merge_execs then merge_execs_flag else 0)
