-- ===== src/Interface.antt =====
-- The user interface (src/tracer/forktrace.cpp): the commands, the command loop, and the keys of the
-- scroll view.
pub mod Scroll
pub mod Inside
pub mod Commands
pub mod Sound
pub mod Console
pub mod CommandLine
pub mod Registered
pub mod Steady
pub mod Typed
pub mod Prompted
pub mod Orderly
pub mod Go
pub mod Sizes
pub mod Drawn
