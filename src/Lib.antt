-- ===== src/Lib.antt =====
-- forktrace runs a program under ptrace, keeps the tree of its processes with the history of each, and
-- draws the tree as a diagram of lines and lanes; an interactive mode reads commands. This library
-- models the parts that decide what is recorded and drawn.
--
-- - Prelude: shared names, Boolean tests, lists, the integers (ℤ over the native ℕ), strings of bytes.
-- - Util: src/tracer/util.cpp (join, split, strip, get_base_name, escaped_string).
-- - Status: the macros on wait statuses of src/tracer/ptrace.hpp and <sys/wait.h>.
-- - Event: the data of src/tracer/event.hpp. The subclasses of Event are the constructors of Kind, a
--   Process& is the address (Ref) of the process.
-- - Process, Tree: src/tracer/process.cpp. A Process record has the fields of the class; its history
--   lists the latest event first. The methods that change one process are functions of it, in
--   Process.antt; those that change two are functions of the heap, in Tree.antt, where `notify` runs
--   any of them and `notify_all` a sequence. A Fault is a ProcessTreeError, a failed assertion, or
--   what C++ does not define: a read outside the vector, a reference that dangles. What was changed
--   before a fault stays changed. A vector's room doubles when it is full, as in the usual standard
--   libraries: since a history only grows at its end, the room follows from the length (`capacity`).
--   Process/Search is about the loops for the latest wait; below Tree are the proofs: Coherence,
--   Lifecycle, Waits, Signals (with Capacity), CommandLine.
-- - Diagram: src/tracer/diagram.cpp. Diagram.antt has the search for the next event, Diagram/Lines
--   the lines (_build_next_line and what it calls), Diagram/Lanes the lanes
--   (_allocate_process_to_lane), Diagram/Events the draw functions of
--   src/tracer/event.cpp, Diagram/Draw the picture (_draw_line, _draw). `none` is a failed assertion.
-- - TextWrap: src/tracer/text-wrap.cpp. `none` is a failed assertion.
-- - Command: src/tracer/command.cpp: the tokens of a line, and in Command/Table the table of commands
--   and do_command, on the line that read_line gives.
-- - Canvas: the Window of src/tracer/terminal.cpp, and in Canvas/Drawer the Drawer of
--   src/tracer/diagram.cpp. `none` is a failed assertion or a drawer that was not started.
-- - ScrollView: the cursor and the layout of src/tracer/scroll-view.cpp, in numbers of the width of
--   size_t.
-- - Action: actions on a state that may throw, with the errors of the tracer.
-- - Kernel: the system calls that the tracer makes, a parameter. Where a theorem assumes
--   something of them, it says so.
-- - Ptrace: src/tracer/ptrace.cpp, the parent's side. An out-parameter is part of the result, `none`
--   is false (the tracee is gone).
-- - Tracer: src/tracer/tracer.cpp. A World has the fields of the class Tracer, the heap of the process
--   tree and the state of the kernel. A Tracee& is the pid, and `dangling` the use of one that was
--   erased. Stops has the waits and resumptions, WaitCall the blocking calls, Handlers and Entry the
--   stops, Loop the public functions. Recycle and Awake have proofs on single calls, Sound those on
--   all: Maps, Notices and Changes on the data, Rules and Live for the parts of a handler, then a module for
--   each part.
-- - Parse, Options: src/tracer/parse.cpp, src/tracer/parse.hpp and src/tracer/main.cpp. ArgParser is a list
--   of groups of options; what its functions return is an Outcome, `refused` with what is printed, and a
--   handler is a function of a state, `thrown` where it throws. Options/Register has forktrace's own
--   options and main. Members and Table are about the table, Long and Cluster about the flags, Leftover
--   about the arguments that are left over.
-- - Settings: Forktrace::Options and the switches of the log and of colours. Logger: src/tracer/log.cpp.
-- - Texts: the texts of events, signals and statuses (to_string in src/tracer/event.cpp,
--   src/tracer/system.cpp, strerror_s of src/tracer/util.cpp).
-- - Interface: src/tracer/forktrace.cpp. Commands has the commands as actions on the tracer, the options
--   and the trees, with the constructor of Diagram; Console what a command leaves when it throws, and
--   the table of commands; CommandLine the loop, on a sequence of what is typed, of orphans that the
--   reaper sends and of interrupts; Scroll the keys of the scroll view, over Diagram/Cursor (find and
--   get_coords of src/tracer/diagram.cpp). Sound, Registered, Steady, Typed, Prompted and Orderly are
--   the proofs on the commands and the loop, Go that on do_go, Inside, Sizes and Drawn those on the
--   scroll view.
-- - Tests: runs of the model, and the theorems at concrete inputs.
--
-- Bounds and fuel. Registers, the indices of the search for a wait and the sizes of the picture
-- wrap around as in the source (`wrap_add`, `wrap_mul`, `wrap_sub`); other integers are unbounded:
-- the counts of events, lines and words stay far below the widths of the source's types. `tokens_from` and `extract` take the length of the line and one more
-- as their fuel, which is enough; `allocate` takes a bound on the addresses, which is enough where
-- processes fork later ones only. `redraw` takes a number of rounds and tells whether they sufficed:
-- what it builds in fewer rounds is the beginning of the diagram.
--
-- The tracer takes fuel for the strings that it reads (a number of words, and of strings) and for the
-- wait for a child that is killed, and `step` and `start` a number of rounds of their loops; where one
-- of them does not suffice, the run ends with the error `starved`, which the source does not have. A
-- process may run on for ever, so no number is enough in general.
--
-- The interface takes one number more, for the rounds of do_go and of the diagram. The fuel of
-- `event_text` is the depth of its recursion: two are enough where the child of a reap has died. The
-- search for a wait takes one round for each event and one more, after which it reads outside the
-- vector.
--
-- Not modelled: the lock of the tracer, whose functions run here one after another, those that another
-- thread calls between two commands; the child's side of a start (setup_child of
-- src/tracer/ptrace.cpp); the calls of curses (src/tracer/scroll-view.cpp) and of readline; the start
-- of the reaper, the signal handlers and the joins of threads (src/tracer/forktrace.cpp,
-- src/reaper/reaper.c); help texts and the debugging output of print and print_tree. The table of
-- system calls is made by the build, the escape codes of colours by the fmt library, and the texts of
-- error numbers by the C library: they are parameters.
pub mod Prelude
pub mod Util
pub mod Status
pub mod Event
pub mod Process
pub mod Tree
pub mod Diagram
pub mod TextWrap
pub mod Command
pub mod Canvas
pub mod ScrollView
pub mod Action
pub mod Kernel
pub mod Ptrace
pub mod Tracer
pub mod Parse
pub mod Settings
pub mod Options
pub mod Logger
pub mod Texts
pub mod Interface
pub mod Tests
