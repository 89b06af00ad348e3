-- ===== src/Debugger.antt =====
-- Assignment4/debug.c (Assignment3/mmap.c is the same text): the debugger of the GemOS kernel.
pub mod State
pub mod Breakpoints
pub mod Trap
pub mod Processes
mod Examples
