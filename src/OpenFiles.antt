-- ===== src/OpenFiles.antt =====
-- The table of open files of a process (Assignment2/file.c): opening, duplicating and closing
-- descriptors, and the calls on an open file.
pub mod State
pub mod Balance
pub mod Exit
pub mod Dup
pub mod Regular
pub mod Opening
mod Examples
