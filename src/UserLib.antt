-- ===== src/UserLib.antt =====
-- The library of user programs (Assignment2/user/lib.c): its system calls, printf and ustrcmp.
pub mod Numbers
pub mod Wrappers
pub mod Meaning
pub mod Printf
pub mod Compare
mod Examples
