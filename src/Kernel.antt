-- ===== src/Kernel.antt =====
-- The calls that join the parts of the kernel: message queues behind descriptors
-- (Assignment2/msg_queue.c) and the handlers of system calls (Assignment2/entry.c).
pub mod State
pub mod Queues
pub mod Files
pub mod Calls
pub mod Dispatch
pub mod System
mod Examples
