-- ===== src/MsgQueue.antt =====
-- Assignment2/msg_queue.c: message queues between processes.
pub mod State
pub mod Shift
pub mod Messages
pub mod Members
pub mod Rows
pub mod Faults
mod Examples
