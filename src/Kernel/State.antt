-- ===== src/Kernel/State.antt =====
-- What the calls of Assignment2/msg_queue.c and Assignment2/entry.c work on: file objects, message
-- queues by their addresses, the super block and the memory of the files.
use cs330_assignments.Base.{ℕ, Bool, Memory, update}
use cs330_assignments.MsgQueue.State.{MsgQueueInfo}
use cs330_assignments.FileSystem.State.{SuperBlock}
use cs330_assignments.OpenFiles.State.{Store}

pub record Kernel : Type 0 where
  pub store : Store
  pub queue : ℕ → MsgQueueInfo
  pub queue_live : ℕ → Bool
  pub sb : SuperBlock
  pub mem : Memory

-- The queue of the object at an address, by its own address.
abbrev pub queue_of : Kernel → ℕ → ℕ
queue_of k a = (k.store.object a).msg_queue

abbrev pub set_queue : Kernel → ℕ → MsgQueueInfo → Kernel
set_queue k a q = record k { queue = update k.queue a q }
