-- ===== src/Kernel/System/Safety.antt =====
-- The message queues of all processes, over any sequence of calls (Assignment2/msg_queue.c and the
-- handlers of Assignment2/entry.c).
use cs330_assignments.Base.{ℕ, ◌+◌, ◌<◌, ◌≡◌, ◌≢◌, false, Option, none, some, ℤ}
use cs330_assignments.MsgQueue.State.{MsgQueueInfo, Message, max_members}
use cs330_assignments.MsgQueue.Rows.{max_messages}
use cs330_assignments.MsgQueue.Members.Keeps.{sends}
use cs330_assignments.OpenFiles.State.{Store}
use cs330_assignments.Kernel.State.{Kernel, queue_of}
use cs330_assignments.Kernel.Calls.{queue_at, put_queue, call_msg_queue_send}
use cs330_assignments.Kernel.System.{System, do_fork, sends as send_step, Reach}
use cs330_assignments.Kernel.System.Agreement.{Agrees, held}

-- How far a sequence of calls leaves members and descriptors in agreement: they agree, or the last
-- call was a fork or a send, from a state in which they agree, that lacked the room which it needs.
pub data Outcome (s : System) : Option System → Type 0 where
  in_agreement : {s' : System} → Agrees s' → Outcome s (some s')
  fork_overflows :
      {t : System} (setup : Store → Store) (pid child a : ℕ)
      → Reach s (some t)
      → Agrees t
      → do_fork setup pid child t ≡ none
      → a ≢ 0
      → max_members < (t.kernel.queue a).member_count + held t pid a
      → Outcome s none
  send_overflows :
      {t : System} {q : MsgQueueInfo} (pid fd : ℕ) (msg : Option Message)
      → Reach s (some t)
      → Agrees t
      → call_msg_queue_send pid fd msg (t.table pid) t.kernel ≡ none
      → queue_at t.kernel (t.table pid fd) ≡ some q
      → max_messages < q.msg_count + q.member_count
      → Outcome s none

-- What a send leaves of the kernel.
abbrev sent_to : System → ℕ → ℕ → Option (ℤ × Option MsgQueueInfo) → Option (ℤ × Kernel)
sent_to t pid fd none = none
sent_to t pid fd (some (z, q)) = some (z, put_queue t.kernel (t.table pid fd) q)

-- There are no queues yet.
pub record Boot (s : System) : Type 0 where
  pub none_live : (a : ℕ) → s.kernel.queue_live a ≡ false
  pub none_open : (p fd : ℕ) → s.table p fd ≢ 0 → queue_of s.kernel (s.table p fd) ≡ 0
