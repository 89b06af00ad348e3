-- ===== src/MsgQueue/Messages/Send.antt =====
-- `do_msg_queue_send` of Assignment2/msg_queue.c for a message to one process.
use cs330_assignments.Base.{
  ℕ, suc, ◌+◌, ◌≤◌, ◌<◌, ◌≡◌, ◌≢◌, inl, inr, refl, ap, true, false, Option, none, some, [], ◌∷◌,
  ◌++◌, ℤ, pos, arith, leb, ltb, if◌then◌else◌, update, slice-suc, slice-ext, Bool-cases,
}
use cs330_assignments.MsgQueue.State.{
  Message, MsgQueueInfo, pending, members, append, einval, slot_address, message_size, buffer_size,
  max_processes,
}
use cs330_assignments.MsgQueue.Rows.{max_messages, holds, entries_from}
use cs330_assignments.MsgQueue.Messages.Inbox.{inbox}

-- The queue with one more message.
abbrev pub appended : MsgQueueInfo → Message → MsgQueueInfo
appended q msg = record q {
  msg_buffer = update q.msg_buffer q.msg_count msg;
  msg_count = q.msg_count + 1;
}

pub append-appended :
    (q : MsgQueueInfo) (msg : Message)
    → append q msg ≡ (if ltb q.msg_count max_messages then some (appended q msg) else none)
unfolding append slot_address
append-appended q msg = elim (Bool-cases (ltb q.msg_count max_messages)) [
  | inl room ↦
      let fits : leb (slot_address 0 q.msg_count + message_size) buffer_size ≡ true =
        ground arith in
      rw (append, fits, room) refl
  | inr full ↦
      let late : leb (slot_address 0 q.msg_count + message_size) buffer_size ≡ false =
        ground arith in
      rw (append, late, full) refl
]

pub pending-appended :
    (q : MsgQueueInfo) (msg : Message) → pending (appended q msg) ≡ pending q ++ msg ∷ []
pending-appended q msg =
    let one : q.msg_count + 1 ≡ suc q.msg_count = omega arith in
    let here : update q.msg_buffer q.msg_count msg q.msg_count ≡ msg = ground arith in
    rw
      (
        one,
        slice-suc (update q.msg_buffer q.msg_count msg) 0 q.msg_count q.msg_count (omega arith),
        here,
      )
      (ap (λ l. l ++ msg ∷ []) (slice-ext _ q.msg_buffer 0 q.msg_count (λ j h l. ground arith)))

-- A message reaches the process that it is for, behind what waits there, and no other.
pub record Delivers (q : MsgQueueInfo) (msg : Message) (q' : MsgQueueInfo) : Type 0 where
  pub newest : inbox msg.to_pid q' ≡ inbox msg.to_pid q ++ msg ∷ []
  pub others : (p : ℕ) → p ≢ msg.to_pid → inbox p q' ≡ inbox p q
  pub count : q'.msg_count ≡ suc q.msg_count
  pub kept :
      (q'.member_count ≡ q.member_count)
      × (q'.member_pid ≡ q.member_pid)
      × (q'.block_process ≡ q.block_process)

-- The first member with a process id is at an index.
pub record At (pid i : ℕ) (q : MsgQueueInfo) : Type 0 where
  pub in_range : i < q.member_count
  pub holds : q.member_pid i ≡ pid

-- How a send to one process ends, by the receiver's index and its row of the matrix.
pub data Unicast (pid : ℕ) (msg : Message) (q : MsgQueueInfo)
    : Option (ℤ × MsgQueueInfo) → Type 0 where
  no_member : holds msg.to_pid (members q) ≡ false → Unicast pid msg q (some (einval, q))
  blocked :
      (i : ℕ)
      → At msg.to_pid i q
      → holds pid (entries_from i max_processes q) ≡ true
      → Unicast pid msg q (some (einval, q))
  overflow : (i : ℕ) → At msg.to_pid i q → max_messages ≤ q.msg_count → Unicast pid msg q none
  delivered :
      {q' : MsgQueueInfo} (i : ℕ)
      → At msg.to_pid i q
      → holds pid (entries_from i max_processes q) ≡ false
      → q.msg_count < max_messages
      → Delivers q msg q'
      → Unicast pid msg q (some (pos 1, q'))
