-- ===== src/MsgQueue/Messages.antt =====
-- Sending, receiving and counting messages (Assignment2/msg_queue.c). `pid` is that of the calling
-- process; a queue is `none` where the file or its queue is null, and a message where its
-- pointer is.
pub mod Inbox
pub mod Receive
pub mod Send
pub mod Broadcast
use cs330_assignments.Base.{
  ℕ, zero, suc, ◌+◌, ◌-◌, Bool, true, false, ◌||◌, not, Option, none, some, ℤ, pos, ◌==◌,
  if◌then◌else◌, update,
}
use cs330_assignments.MsgQueue.State.{
  einval, max_members, max_processes, broadcast_pid, Message, MsgQueueInfo, is_member, block_loop,
  append, shift_loop,
}

-- The first waiting message for a process, with `rounds` messages left from `i` on.
unfoldable pub find_loop : ℕ → ℕ → ℕ → (ℕ → Message) → Option ℕ
find_loop zero i pid msgs = none
find_loop (suc rounds) i pid msgs =
    let rest = find_loop rounds (suc i) pid msgs in if (msgs i).to_pid == pid then some i else rest

-- The result, what is written to the caller's message, if anything is, and the queue.
unfoldable pub receive : ℕ → MsgQueueInfo → ℤ × Option Message × MsgQueueInfo
receive pid q = elim (find_loop q.msg_count 0 pid q.msg_buffer) [
  | none ↦ (pos 0, none, q)
  | some i ↦ (
    pos 1,
    some (q.msg_buffer i),
    record q {
      msg_buffer = shift_loop (q.msg_count - 1 - i) i q.msg_buffer;
      msg_count = q.msg_count - 1;
    },
  )
]

-- `has_msg` says that the caller's message is not null.
unfoldable pub do_msg_queue_rcv :
    ℕ → Bool → Option MsgQueueInfo → ℤ × Option Message × Option MsgQueueInfo
do_msg_queue_rcv pid false q = (einval, none, q)
do_msg_queue_rcv pid true none = (einval, none, none)
do_msg_queue_rcv pid true (some q) =
    if is_member pid q
    then (let r = receive pid q in (r.0, r.1, some r.2))
    else (einval, none, some q)

-- A broadcast, at member `i` with `rounds` members left.
unfoldable pub broadcast_loop : ℕ → ℕ → ℕ → ℕ → Message → MsgQueueInfo → Option (ℤ × MsgQueueInfo)
broadcast_loop zero i delivered pid msg q = some (pos delivered, q)
broadcast_loop (suc rounds) i delivered pid msg q =
    let skip = broadcast_loop rounds (suc i) delivered pid msg q in
    if (q.member_pid i == pid) || block_loop max_members i 0 pid q.block_process
    then skip
    else elim (append q (record msg { to_pid = q.member_pid i })) [
      | none ↦ none
      | some q' ↦ broadcast_loop rounds (suc i) (delivered + 1) pid msg q'
    ]

-- A message for one member, at member `i` with `rounds` members left. The row of the receiver is
-- read over `max_processes` columns.
unfoldable pub unicast_loop : ℕ → ℕ → ℕ → Message → MsgQueueInfo → Option (ℤ × MsgQueueInfo)
unicast_loop zero i pid msg q = some (einval, q)
unicast_loop (suc rounds) i pid msg q =
    let rest = unicast_loop rounds (suc i) pid msg q in
    if q.member_pid i == msg.to_pid
    then (if block_loop max_processes i 0 pid q.block_process
        then some (einval, q)
        else elim (append q msg) [ none ↦ none | some q' ↦ some (pos 1, q') ])
    else rest

unfoldable pub send : ℕ → Message → MsgQueueInfo → Option (ℤ × MsgQueueInfo)
send pid msg q =
    if not (msg.from_pid == pid) || (msg.from_pid == msg.to_pid)
    then some (einval, q)
    else if msg.to_pid == broadcast_pid
    then broadcast_loop q.member_count 0 0 pid msg q
    else unicast_loop q.member_count 0 pid msg q

-- `none` where a write would leave the page of the messages.
unfoldable pub do_msg_queue_send :
    ℕ → Option Message → Option MsgQueueInfo → Option (ℤ × Option MsgQueueInfo)
do_msg_queue_send pid msg none = some (einval, none)
do_msg_queue_send pid none (some q) = some (einval, some q)
do_msg_queue_send pid (some msg) (some q) =
    if is_member pid q
    then elim (send pid msg q) [ none ↦ none | some r ↦ some (r.0, some r.1) ]
    else some (einval, some q)

-- The loop that counts the messages for a process.
unfoldable pub count_loop : ℕ → ℕ → ℕ → ℕ → (ℕ → Message) → ℕ
count_loop zero i pid addressed msgs = addressed
count_loop (suc rounds) i pid addressed msgs =
    count_loop rounds (suc i) pid (if (msgs i).to_pid == pid then addressed + 1 else addressed) msgs

unfoldable pub do_get_msg_count : ℕ → Option MsgQueueInfo → ℤ
do_get_msg_count pid none = einval
do_get_msg_count pid (some q) =
    if is_member pid q then pos (count_loop q.msg_count 0 pid 0 q.msg_buffer) else einval
