-- ===== src/MsgQueue/State.antt =====
-- The structures of Assignment2/include/msg_queue.h, and the tests and loops that the calls of
-- Assignment2/msg_queue.c share.
use cs330_assignments.Base.{
  ℕ, zero, suc, ◌+◌, ◌*◌, Bool, true, false, ◌||◌, Option, none, some, List, ℤ, negsuc, leb, ◌==◌,
  if◌then◌else◌, update, slice,
}

-- `-EINVAL` and `-ENOMEM`.
abbrev pub einval : ℤ
einval = negsuc 0

abbrev pub enomem : ℤ
enomem = negsuc 4

abbrev pub max_members : ℕ
max_members = 4

abbrev pub max_processes : ℕ
max_processes = 7

abbrev pub broadcast_pid : ℕ
broadcast_pid = 0xffff_ffff

-- The page that alloc_buffer gets for the messages, and `sizeof(struct message)`.
abbrev pub buffer_size : ℕ
buffer_size = 4096

abbrev pub message_size : ℕ
message_size = 32

-- -1 in an `int`.
abbrev pub no_pid : ℕ
no_pid = 0xffff_ffff

-- `msg_txt` is its characters.
pub record Message : Type 0 where
  pub from_pid : ℕ
  pub to_pid : ℕ
  pub msg_txt : List ℕ

-- `msg_buffer i` is the message that the i-th pointer leads to, and `block_process` is the matrix
-- row by row, with what lies behind it.
pub record MsgQueueInfo : Type 0 where
  pub member_count : ℕ
  pub member_pid : ℕ → ℕ
  pub msg_count : ℕ
  pub msg_buffer : ℕ → Message
  pub block_process : ℕ → ℕ

-- The members, in the order of the array.
abbrev pub members : MsgQueueInfo → List ℕ
members q = slice q.member_pid 0 q.member_count

-- The messages that wait, oldest first.
abbrev pub pending : MsgQueueInfo → List Message
pending q = slice q.msg_buffer 0 q.msg_count

-- The loop that sets `check`, with `rounds` members left from `i` on.
unfoldable pub member_loop : ℕ → ℕ → ℕ → (ℕ → ℕ) → Bool
member_loop zero i pid member_pid = false
member_loop (suc rounds) i pid member_pid =
    let rest = member_loop rounds (suc i) pid member_pid in
    if member_pid i == pid then true else rest

-- Whether a process is a member.
abbrev pub is_member : ℕ → MsgQueueInfo → Bool
is_member pid q = member_loop q.member_count 0 pid q.member_pid

-- The loop that sets `block_check`, over `rounds` entries of row `i` from column `j` on.
unfoldable pub block_loop : ℕ → ℕ → ℕ → ℕ → (ℕ → ℕ) → Bool
block_loop zero i j pid block = false
block_loop (suc rounds) i j pid block =
    block_loop rounds i (suc j) pid block || (block (i * max_members + j) == pid)

-- Where the source puts the i-th message, from the address of the first: the offset is scaled by
-- the size of a message twice.
unfoldable pub slot_address : ℕ → ℕ → ℕ
slot_address base i = base + i * message_size * message_size

-- A message behind the last one; `none` where it is written behind the page of the messages, which
-- comes long before the end of the 128 pointers.
unfoldable pub append : MsgQueueInfo → Message → Option MsgQueueInfo
append q msg =
    if leb (slot_address 0 q.msg_count + message_size) buffer_size
    then some
        (record q { msg_buffer = update q.msg_buffer q.msg_count msg; msg_count = q.msg_count + 1 })
    else none

-- `a[j] = a[j + 1]` for `rounds` values of `j`.
unfoldable pub shift_loop : {A : Type 0} → ℕ → ℕ → (ℕ → A) → ℕ → A
shift_loop zero j a = a
shift_loop (suc rounds) j a = shift_loop rounds (suc j) (update a j (a (suc j)))
