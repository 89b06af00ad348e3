-- ===== src/MsgQueue/Members.antt =====
-- Joining, leaving and blocking on a message queue (Assignment2/msg_queue.c). `pid` is the process
-- id of the calling process, or of the child that joins.
pub mod Block
pub mod Matrix
pub mod Close
pub mod Entries
pub mod Keeps
use cs330_assignments.Base.{
  ℕ, zero, suc, ◌+◌, ◌-◌, ◌*◌, ◌^◌, Bool, true, false, ◌||◌, not, Option, none, some, ℤ, pos, leb,
  ltb, ◌==◌, if◌then◌else◌, update,
}
use cs330_assignments.MsgQueue.State.{
  einval, max_members, no_pid, Message, MsgQueueInfo, block_loop,
}

-- One more member, on a fork; `none` where the write would leave the array of members.
unfoldable pub add_member : ℕ → MsgQueueInfo → Option MsgQueueInfo
add_member pid q =
    if ltb q.member_count max_members
    then some (record q {
      member_count = q.member_count + 1;
      member_pid = update q.member_pid q.member_count pid;
    })
    else none

-- The result, and the count and array that are copied to the caller.
unfoldable pub do_msg_queue_get_member_info : Option MsgQueueInfo → ℤ × Option (ℕ × (ℕ → ℕ))
do_msg_queue_get_member_info none = (einval, none)
do_msg_queue_get_member_info (some q) = (pos 0, some (q.member_count, q.member_pid))

-- The loop that finds a member's index: the last one that matches, or what was found before.
unfoldable pub index_loop : ℕ → ℕ → ℕ → Option ℕ → (ℕ → ℕ) → Option ℕ
index_loop zero i pid idx member_pid = idx
index_loop (suc rounds) i pid idx member_pid =
    index_loop rounds (suc i) pid (if member_pid i == pid then some i else idx) member_pid

-- The first free entry of row `i`, with `rounds` columns left from `j` on.
unfoldable pub free_loop : ℕ → ℕ → ℕ → (ℕ → ℕ) → Option ℕ
free_loop zero i j block = none
free_loop (suc rounds) i j block =
    let rest = free_loop rounds i (suc j) block in
    if block (i * max_members + j) == no_pid then some j else rest

-- The row of the caller, which is member `i`, gets one more entry.
unfoldable pub add_block : ℕ → ℕ → MsgQueueInfo → ℤ × MsgQueueInfo
add_block i other q =
    if block_loop max_members i 0 other q.block_process
    then (pos 0, q)
    else elim (free_loop max_members i 0 q.block_process) [
      | none ↦ (einval, q)
      | some j ↦
          (pos 0, record q { block_process = update q.block_process (i * max_members + j) other })
    ]

-- `other` is the 32-bit pattern of the `int` argument.
unfoldable pub do_msg_queue_block : ℕ → ℕ → Option MsgQueueInfo → ℤ × Option MsgQueueInfo
do_msg_queue_block pid other none = (einval, none)
do_msg_queue_block pid other (some q) =
    if leb (2 ^ 31) other
    then (einval, some q)
    else elim (index_loop q.member_count 0 other none q.member_pid) [
      | none ↦ (einval, some q)
      | some there ↦ elim (index_loop q.member_count 0 pid none q.member_pid) [
        | none ↦ (einval, some q)
        | some i ↦
            if i == there
            then (einval, some q)
            else (let r = add_block i other q in (r.0, some r.1))
      ]
    ]

-- Row `j` becomes the row behind it, over `rounds` columns from `k` on.
unfoldable pub copy_row : ℕ → ℕ → ℕ → (ℕ → ℕ) → ℕ → ℕ
copy_row zero k j block = block
copy_row (suc rounds) k j block =
    copy_row rounds (suc k) j (update block (j * max_members + k) (block (suc j * max_members + k)))

-- Members and rows move up by one, for `rounds` indices from `j` on.
unfoldable pub shift_members : ℕ → ℕ → MsgQueueInfo → MsgQueueInfo
shift_members zero j q = q
shift_members (suc rounds) j q = shift_members rounds (suc j) (record q {
  member_pid = update q.member_pid j (q.member_pid (suc j));
  block_process = copy_row max_members 0 j q.block_process;
})

-- `rounds` entries of row `i` from column `k` on are cleared.
unfoldable pub clear_row : ℕ → ℕ → ℕ → (ℕ → ℕ) → ℕ → ℕ
clear_row zero i k block = block
clear_row (suc rounds) i k block =
    clear_row rounds i (suc k) (update block (i * max_members + k) no_pid)

-- The entries of row `j` that hold a process are cleared, over `rounds` columns from `k` on.
unfoldable pub forget_row : ℕ → ℕ → ℕ → ℕ → (ℕ → ℕ) → ℕ → ℕ
forget_row zero j k pid block = block
forget_row (suc rounds) j k pid block = forget_row rounds j (suc k) pid (
    if block (j * max_members + k) == pid then update block (j * max_members + k) no_pid else block)

unfoldable pub forget : ℕ → ℕ → ℕ → (ℕ → ℕ) → ℕ → ℕ
forget zero j pid block = block
forget (suc rounds) j pid block = forget rounds (suc j) pid (forget_row max_members j 0 pid block)

-- The messages that are not for a process move to the front: the array and how many there are.
unfoldable pub compact : ℕ → ℕ → ℕ → ℕ → (ℕ → Message) → (ℕ → Message) × ℕ
compact zero j kept pid msgs = (msgs, kept)
compact (suc rounds) j kept pid msgs =
    let stays = not ((msgs j).to_pid == pid) in
    compact rounds (suc j) (if stays then kept + 1 else kept) pid
      (if stays then update msgs kept (msgs j) else msgs)

-- The queue without member `i`, whose process id is `pid`.
unfoldable pub leave : ℕ → ℕ → MsgQueueInfo → MsgQueueInfo
leave i pid q =
    let s = shift_members (max_members - 1 - i) i q in
    let left = q.member_count - 1 in
    let c = compact q.msg_count 0 0 pid q.msg_buffer in
    record s {
      member_count = left;
      block_process = forget max_members 0 pid (clear_row max_members left 0 s.block_process);
      msg_buffer = c.0;
      msg_count = c.1;
    }

-- The index at which the loop of `do_msg_queue_close` finds the caller.
unfoldable pub leaver_loop : ℕ → ℕ → ℕ → (ℕ → ℕ) → Option ℕ
leaver_loop zero i pid member_pid = none
leaver_loop (suc rounds) i pid member_pid =
    let rest = leaver_loop rounds (suc i) pid member_pid in
    if member_pid i == pid then some i else rest

-- What a member's close leaves: `none` where the caller is no member. The queue and the file are
-- freed where no member is left.
unfoldable pub close_queue : ℕ → MsgQueueInfo → Option (MsgQueueInfo × Bool)
close_queue pid q = elim (leaver_loop q.member_count 0 pid q.member_pid) [
  | none ↦ none
  | some i ↦ let q' = leave i pid q in some (q', q'.member_count == 0)
]
