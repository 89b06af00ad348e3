-- ===== src/MsgQueue/Faults.antt =====
-- Two places where Assignment2/msg_queue.c reaches beyond what it means to: the row of the matrix
-- in a send to one process, and the place of a message in the page of the first one.
use cs330_assignments.Base.{
  ℕ, zero, suc, ◌+◌, ◌*◌, ◌≤◌, ◌<◌, ◌≡◌, ◌≢◌, ◌↔◌, true, false, not, ◌||◌, some, arith, ◌==◌,
}
use cs330_assignments.MsgQueue.State.{
  Message, MsgQueueInfo, block_loop, einval, max_members, max_processes, broadcast_pid,
  slot_address,
}
use cs330_assignments.MsgQueue.Messages.{unicast_loop, send}
use cs330_assignments.MsgQueue.Members.Block.{block_loop_hit}

unicast_loop_refused :
    (rounds j i pid : ℕ) (msg : Message) (q : MsgQueueInfo)
    → j ≤ i
    → i < j + rounds
    → ((x : ℕ) → x < i → q.member_pid x ≢ msg.to_pid)
    → q.member_pid i ≡ msg.to_pid
    → block_loop max_processes i 0 pid q.block_process ≡ true
    → unicast_loop rounds j pid msg q ≡ some (einval, q)
unfolding unicast_loop
unicast_loop_refused zero j i pid msg q h l before here b = absurd (omega arith)
unicast_loop_refused (suc rounds) j i pid msg q h l before here b = ground (
  arith,
  before j,
  λ (p : suc j ≤ i). unicast_loop_refused rounds (suc j) i pid msg q p (omega arith) before here b,
)

-- The receiver of a message is the member at index `i` and not before, its row of the matrix does
-- not hold the sender, and the next row holds it in one of its first three columns. Then the send
-- is refused with -EINVAL, although the receiver has not blocked the sender.
pub send_neighbour :
    (pid i c : ℕ) (msg : Message) (q : MsgQueueInfo)
    → msg.from_pid ≡ pid
    → msg.to_pid ≢ pid
    → msg.to_pid ≢ broadcast_pid
    → i < q.member_count
    → ((x : ℕ) → x < i → q.member_pid x ≢ msg.to_pid)
    → q.member_pid i ≡ msg.to_pid
    → c < 3
    → q.block_process (suc i * max_members + c) ≡ pid
    → block_loop max_members i 0 pid q.block_process ≡ false
    → send pid msg q ≡ some (einval, q)
unfolding send
send_neighbour pid i c msg q own other one h before here l e f =
    let passes : (not (msg.from_pid == pid) || (msg.from_pid == msg.to_pid)) ≡ false =
      ground arith in
    let single : (msg.to_pid == broadcast_pid) ≡ false = ground arith in
    let same : i * 4 + (4 + c) ≡ suc i * 4 + c = omega arith in
    rw (passes, single)
      (unicast_loop_refused q.member_count 0 i pid msg q (omega arith) (omega arith) before here
        (block_loop_hit 7 i 0 (4 + c) pid q.block_process (omega arith) (omega arith) (rw same e)))

-- The place of a message, 32 bytes from `slot_address` on, lies in the page of 4096 bytes that the
-- first message begins exactly for the first four messages; two messages never share a byte.
pub slot_address_page :
    (base i : ℕ)
    → ((slot_address base i + 32 ≤ base + 4096) ↔ (i < 4))
      × ((j : ℕ) → i < j → slot_address base i + 32 ≤ slot_address base j)
unfolding slot_address
slot_address_page base i = ((λ h. omega arith, λ h. omega arith), λ j h. omega arith)
