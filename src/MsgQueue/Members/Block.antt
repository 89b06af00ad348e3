-- ===== src/MsgQueue/Members/Block.antt =====
-- `do_msg_queue_block` of Assignment2/msg_queue.c.
use cs330_assignments.Base.{
  ℕ, zero, suc, ◌+◌, ◌*◌, ◌^◌, ◌≤◌, ◌<◌, ◌≡◌, ◌≢◌, ◌⊎◌, List, false, true, Option, some, ℤ, pos,
  arith,
}
use cs330_assignments.MsgQueue.State.{MsgQueueInfo, members, pending, no_pid, einval, block_loop}
use cs330_assignments.MsgQueue.Rows.{holds, row, Replaced}

-- A row that holds a process at a column in range.
pub block_loop_hit :
    (r i j k pid : ℕ) (b : ℕ → ℕ)
    → j ≤ k
    → k < j + r
    → b (i * 4 + k) ≡ pid
    → block_loop r i j pid b ≡ true
unfolding block_loop
block_loop_hit zero i j k pid b h l e = absurd (omega arith)
block_loop_hit (suc r) i j k pid b h l e = ground (arith, block_loop_hit r i (suc j) k pid b)

-- What becomes of the caller's row: it held the other process before, or its first free entry holds
-- it now.
pub data RowBlocks (other : ℕ) (before after : List ℕ) : Type 0 where
  blocked_before : holds other before ≡ true → after ≡ before → RowBlocks other before after
  blocked_now :
      holds other before ≡ false → Replaced no_pid other before after → RowBlocks other before after

-- The caller, member `i`, refuses the messages of another member from now on.
pub record Blocks (i other : ℕ) (q q' : MsgQueueInfo) : Type 0 where
  pub own_row : RowBlocks other (row i q) (row i q')
  pub rows : (r : ℕ) → r ≢ i → row r q' ≡ row r q
  pub kept : (members q' ≡ members q) × (pending q' ≡ pending q)

-- How a block ends, for the 32-bit pattern `other`.
pub data Blocking (pid other : ℕ) (q : MsgQueueInfo) : ℤ × Option MsgQueueInfo → Type 0 where
  negative : 2 ^ 31 ≤ other → Blocking pid other q (einval, some q)
  missing :
      (holds other (members q) ≡ false) ⊎ (holds pid (members q) ≡ false)
      → Blocking pid other q (einval, some q)
  itself :
      (i : ℕ)
      → i < q.member_count
      → q.member_pid i ≡ pid
      → q.member_pid i ≡ other
      → Blocking pid other q (einval, some q)
  full :
      (i : ℕ)
      → i < q.member_count
      → q.member_pid i ≡ pid
      → holds other (row i q) ≡ false
      → holds no_pid (row i q) ≡ false
      → Blocking pid other q (einval, some q)
  blocks :
      {q' : MsgQueueInfo} (i : ℕ)
      → i < q.member_count
      → q.member_pid i ≡ pid
      → Blocks i other q q'
      → Blocking pid other q (pos 0, some q')
