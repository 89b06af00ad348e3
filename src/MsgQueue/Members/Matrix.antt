-- ===== src/MsgQueue/Members/Matrix.antt =====
-- The loops of `do_msg_queue_close` (Assignment2/msg_queue.c) over the matrix of blocked processes,
-- entry by entry.
use cs330_assignments.Base.{
  ℕ, zero, suc, ◌+◌, ◌*◌, ◌≤◌, ◌≡◌, ◌∙◌, Bool, ◌&&◌, arith, leb, ltb, ◌==◌, if◌then◌else◌, update,
}
use cs330_assignments.MsgQueue.State.{MsgQueueInfo, no_pid}
use cs330_assignments.MsgQueue.Members.{copy_row, shift_members, clear_row, forget_row, forget}

abbrev pub within : ℕ → ℕ → ℕ → Bool
within lo n x = leb lo x && ltb x (lo + n)

copy_row_at :
    (r k j x : ℕ) (b : ℕ → ℕ)
    → k + r ≤ 4
    → copy_row r k j b x ≡ (if within (j * 4 + k) r x then b (x + 4) else b x)
unfolding copy_row
copy_row_at zero k j x b h = ground arith
copy_row_at (suc r) k j x b h =
    let b' = update b (j * 4 + k) (b (suc j * 4 + k)) in
    copy_row_at r (suc k) j x b' (omega arith) ∙ ground arith

pub shift_members_at :
    (r j x : ℕ) (q : MsgQueueInfo)
    → (shift_members r j q).block_process x
      ≡ (if within (j * 4) (r * 4) x then q.block_process (x + 4) else q.block_process x)
unfolding shift_members
shift_members_at zero j x q = ground arith
shift_members_at (suc r) j x q =
    shift_members_at r (suc j) x _
    ∙ (rw
        (
          copy_row_at 4 0 j x q.block_process (omega arith),
          copy_row_at 4 0 j (x + 4) q.block_process (omega arith),
        )
        (ground arith))

pub clear_row_at :
    (r i k x : ℕ) (b : ℕ → ℕ)
    → clear_row r i k b x ≡ (if within (i * 4 + k) r x then no_pid else b x)
unfolding clear_row
clear_row_at zero i k x b = ground arith
clear_row_at (suc r) i k x b =
    clear_row_at r i (suc k) x (update b (i * 4 + k) no_pid) ∙ ground arith

forget_row_at :
    (r j k pid x : ℕ) (b : ℕ → ℕ)
    → forget_row r j k pid b x ≡ (if within (j * 4 + k) r x && (b x == pid) then no_pid else b x)
unfolding forget_row
forget_row_at zero j k pid x b = ground arith
forget_row_at (suc r) j k pid x b =
    let b' = if b (j * 4 + k) == pid then update b (j * 4 + k) no_pid else b in
    forget_row_at r j (suc k) pid x b' ∙ ground arith

pub forget_at :
    (r j pid x : ℕ) (b : ℕ → ℕ)
    → forget r j pid b x ≡ (if within (j * 4) (r * 4) x && (b x == pid) then no_pid else b x)
unfolding forget
forget_at zero j pid x b = ground arith
forget_at (suc r) j pid x b =
    forget_at r (suc j) pid x (forget_row 4 j 0 pid b)
    ∙ (rw (forget_row_at 4 j 0 pid x b) (ground arith))
