-- ===== src/MsgQueue/Examples.antt =====
-- Runs of the model of Assignment2/msg_queue.c, and its theorems at concrete queues.
use cs330_assignments.Base.{
  ℕ, suc, ◌+◌, ◌≡◌, ◌⊎◌, refl, true, false, none, some, [], ◌∷◌, pos, arith, ◌==◌, if◌then◌else◌,
  slice, select,
}
use cs330_assignments.MsgQueue.State.{
  Message, MsgQueueInfo, member_loop, is_member, block_loop, no_pid, broadcast_pid,
}
use cs330_assignments.MsgQueue.Messages.{do_msg_queue_rcv, send}
use cs330_assignments.MsgQueue.Messages.Inbox.{inbox}
use cs330_assignments.MsgQueue.Messages.Receive.{Receives, do_msg_queue_rcv-Receives}
use cs330_assignments.MsgQueue.Messages.Broadcast.{receivers, Outcome, send-Outcome}
use cs330_assignments.MsgQueue.Members.{leave, close_queue}
use cs330_assignments.MsgQueue.Members.Close.{Leaves, close_queue-Leaves}

abbrev hello : Message
hello = record { from_pid = 1; to_pid = 2; msg_txt = 104 ∷ [] }

abbrev reply : Message
reply = record { from_pid = 2; to_pid = 1; msg_txt = 114 ∷ [] }

abbrev to_all : Message
to_all = record { from_pid = 1; to_pid = broadcast_pid; msg_txt = 97 ∷ [] }

-- Members 1, 2 and 3; member 3 has blocked process 1; two messages wait.
abbrev busy : MsgQueueInfo
busy = record {
  member_count = 3;
  member_pid = λ i. i + 1;
  msg_count = 2;
  msg_buffer = λ i. if i == 0 then hello else reply;
  block_process = λ x. if x == 8 then 1 else no_pid;
}

do_msg_queue_rcv-Receives_example :
    ((inbox 1 busy ≡ []) × (do_msg_queue_rcv 1 true (some busy) ≡ (pos 0, none, some busy)))
    ⊎ ((m : Message) × (q' : MsgQueueInfo) × (do_msg_queue_rcv 1 true (some busy)
          ≡ (pos 1, some m, some q'))
        × Receives 1 busy m q')
unfolding member_loop
do_msg_queue_rcv-Receives_example = do_msg_queue_rcv-Receives 1 busy refl

send-Outcome_example : Outcome to_all (receivers 1 busy 0 3) 0 busy (send 1 to_all busy)
send-Outcome_example = send-Outcome 1 to_all busy refl (omega arith) refl (omega arith)

-- Member 3 has blocked process 1, so only process 2 is reached.
reached : receivers 1 busy 0 3 ≡ 2 ∷ []
unfolding receivers slice select block_loop
reached = refl

close_queue-Leaves_example :
    ((is_member 1 busy ≡ false) × (close_queue 1 busy ≡ none))
    ⊎ ((k : ℕ) × (n : ℕ) × (3 ≡ k + suc n)
        × (close_queue 1 busy ≡ some (leave k 1 busy, k + n == 0))
        × Leaves 1 k n busy (leave k 1 busy))
close_queue-Leaves_example = close_queue-Leaves 1 busy (omega arith)
