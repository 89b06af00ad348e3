-- ===== src/MsgQueue/Messages/Broadcast.antt =====
-- `do_msg_queue_send` of Assignment2/msg_queue.c for a message to all members.
use mathlib.Core.List.{append-nil, append_assoc}
use cs330_assignments.Base.{
  ℕ, zero, suc, ◌+◌, ◌≤◌, ◌<◌, ◌≡◌, ◌≢◌, inl, inr, refl, sym, ◌∙◌, Bool, true, false, not, ◌||◌,
  Option, none, some, List, [], ◌∷◌, ◌++◌, map, ℤ, pos, arith, ltb, ◌==◌, slice, select, length,
  Bool-cases,
}
use cs330_assignments.MsgQueue.State.{Message, MsgQueueInfo, pending, max_members, broadcast_pid}
use cs330_assignments.MsgQueue.Rows.{max_messages, holds, row, block_loop-holds}
use cs330_assignments.MsgQueue.Messages.{broadcast_loop, send}
use cs330_assignments.MsgQueue.Messages.Send.{appended, append-appended, pending-appended}

-- Whether a broadcast of `pid` passes over the member at an index: it is the sender, or its row of
-- the matrix holds the sender.
abbrev pub skips : ℕ → MsgQueueInfo → ℕ → Bool
skips pid q i = (q.member_pid i == pid) || holds pid (row i q)

-- The members that a broadcast of `pid` reaches, in the order of the array, from index `i` on.
unfoldable pub receivers : ℕ → MsgQueueInfo → ℕ → ℕ → List ℕ
receivers pid q i n = map q.member_pid (select (λ j. not (skips pid q j)) (slice (λ j. j) i n))

-- The copy of a message for one receiver.
abbrev pub addressed : Message → ℕ → Message
addressed msg p = record msg { to_pid = p }

-- How a broadcast ends, by the list of its receivers.
pub record Broadcasts (msg : Message) (rs : List ℕ) (q q' : MsgQueueInfo) : Type 0 where
  pub waits : pending q' ≡ pending q ++ map (addressed msg) rs
  pub kept :
      (q'.member_count ≡ q.member_count)
      × (q'.member_pid ≡ q.member_pid)
      × (q'.block_process ≡ q.block_process)

Broadcasts-cons :
    {msg : Message} {p : ℕ} {rs : List ℕ} {q q' : MsgQueueInfo}
    → Broadcasts msg rs (appended q (addressed msg p)) q'
    → Broadcasts msg (p ∷ rs) q q'
Broadcasts-cons {msg} {p} {rs} {q} b = record {
  waits =
      b.waits
      ∙ (rw (pending-appended q (addressed msg p))
          (append_assoc (pending q) (addressed msg p ∷ []) (map (addressed msg) rs)));
  kept = b.kept;
}

-- The outcome of a broadcast that has delivered `done` messages and has the receivers `rs` left.
pub data Outcome (msg : Message) (rs : List ℕ) (done : ℕ) (q : MsgQueueInfo)
    (r : Option (ℤ × MsgQueueInfo)) : Type 0 where
  sent :
      {q' : MsgQueueInfo}
      → q.msg_count + length rs ≤ max_messages
      → r ≡ some (pos (done + length rs), q')
      → Broadcasts msg rs q q'
      → Outcome msg rs done q r
  overflow : max_messages < q.msg_count + length rs → r ≡ none → Outcome msg rs done q r

Outcome-cons :
    {msg : Message} {p done : ℕ} {rs : List ℕ} {q : MsgQueueInfo} {r : Option (ℤ × MsgQueueInfo)}
    → Outcome msg rs (done + 1) (appended q (addressed msg p)) r
    → Outcome msg (p ∷ rs) done q r
Outcome-cons {done} {rs} (sent h e b) =
    let total : done + 1 + length rs ≡ done + suc (length rs) = omega arith in
    sent (omega arith) (e ∙ (rw total)) (Broadcasts-cons b)
Outcome-cons (overflow h e) = overflow (omega arith) e

broadcast_loop-Outcome :
    (rounds i done pid : ℕ) (msg : Message) (q : MsgQueueInfo)
    → q.msg_count ≤ max_messages
    → Outcome msg (receivers pid q i rounds) done q (broadcast_loop rounds i done pid msg q)
unfolding broadcast_loop receivers slice select
broadcast_loop-Outcome zero i done pid msg q h =
    sent (omega arith) (ground arith)
      (record { waits = sym (append-nil _); kept = (refl, refl, refl) })
broadcast_loop-Outcome (suc rounds) i done pid msg q h =
    rw (broadcast_loop, block_loop-holds max_members i pid q)
      (elim (Bool-cases (skips pid q i)) [
        | inl skip ↦ rw skip (broadcast_loop-Outcome rounds (suc i) done pid msg q h)
        | inr take ↦ elim (Bool-cases (ltb q.msg_count max_messages)) [
          | inl room ↦
              rw (take, append-appended q (addressed msg (q.member_pid i)), room)
                (Outcome-cons (
                  broadcast_loop-Outcome rounds (suc i) (done + 1) pid msg
                    (appended q (addressed msg (q.member_pid i))) (ground arith)))
          | inr full ↦
              rw (take, append-appended q (addressed msg (q.member_pid i)), full)
                (overflow (ground arith) refl)
        ]
      ])

-- A process sends its own message to BROADCAST_PID, with at most four messages waiting. If there is
-- room for a copy for each receiver, that is for each member that is not the sender and whose row
-- of the matrix does not hold the sender, the send returns the number of the receivers, the copies,
-- addressed to one receiver each, wait behind what waited before, in the order of the members, and
-- the members and the block lists are as they were. If the copies and the messages that waited are
-- more than four, it writes behind the page of the messages.
pub send-Outcome :
    (pid : ℕ) (msg : Message) (q : MsgQueueInfo)
    → msg.from_pid ≡ pid
    → pid ≢ broadcast_pid
    → msg.to_pid ≡ broadcast_pid
    → q.msg_count ≤ max_messages
    → Outcome msg (receivers pid q 0 q.member_count) 0 q (send pid msg q)
unfolding send
send-Outcome pid msg q own other all h =
    let passes : (not (msg.from_pid == pid) || (msg.from_pid == msg.to_pid)) ≡ false =
      ground arith in
    let every : (msg.to_pid == broadcast_pid) ≡ true = ground arith in
    rw (passes, every) (broadcast_loop-Outcome q.member_count 0 0 pid msg q h)
