-- ===== src/MsgQueue/Messages/Receive.antt =====
-- `do_msg_queue_rcv` and `do_get_msg_count` of Assignment2/msg_queue.c against a queue of messages
-- for each process.
use cs330_assignments.Base.{
  ℕ, suc, ◌+◌, ◌-◌, ◌≡◌, ◌≢◌, ◌⊎◌, inl, inr, refl, sym, ap, ap₂, ◌∙◌, Bool, true, false, none, some,
  List, [], ◌∷◌, ◌++◌, pos, arith, if◌then◌else◌, slice, slice-ext, slice-append, select,
  select-append, length, Option-cases,
}
use cs330_assignments.MsgQueue.State.{Message, MsgQueueInfo, pending, is_member, einval, shift_loop}
use cs330_assignments.MsgQueue.Shift.{shift_loop_below, slice-shift_loop}
use cs330_assignments.MsgQueue.Messages.{find_loop, receive, do_msg_queue_rcv, do_get_msg_count}
use cs330_assignments.MsgQueue.Messages.Inbox.{
  is_for, inbox, find_loop-none, Found, find_loop-Found, count_loop-length,
}

pending-split :
    (k n : ℕ) (msgs : ℕ → Message)
    → slice msgs 0 (k + suc n) ≡ slice msgs 0 k ++ msgs k ∷ slice msgs (suc k) n
unfolding slice
pending-split k n msgs = slice-append msgs 0 k (suc n) ∙ ap (◌++◌ (slice msgs 0 k)) (ground arith)

pending-shift :
    (k n : ℕ) (msgs : ℕ → Message)
    → slice (shift_loop n k msgs) 0 (k + n) ≡ slice msgs 0 k ++ slice msgs (suc k) n
pending-shift k n msgs =
    slice-append (shift_loop n k msgs) 0 k n
    ∙ ap₂ ◌++◌ (slice-ext _ msgs 0 k (λ j h l. shift_loop_below n k j msgs (omega arith)))
        (let e : 0 + k ≡ k = omega arith in rw e (slice-shift_loop n k n msgs (omega arith)))

-- One message is taken out of the list: what that does to the messages for each process.
select-without :
    (p : Message → Bool) (before after : List Message) (m : Message)
    → p m ≡ false
    → select p (before ++ m ∷ after) ≡ select p (before ++ after)
unfolding select
select-without p before after m e =
    select-append p before (m ∷ after) ∙ (rw e (sym (select-append p before after)))

select-first :
    (p : Message → Bool) (before after : List Message) (m : Message)
    → p m ≡ true
    → select p before ≡ []
    → (select p (before ++ m ∷ after) ≡ m ∷ select p after)
      × (select p (before ++ after) ≡ select p after)
unfolding select
select-first p before after m e f =
    (select-append p before (m ∷ after) ∙ (rw (f, e)), select-append p before after ∙ (rw f))

-- What a successful receive does: the oldest message for the process is handed over and leaves the
-- list; everything else of the queue stays.
pub record Receives (pid : ℕ) (q : MsgQueueInfo) (m : Message) (q' : MsgQueueInfo) : Type 0 where
  pub oldest : inbox pid q ≡ m ∷ inbox pid q'
  pub others : (p : ℕ) → p ≢ pid → inbox p q' ≡ inbox p q
  pub count : suc q'.msg_count ≡ q.msg_count
  pub kept :
      (q'.member_count ≡ q.member_count)
      × (q'.member_pid ≡ q.member_pid)
      × (q'.block_process ≡ q.block_process)

-- The queue after a receive that found `k` messages for others, then one, then `n` more.
abbrev taken : ℕ → ℕ → MsgQueueInfo → MsgQueueInfo
taken k n q = record q { msg_buffer = shift_loop n k q.msg_buffer; msg_count = k + n }

taken-Receives :
    (pid k n : ℕ) (q : MsgQueueInfo)
    → q.msg_count ≡ k + suc n
    → Found 0 k n pid q.msg_buffer
    → Receives pid q (q.msg_buffer k) (taken k n q)
unfolding inbox
taken-Receives pid k n q total f = record {
  oldest = rw (was, now) (first.0 ∙ ap (◌∷◌ (q.msg_buffer k)) (sym first.1));
  others = λ p ne.
      rw (was, now) (sym (select-without (is_for p) before after (q.msg_buffer k) (ground arith)));
  count = omega arith;
  kept = (refl, refl, refl);
}
  where
    before : List Message
    before = slice q.msg_buffer 0 k

    after : List Message
    after = slice q.msg_buffer (suc k) n

    was : pending q ≡ before ++ q.msg_buffer k ∷ after
    was = rw total (pending-split k n q.msg_buffer)

    now : pending (taken k n q) ≡ before ++ after
    now = pending-shift k n q.msg_buffer

    hit : is_for pid (q.msg_buffer k) ≡ true
    hit = let e : 0 + k ≡ k = omega arith in rw e at f.hit

    first :
        (select (is_for pid) (before ++ q.msg_buffer k ∷ after)
          ≡ q.msg_buffer k ∷ select (is_for pid) after)
        × (select (is_for pid) (before ++ after) ≡ select (is_for pid) after)
    first = select-first (is_for pid) before after (q.msg_buffer k) hit f.for_others

receive-Receives :
    (pid : ℕ) (q : MsgQueueInfo)
    → ((inbox pid q ≡ []) × (receive pid q ≡ (pos 0, none, q)))
      ⊎ ((m : Message) × (q' : MsgQueueInfo) × (receive pid q ≡ (pos 1, some m, q'))
          × Receives pid q m q')
unfolding receive inbox
receive-Receives pid q = elim (Option-cases (find_loop q.msg_count 0 pid q.msg_buffer)) [
  | inl e ↦ inl (find_loop-none q.msg_count 0 pid q.msg_buffer e, rw (e, receive))
  | inr (i, e) ↦
      let (k, n, total, at, f) = find_loop-Found q.msg_count 0 i pid q.msg_buffer e in
      let same : i ≡ k = omega (arith, at) in
      let left : q.msg_count - 1 ≡ k + n = omega (arith, total) in
      let tail : q.msg_count - 1 - i ≡ n = omega (arith, total, at) in
      inr (q.msg_buffer k, taken k n q, ground arith, taken-Receives pid k n q total f)
]

-- A member calls do_msg_queue_rcv with a message to fill and a queue. If nothing waits for it, the
-- result is 0 and nothing changes; otherwise the result is 1, the oldest message for it is copied
-- to its message and leaves the queue, the messages for every other process stay in their order,
-- one message fewer waits, and the members and the block lists are as they were.
pub do_msg_queue_rcv-Receives :
    (pid : ℕ) (q : MsgQueueInfo)
    → is_member pid q ≡ true
    → ((inbox pid q ≡ []) × (do_msg_queue_rcv pid true (some q) ≡ (pos 0, none, some q)))
      ⊎ ((m : Message) × (q' : MsgQueueInfo) × (do_msg_queue_rcv pid true (some q)
            ≡ (pos 1, some m, some q'))
          × Receives pid q m q')
unfolding do_msg_queue_rcv
do_msg_queue_rcv-Receives pid q h = elim (receive-Receives pid q) [
  | inl (e, r) ↦ inl (e, rw (h, r))
  | inr (m, q', r, t) ↦ inr (m, q', rw (h, r), t)
]

-- For a member, do_get_msg_count is the number of messages that wait for it; for any other process,
-- and without a queue, it is -EINVAL.
pub do_get_msg_count-length :
    (pid : ℕ) (q : MsgQueueInfo)
    → (do_get_msg_count pid (some q)
        ≡ (if is_member pid q then pos (length (inbox pid q)) else einval))
      × (do_get_msg_count pid none ≡ einval)
unfolding do_get_msg_count inbox
do_get_msg_count-length pid q =
    (ground (arith, count_loop-length q.msg_count 0 pid 0 q.msg_buffer), refl)
