-- ===== src/MsgQueue/Members/Keeps.antt =====
-- The calls of Assignment2/msg_queue.c that keep the members of a queue: send, receive and block.
use cs330_assignments.Base.{
  ℕ, zero, suc, ◌+◌, ◌≤◌, ◌<◌, arith, ◌^◌, ◌≡◌, inl, inr, refl, ◌∙◌, Bool, true, false, not, ◌||◌,
  Option, none, some, ℤ, ltb, leb, ◌==◌, Bool-cases, Option-cases,
}
use cs330_assignments.MsgQueue.State.{
  Message, MsgQueueInfo, max_members, is_member, block_loop, append, broadcast_pid, max_processes,
}
use cs330_assignments.MsgQueue.Rows.{max_messages}
use cs330_assignments.MsgQueue.Messages.Send.{append-appended}
use cs330_assignments.MsgQueue.Messages.{
  find_loop, receive, do_msg_queue_rcv, broadcast_loop, unicast_loop, send, do_msg_queue_send,
}
use cs330_assignments.MsgQueue.Members.{add_block, do_msg_queue_block, index_loop, free_loop}
use cs330_assignments.MsgQueue.Members.Entries.{SameMembers, unchanged}

-- A call that keeps the members, or that has no room for up to `r` more messages.
pub data KeepsMembers (r : ℕ) (q : MsgQueueInfo) : Option (ℤ × MsgQueueInfo) → Type 0 where
  keeps_members : {z : ℤ} {q' : MsgQueueInfo} → SameMembers q q' → KeepsMembers r q (some (z, q'))
  no_room : max_messages < q.msg_count + r → KeepsMembers r q none

SameMembers-trans :
    (q q' q'' : MsgQueueInfo) → SameMembers q q' → SameMembers q' q'' → SameMembers q q''
SameMembers-trans q q' q'' h g = record { count = g.count ∙ h.count; same = g.same ∙ h.same }

KeepsMembers-skip :
    {r : ℕ} {q : MsgQueueInfo} {o : Option (ℤ × MsgQueueInfo)}
    → KeepsMembers r q o
    → KeepsMembers (suc r) q o
KeepsMembers-skip (keeps_members g) = keeps_members g
KeepsMembers-skip (no_room m) = no_room (omega (arith, m))

KeepsMembers-after :
    (r : ℕ) (q q' : MsgQueueInfo) (o : Option (ℤ × MsgQueueInfo))
    → SameMembers q q'
    → q'.msg_count ≡ q.msg_count + 1
    → KeepsMembers r q' o
    → KeepsMembers (suc r) q o
KeepsMembers-after r q q' _ h e (keeps_members {q' = q''} g) =
    keeps_members (SameMembers-trans q q' q'' h g)
KeepsMembers-after r q q' _ h e (no_room m) = no_room (omega (arith, m, e))

-- A message is appended, or there is no room for it.
data Appends (q : MsgQueueInfo) (o : Option MsgQueueInfo) : Type 0 where
  appends :
      (q' : MsgQueueInfo)
      → o ≡ some q'
      → SameMembers q q'
      → q'.msg_count ≡ q.msg_count + 1
      → Appends q o
  full : o ≡ none → max_messages ≤ q.msg_count → Appends q o

append-Appends : (q : MsgQueueInfo) (msg : Message) → Appends q (append q msg)
append-Appends q msg =
    rw (append-appended q msg) (elim (Bool-cases (ltb q.msg_count max_messages)) [
      | inl room ↦ rw room (appends _ refl (record { count = refl; same = refl }) refl)
      | inr late ↦ rw late (full refl (ground (arith, late)))
    ])

broadcast_loop-KeepsMembers :
    (r i d pid : ℕ) (msg : Message) (q : MsgQueueInfo)
    → KeepsMembers r q (broadcast_loop r i d pid msg q)
unfolding broadcast_loop
broadcast_loop-KeepsMembers zero i d pid msg q = keeps_members (unchanged q)
broadcast_loop-KeepsMembers (suc r) i d pid msg q =
    elim (Bool-cases ((q.member_pid i == pid) || block_loop max_members i 0 pid q.block_process)) [
      | inl skip ↦ rw skip (KeepsMembers-skip (broadcast_loop-KeepsMembers r (suc i) d pid msg q))
      | inr goes ↦ elim (append-Appends q (record msg { to_pid = q.member_pid i })) [
        | full e m ↦ rw (goes, e) (no_room (omega (arith, m)))
        | appends q' e h c ↦
            rw (goes, e)
              (KeepsMembers-after r q q' _ h c
                (broadcast_loop-KeepsMembers r (suc i) (d + 1) pid msg q'))
      ]
    ]

unicast_loop-KeepsMembers :
    (r i pid : ℕ) (msg : Message) (q : MsgQueueInfo) → KeepsMembers r q (unicast_loop r i pid msg q)
unfolding unicast_loop
unicast_loop-KeepsMembers zero i pid msg q = keeps_members (unchanged q)
unicast_loop-KeepsMembers (suc r) i pid msg q = elim (Bool-cases (q.member_pid i == msg.to_pid)) [
  | inl here ↦ elim (Bool-cases (block_loop max_processes i 0 pid q.block_process)) [
    | inl blocked ↦ rw (here, blocked) (keeps_members (unchanged q))
    | inr free ↦ elim (append-Appends q msg) [
      | full e m ↦ rw (here, free, e) (no_room (omega (arith, m)))
      | appends q' e h c ↦ rw (here, free, e) (keeps_members h)
    ]
  ]
  | inr there ↦ rw there (KeepsMembers-skip (unicast_loop-KeepsMembers r (suc i) pid msg q))
]

send-KeepsMembers :
    (pid : ℕ) (msg : Message) (q : MsgQueueInfo) → KeepsMembers q.member_count q (send pid msg q)
unfolding send
send-KeepsMembers pid msg q =
    elim (Bool-cases (not (msg.from_pid == pid) || (msg.from_pid == msg.to_pid))) [
      | inl bad ↦ rw bad (keeps_members (unchanged q))
      | inr good ↦ elim (Bool-cases (msg.to_pid == broadcast_pid)) [
        | inl all ↦ rw (good, all) (broadcast_loop-KeepsMembers q.member_count 0 0 pid msg q)
        | inr one ↦ rw (good, one) (unicast_loop-KeepsMembers q.member_count 0 pid msg q)
      ]
    ]

-- The queue that a call leaves has the members that it had.
pub data SameMembersIn (q : Option MsgQueueInfo) : Option MsgQueueInfo → Type 0 where
  no_queue : q ≡ none → SameMembersIn q none
  same_members :
      {q' q'' : MsgQueueInfo} → q ≡ some q' → SameMembers q' q'' → SameMembersIn q (some q'')

-- A call on a queue that may be missing: it keeps the members, or the messages that wait and the
-- members are more than the messages that have room.
pub data Sends (q : Option MsgQueueInfo) : Option (ℤ × Option MsgQueueInfo) → Type 0 where
  sends : {z : ℤ} {q' : Option MsgQueueInfo} → SameMembersIn q q' → Sends q (some (z, q'))
  sends_not :
      {q' : MsgQueueInfo}
      → q ≡ some q'
      → max_messages < q'.msg_count + q'.member_count
      → Sends q none

KeepsMembers-Sends :
    (q : MsgQueueInfo) (o : Option (ℤ × MsgQueueInfo))
    → KeepsMembers q.member_count q o
    → Sends (some q) (elim o [ none ↦ none | some r ↦ some (r.0, some r.1) ])
KeepsMembers-Sends q _ (keeps_members h) = sends (same_members refl h)
KeepsMembers-Sends q _ (no_room m) = sends_not refl m

pub do_msg_queue_send-Sends :
    (pid : ℕ) (msg : Option Message) (q : Option MsgQueueInfo)
    → Sends q (do_msg_queue_send pid msg q)
unfolding do_msg_queue_send
do_msg_queue_send-Sends pid none none = sends (no_queue refl)
do_msg_queue_send-Sends pid (some msg) none = sends (no_queue refl)
do_msg_queue_send-Sends pid none (some q) = sends (same_members refl (unchanged q))
do_msg_queue_send-Sends pid (some msg) (some q) = elim (Bool-cases (is_member pid q)) [
  | inl t ↦ rw t (KeepsMembers-Sends q _ (send-KeepsMembers pid msg q))
  | inr f ↦ rw f (sends (same_members refl (unchanged q)))
]

receive-SameMembers : (pid : ℕ) (q : MsgQueueInfo) → SameMembers q (receive pid q).2
unfolding receive
receive-SameMembers pid q = elim (Option-cases (find_loop q.msg_count 0 pid q.msg_buffer)) [
  | inl e ↦ rw (receive, e) (unchanged q)
  | inr (i, e) ↦ rw (receive, e) (record { count = refl; same = refl })
]

pub do_msg_queue_rcv-SameMembersIn :
    (pid : ℕ) (has_msg : Bool) (q : Option MsgQueueInfo)
    → SameMembersIn q (do_msg_queue_rcv pid has_msg q).2
unfolding do_msg_queue_rcv
do_msg_queue_rcv-SameMembersIn pid false none = no_queue refl
do_msg_queue_rcv-SameMembersIn pid false (some q) = same_members refl (unchanged q)
do_msg_queue_rcv-SameMembersIn pid true none = no_queue refl
do_msg_queue_rcv-SameMembersIn pid true (some q) = elim (Bool-cases (is_member pid q)) [
  | inl t ↦ rw t (same_members refl (receive-SameMembers pid q))
  | inr f ↦ rw f (same_members refl (unchanged q))
]

add_block-SameMembers : (i other : ℕ) (q : MsgQueueInfo) → SameMembers q (add_block i other q).1
unfolding add_block
add_block-SameMembers i other q =
    elim (Bool-cases (block_loop max_members i 0 other q.block_process)) [
      | inl t ↦ rw t (unchanged q)
      | inr f ↦ elim (Option-cases (free_loop max_members i 0 q.block_process)) [
        | inl e ↦ rw (add_block, f, e) (unchanged q)
        | inr (j, e) ↦ rw (add_block, f, e) (record { count = refl; same = refl })
      ]
    ]

pub do_msg_queue_block-SameMembersIn :
    (pid other : ℕ) (q : Option MsgQueueInfo) → SameMembersIn q (do_msg_queue_block pid other q).1
unfolding do_msg_queue_block
do_msg_queue_block-SameMembersIn pid other none = no_queue refl
do_msg_queue_block-SameMembersIn pid other (some q) =
    let stays = same_members refl (unchanged q) in
    elim (Bool-cases (leb (2 ^ 31) other)) [
      | inl t ↦ rw t stays
      | inr f ↦ elim (Option-cases (index_loop q.member_count 0 other none q.member_pid)) [
        | inl e ↦ rw (do_msg_queue_block, f, e) stays
        | inr (there, e) ↦ elim (Option-cases (index_loop q.member_count 0 pid none q.member_pid)) [
          | inl g ↦ rw (do_msg_queue_block, f, e, g) stays
          | inr (i, g) ↦ elim (Bool-cases (i == there)) [
            | inl s ↦ rw (do_msg_queue_block, f, e, g, s) stays
            | inr d ↦
                rw (do_msg_queue_block, f, e, g, d)
                  (same_members refl (add_block-SameMembers i other q))
          ]
        ]
      ]
    ]
