-- ===== src/MsgQueue/Messages/Inbox.antt =====
-- The messages that wait for one process: the loops of Assignment2/msg_queue.c that find and count
-- them, and what a shift of the array does to the list of waiting messages.
use cs330_assignments.Base.{
  ℕ, zero, suc, ◌+◌, ◌≡◌, refl, Bool, true, none, some, List, [], arith, ◌==◌, slice, select,
  length, Bool-cases, inl, inr,
}
use cs330_assignments.MsgQueue.State.{Message, MsgQueueInfo, pending}
use cs330_assignments.MsgQueue.Messages.{find_loop, count_loop}

-- Whether a message is for a process.
abbrev pub is_for : ℕ → Message → Bool
is_for pid m = m.to_pid == pid

-- The messages for a process, oldest first.
unfoldable pub inbox : ℕ → MsgQueueInfo → List Message
inbox pid q = select (is_for pid) (pending q)

-- The loop finds nothing only if no message is for the process.
pub find_loop-none :
    (n i pid : ℕ) (msgs : ℕ → Message)
    → find_loop n i pid msgs ≡ none
    → select (is_for pid) (slice msgs i n) ≡ []
unfolding find_loop slice select
find_loop-none zero i pid msgs e = refl
find_loop-none (suc n) i pid msgs e = ground (arith, find_loop-none n (suc i) pid msgs)

-- Where it stops: `k` messages for others, then one for the process, then `n` more.
pub record Found (i k n pid : ℕ) (msgs : ℕ → Message) : Type 0 where
  pub for_others : select (is_for pid) (slice msgs i k) ≡ []
  pub hit : is_for pid (msgs (i + k)) ≡ true

pub find_loop-Found :
    (r i j pid : ℕ) (msgs : ℕ → Message)
    → find_loop r i pid msgs ≡ some j
    → (k : ℕ) × (n : ℕ) × (r ≡ k + suc n) × (j ≡ i + k) × Found i k n pid msgs
unfolding find_loop slice select
find_loop-Found zero i j pid msgs e = cc
find_loop-Found (suc r) i j pid msgs e = elim (Bool-cases (is_for pid (msgs i))) [
  | inl t ↦
      let same : i + 0 ≡ i = omega arith in
      (0, r, omega arith, ground arith, record { for_others = refl; hit = rw same t })
  | inr f ↦
      let later = find_loop-Found r (suc i) j pid msgs (ground arith) in
      let shifted : i + suc later.0 ≡ suc i + later.0 = omega arith in
      (
        suc later.0,
        later.1,
        omega (arith, later.2),
        omega (arith, later.3),
        record { for_others = ground (arith, later.4.for_others); hit = rw shifted later.4.hit },
      )
]

-- Counting is the length of the list.
pub count_loop-length :
    (n i pid addressed : ℕ) (msgs : ℕ → Message)
    → count_loop n i pid addressed msgs ≡ addressed + length (select (is_for pid) (slice msgs i n))
unfolding count_loop slice select
count_loop-length zero i pid addressed msgs = omega arith
count_loop-length (suc n) i pid addressed msgs = ground (
  arith,
  count_loop-length n (suc i) pid (addressed + 1) msgs,
  count_loop-length n (suc i) pid addressed msgs,
)
