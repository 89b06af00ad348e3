-- ===== src/MsgQueue/Members/Close.antt =====
-- `do_msg_queue_close` of Assignment2/msg_queue.c: the members, messages and block lists that are
-- left.
use mathlib.Core.List.{append-nil, append_assoc}
use cs330_assignments.Base.{
  slice-suc, ℕ, zero, suc, ◌+◌, ◌-◌, ◌*◌, ◌≤◌, ◌<◌, ◌≡◌, ◌⊎◌, inl, inr, refl, sym, ap, ap₂, ◌∙◌,
  true, false, not, none, some, [], ◌∷◌, ◌++◌, arith, ltb, ◌==◌, if◌then◌else◌, update, slice,
  slice-ext, slice-append, select, Bool-cases, Option-cases,
}
use cs330_assignments.MsgQueue.State.{
  Message, MsgQueueInfo, members, pending, max_members, no_pid, shift_loop, member_loop, is_member,
}
use cs330_assignments.MsgQueue.Shift.{shift_loop_below, slice-shift_loop}
use cs330_assignments.MsgQueue.Messages.Inbox.{is_for}
use cs330_assignments.MsgQueue.Members.Matrix.{shift_members_at, clear_row_at, forget_at}
use cs330_assignments.MsgQueue.Members.{
  shift_members, clear_row, compact, leave, leaver_loop, close_queue,
}

-- The members.

shift_members-member_pid :
    (r j : ℕ) (q : MsgQueueInfo) → (shift_members r j q).member_pid ≡ shift_loop r j q.member_pid
unfolding shift_members shift_loop
shift_members-member_pid zero j q = refl
shift_members-member_pid (suc r) j q = shift_members-member_pid r (suc j) _

-- The loop stops at the first member with the process id.
record Leaver (i k n pid : ℕ) (a : ℕ → ℕ) : Type 0 where
  before : select (λ p. p == pid) (slice a i k) ≡ []
  hit : a (i + k) ≡ pid

leaver_loop-Leaver :
    (r i j pid : ℕ) (a : ℕ → ℕ)
    → leaver_loop r i pid a ≡ some j
    → (k : ℕ) × (n : ℕ) × (r ≡ k + suc n) × (j ≡ i + k) × Leaver i k n pid a
unfolding leaver_loop slice select
leaver_loop-Leaver zero i j pid a e = cc
leaver_loop-Leaver (suc r) i j pid a e = elim (Bool-cases (a i == pid)) [
  | inl t ↦
      let same : i + 0 ≡ i = omega arith in
      (0, r, omega arith, ground arith, record { before = refl; hit = rw same (ground arith) })
  | inr f ↦
      let later = leaver_loop-Leaver r (suc i) j pid a (ground arith) in
      let shifted : i + suc later.0 ≡ suc i + later.0 = omega arith in
      (
        suc later.0,
        later.1,
        omega (arith, later.2),
        omega (arith, later.3),
        record { before = ground (arith, later.4.before); hit = rw shifted later.4.hit },
      )
]

leaver_loop-none :
    (r i pid : ℕ) (a : ℕ → ℕ) → leaver_loop r i pid a ≡ none → member_loop r i pid a ≡ false
unfolding leaver_loop member_loop
leaver_loop-none zero i pid a e = refl
leaver_loop-none (suc r) i pid a e = ground (arith, leaver_loop-none r (suc i) pid a)

-- The messages.

slice-suc_end :
    (msgs : ℕ → Message) (n : ℕ) (v : Message)
    → slice (update msgs n v) 0 (n + 1) ≡ slice msgs 0 n ++ v ∷ []
slice-suc_end msgs n v =
    let one : n + 1 ≡ suc n = omega arith in
    let here : update msgs n v n ≡ v = ground arith in
    rw (one, slice-suc (update msgs n v) 0 n n (omega arith), here)
      (ap (λ l. l ++ v ∷ []) (slice-ext _ msgs 0 n (λ j h l. ground arith)))

slice-update_below :
    (msgs : ℕ → Message) (k j n : ℕ) (v : Message)
    → k < j
    → slice (update msgs k v) j n ≡ slice msgs j n
slice-update_below msgs k j n v h = slice-ext _ msgs j n (λ i l u. ground arith)

module _ (r j kept pid : ℕ) (msgs : ℕ → Message) where
  compact_gone :
      is_for pid (msgs j) ≡ true → compact (suc r) j kept pid msgs ≡ compact r (suc j) kept pid msgs
  unfolding compact
  compact_gone e = rw (e, compact)

  compact_stays :
      is_for pid (msgs j) ≡ false
      → compact (suc r) j kept pid msgs
        ≡ compact r (suc j) (kept + 1) pid (update msgs kept (msgs j))
  unfolding compact
  compact_stays e = rw (e, compact)

compact-select :
    (r j kept pid : ℕ) (msgs : ℕ → Message)
    → kept ≤ j
    → slice (compact r j kept pid msgs).0 0 (compact r j kept pid msgs).1
      ≡ slice msgs 0 kept ++ select (λ m. not (is_for pid m)) (slice msgs j r)
unfolding slice select compact
compact-select zero j kept pid msgs h = sym (append-nil _)
compact-select (suc r) j kept pid msgs h = elim (Bool-cases (is_for pid (msgs j))) [
  | inl gone ↦
      rw (compact_gone r j kept pid msgs gone, gone)
        (compact-select r (suc j) kept pid msgs (omega arith))
  | inr stays ↦
      rw (compact_stays r j kept pid msgs stays, stays)
        (compact-select r (suc j) (kept + 1) pid (update msgs kept (msgs j)) (omega arith)
          ∙ ap₂ ◌++◌ (slice-suc_end msgs kept (msgs j)) (
              ap (select (λ m. not (is_for pid m)))
                (slice-update_below msgs kept (suc j) r (msgs j) (omega arith)))
          ∙ append_assoc (slice msgs 0 kept) (msgs j ∷ []) _)
]

-- What is left when the member at index `k` leaves, with `n` members behind it.
pub record Leaves (pid k n : ℕ) (q q' : MsgQueueInfo) : Type 0 where
  pub first : select (λ p. p == pid) (slice q.member_pid 0 k) ≡ []
  pub was : members q ≡ slice q.member_pid 0 k ++ pid ∷ slice q.member_pid (suc k) n
  pub now : members q' ≡ slice q.member_pid 0 k ++ slice q.member_pid (suc k) n
  pub messages : pending q' ≡ select (λ m. not (is_for pid m)) (pending q)
  pub rows :
      (r c : ℕ)
      → r < k + n
      → c < max_members
      → q'.block_process (r * max_members + c) ≡ (
          let v = q.block_process ((if ltb r k then r else suc r) * max_members + c) in
          if v == pid then no_pid else v)

module _ (pid k n : ℕ) (q : MsgQueueInfo) (total : q.member_count ≡ k + suc n)
    (fits : q.member_count ≤ max_members) (f : Leaver 0 k n pid q.member_pid) where
  leave-members : members (leave k pid q) ≡ slice q.member_pid 0 k ++ slice q.member_pid (suc k) n
  unfolding leave
  leave-members =
      let left : q.member_count - 1 ≡ k + n = omega arith in
      let a = shift_loop (max_members - 1 - k) k q.member_pid in
      let e : 0 + k ≡ k = omega arith in
      rw (left, shift_members-member_pid (max_members - 1 - k) k q)
        (slice-append a 0 k n
          ∙ ap₂ ◌++◌
              (slice-ext a q.member_pid 0 k
                (λ j h l. shift_loop_below _ k j q.member_pid (omega arith)))
              (rw e (slice-shift_loop (max_members - 1 - k) k n q.member_pid (omega arith))))

  leave-rows :
      (r c : ℕ)
      → r < k + n
      → c < max_members
      → (leave k pid q).block_process (r * max_members + c) ≡ (
          let v = q.block_process ((if ltb r k then r else suc r) * max_members + c) in
          if v == pid then no_pid else v)
  unfolding leave
  leave-rows r c h l =
      let s = shift_members (max_members - 1 - k) k q in
      let b = clear_row max_members (q.member_count - 1) 0 s.block_process in
      let x = r * max_members + c in
      let moved : (suc r) * max_members + c ≡ x + 4 = omega arith in
      forget_at max_members 0 pid x b
      ∙ ground (
        arith,
        clear_row_at max_members (q.member_count - 1) 0 x s.block_process,
        shift_members_at (max_members - 1 - k) k x q,
        moved,
      )

  leave-Leaves : Leaves pid k n q (leave k pid q)
  unfolding leave slice
  leave-Leaves =
      let e : 0 + k ≡ k = omega arith in
      record {
        first = f.before;
        was = rw total (
            slice-append q.member_pid 0 k (suc n)
            ∙ ap (◌++◌ (slice q.member_pid 0 k)) (ap₂ ◌∷◌ f.hit (rw e)));
        now = leave-members;
        messages = compact-select q.msg_count 0 0 pid q.msg_buffer (omega arith);
        rows = leave-rows;
      }

pub member_count-leave :
    (k pid : ℕ) (q : MsgQueueInfo) → (leave k pid q).member_count ≡ q.member_count - 1
unfolding leave
member_count-leave k pid q = refl

-- A process closes a queue of at most MAX_MEMBERS members. If it is no member, do_msg_queue_close
-- finds nothing to take out. Otherwise the first entry with its process id leaves the members and
-- the others keep their order, its messages are dropped and the others keep theirs, each remaining
-- member has its own row of the matrix with the entries that held the process cleared, and the
-- queue is freed exactly if no member is left.
pub close_queue-Leaves :
    (pid : ℕ) (q : MsgQueueInfo)
    → q.member_count ≤ max_members
    → ((is_member pid q ≡ false) × (close_queue pid q ≡ none))
      ⊎ ((k : ℕ) × (n : ℕ) × (q.member_count ≡ k + suc n)
          × (close_queue pid q ≡ some (leave k pid q, k + n == 0))
          × Leaves pid k n q (leave k pid q))
unfolding close_queue
close_queue-Leaves pid q fits =
    elim (Option-cases (leaver_loop q.member_count 0 pid q.member_pid)) [
      | inl e ↦ inl (leaver_loop-none q.member_count 0 pid q.member_pid e, rw (e, close_queue))
      | inr (i, e) ↦
          let (k, n, total, at, f) = leaver_loop-Leaver q.member_count 0 i pid q.member_pid e in
          let same : i ≡ k = omega (arith, at) in
          inr (
            k,
            n,
            total,
            ground (arith, member_count-leave k pid q),
            leave-Leaves pid k n q total fits f,
          )
    ]
