-- ===== src/Kernel/Queues/Fork.antt =====
-- What a fork does to the queues behind the descriptors of the child (`do_add_child_to_msg_queue`
-- of Assignment2/msg_queue.c).
use cs330_assignments.Base.{
  ℕ, zero, suc, ◌+◌, ◌≤◌, ◌<◌, ◌≡◌, ◌≢◌, inl, inr, refl, arith, true, false, ◌||◌, not, ◌&&◌,
  Option, none, some, ltb, ◌==◌, if◌then◌else◌, update, Bool-cases,
}
use cs330_assignments.MsgQueue.State.{MsgQueueInfo, max_members}
use cs330_assignments.MsgQueue.Members.{add_member}
use cs330_assignments.OpenFiles.State.{Store, max_open_files}
use cs330_assignments.Kernel.State.{Kernel, queue_of, set_queue}
use cs330_assignments.Kernel.Queues.{add_child_loop, do_add_child_to_msg_queue}

-- How many of `rounds` descriptors from `fd` on lead to the queue at an address.
unfoldable pub queue_refs : ℕ → ℕ → (ℕ → ℕ) → Store → ℕ → ℕ
queue_refs zero fd files s a = 0
queue_refs (suc rounds) fd files s a =
    (if not (files fd == 0) && ((s.object (files fd)).msg_queue == a) then 1 else 0)
    + queue_refs rounds (suc fd) files s a

-- A queue that a process has joined `n` times, behind the members that it had.
pub record Joined (n pid : ℕ) (q q' : MsgQueueInfo) : Type 0 where
  pub count : q'.member_count ≡ q.member_count + n
  pub new_members : (j : ℕ) → q.member_count ≤ j → j < q.member_count + n → q'.member_pid j ≡ pid
  pub old_members : (j : ℕ) → j < q.member_count → q'.member_pid j ≡ q.member_pid j
  pub kept :
      (q'.msg_count ≡ q.msg_count)
      × (q'.msg_buffer ≡ q.msg_buffer)
      × (q'.block_process ≡ q.block_process)

Joined-zero : (pid : ℕ) (q : MsgQueueInfo) → Joined 0 pid q q
Joined-zero pid q = record {
  count = omega arith;
  new_members = λ j a b. absurd (omega arith);
  old_members = λ j a. refl;
  kept = (refl, refl, refl);
}

-- The queue with one more member.
abbrev joined_once : ℕ → MsgQueueInfo → MsgQueueInfo
joined_once pid q = record q {
  member_count = q.member_count + 1;
  member_pid = update q.member_pid q.member_count pid;
}

Joined-suc :
    (n pid : ℕ) (q q' : MsgQueueInfo)
    → Joined n pid (joined_once pid q) q'
    → Joined (suc n) pid q q'
Joined-suc n pid q q' h = record {
  count = omega (arith, h.count);
  new_members = λ j a b. ground (arith, h.new_members j, h.old_members j);
  old_members = λ j a. ground (arith, h.old_members j);
  kept = h.kept;
}

-- How the walk ends, for `rounds` descriptors from `fd` on.
pub data Fork (rounds fd pid : ℕ) (files : ℕ → ℕ) (k : Kernel) : Option Kernel → Type 0 where
  joins :
      {k' : Kernel}
      → ((a : ℕ)
          → a ≢ 0
          → Joined (queue_refs rounds fd files k.store a) pid (k.queue a) (k'.queue a))
      → ((a : ℕ)
          → a ≢ 0
          → 0 < queue_refs rounds fd files k.store a
          → (k'.queue a).member_count ≤ max_members)
      → k'.store ≡ k.store
      → k'.queue_live ≡ k.queue_live
      → Fork rounds fd pid files k (some k')
  overflow :
      (a : ℕ)
      → a ≢ 0
      → 0 < queue_refs rounds fd files k.store a
      → max_members < (k.queue a).member_count + queue_refs rounds fd files k.store a
      → Fork rounds fd pid files k none

module _ (rounds fd pid : ℕ) (files : ℕ → ℕ) (k : Kernel) where
  skip_refs :
      (a : ℕ)
      → ((files fd == 0) || (queue_of k (files fd) == 0)) ≡ true
      → a ≢ 0
      → queue_refs (suc rounds) fd files k.store a ≡ queue_refs rounds (suc fd) files k.store a
  unfolding queue_refs
  skip_refs a e n = ground arith

  here_refs :
      (a : ℕ)
      → ((files fd == 0) || (queue_of k (files fd) == 0)) ≡ false
      → queue_refs (suc rounds) fd files k.store a
        ≡ (if queue_of k (files fd) == a then 1 else 0) + queue_refs rounds (suc fd) files k.store a
  unfolding queue_refs
  here_refs a e = ground arith

  Fork-skip :
      (o : Option Kernel)
      → ((files fd == 0) || (queue_of k (files fd) == 0)) ≡ true
      → Fork rounds (suc fd) pid files k o
      → Fork (suc rounds) fd pid files k o
  Fork-skip o e (joins j b s l) =
      joins (λ a n. rw (skip_refs a e n) (j a n)) (λ a n p. b a n (rw (skip_refs a e n) at p)) s l
  Fork-skip o e (overflow a n p m) = overflow a n (rw (skip_refs a e n) p) (rw (skip_refs a e n) m)

  -- The address of the queue behind the descriptor.
  abbrev here : ℕ
  here = queue_of k (files fd)

  abbrev added : Kernel
  added = set_queue k here (joined_once pid (k.queue here))

  Joined-add :
      (a n : ℕ) (q' : MsgQueueInfo)
      → Joined n pid (added.queue a) q'
      → Joined ((if here == a then 1 else 0) + n) pid (k.queue a) q'
  Joined-add a n q' h = elim (Bool-cases (here == a)) [
    | inl e ↦
        let e' : here ≡ a = ground arith in
        let one : 1 + n ≡ suc n = omega arith in
        rw (e, one) (rw e' at (Joined-suc n pid (k.queue here) q' (rw e at h)))
    | inr f ↦ let none_more : 0 + n ≡ n = omega arith in rw (f, none_more) (rw f at h)
  ]

  Fork-add :
      (o : Option Kernel)
      → ((files fd == 0) || (here == 0)) ≡ false
      → Fork rounds (suc fd) pid files added o
      → (k.queue here).member_count < max_members
      → Fork (suc rounds) fd pid files k o
  Fork-add o e (joins {k' = k'} j b s l) room =
      joins (λ a n. rw (here_refs a e) (Joined-add a _ (k'.queue a) (j a n)))
        (λ a n p.
          let old = Joined-add a _ (k'.queue a) (j a n) in
          ground (arith, here_refs a e, b a n, old.count))
        s l
  Fork-add o e (overflow a n p m) room =
      overflow a n (ground (arith, here_refs a e)) (ground (arith, here_refs a e))

add_child_loop-Fork :
    (rounds fd pid : ℕ) (files : ℕ → ℕ) (k : Kernel)
    → Fork rounds fd pid files k (add_child_loop rounds fd pid files k)
unfolding add_child_loop add_member queue_refs
add_child_loop-Fork zero fd pid files k =
    joins (λ a n. Joined-zero pid (k.queue a)) (λ a n p. absurd (omega arith)) refl refl
add_child_loop-Fork (suc rounds) fd pid files k =
    elim (Bool-cases ((files fd == 0) || (queue_of k (files fd) == 0))) [
      | inl skip ↦
          rw skip (
            Fork-skip rounds fd pid files k _ skip
              (add_child_loop-Fork rounds (suc fd) pid files k))
      | inr busy ↦
          elim (Bool-cases (ltb (k.queue (queue_of k (files fd))).member_count max_members)) [
            | inl room ↦
                rw (busy, room)
                  (Fork-add rounds fd pid files k _ busy
                    (add_child_loop-Fork rounds (suc fd) pid files (added rounds fd pid files k))
                    (ground arith))
            | inr full ↦
                rw (busy, full)
                  (overflow (queue_of k (files fd)) (ground arith)
                    (ground (arith, here_refs rounds fd pid files k (queue_of k (files fd)) busy))
                    (ground (arith, here_refs rounds fd pid files k (queue_of k (files fd)) busy)))
          ]
    ]

-- On a fork, the child joins each queue behind the members that it had, once for each descriptor
-- that leads to the queue, so more than once where a descriptor is a duplicate; messages, block
-- lists and file objects stay. Exactly if a queue would get more than MAX_MEMBERS members, the
-- walk writes outside the array of its members.
pub do_add_child_to_msg_queue-Fork :
    (pid : ℕ) (files : ℕ → ℕ) (k : Kernel)
    → Fork max_open_files 0 pid files k (do_add_child_to_msg_queue pid files k)
unfolding do_add_child_to_msg_queue
do_add_child_to_msg_queue-Fork pid files k = add_child_loop-Fork max_open_files 0 pid files k
