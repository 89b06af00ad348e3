-- ===== src/Kernel/Queues/Create.antt =====
-- A new message queue, and its creation followed by its close (`do_create_msg_queue` and
-- `do_msg_queue_close` of Assignment2/msg_queue.c).
use cs330_assignments.Base.{
  ℕ, ◌+◌, ◌*◌, ◌%◌, ◌^◌, ◌≤◌, ◌<◌, ◌≡◌, ◌≢◌, ◌⊎◌, inl, inr, refl, arith, true, false, none, some,
  ◌==◌, if◌then◌else◌, update, Bool-cases, Option-cases, ℤ, pos,
}
use cs330_assignments.MsgQueue.State.{MsgQueueInfo, max_members, no_pid, enomem}
use cs330_assignments.MsgQueue.Members.{clear_row}
use cs330_assignments.OpenFiles.Opening.{alloc_file, fd_loop}
use cs330_assignments.OpenFiles.Opening.Outcome.{FirstFree, free_at, fd_loop-FirstFree}
use cs330_assignments.Kernel.State.{Kernel, queue_of}
use cs330_assignments.Kernel.Queues.{clear_rows, new_queue, do_create_msg_queue}

-- A queue with one member and nothing in it.
pub record Fresh (pid : ℕ) (q : MsgQueueInfo) : Type 0 where
  pub one : q.member_count ≡ 1
  pub member : q.member_pid 0 ≡ pid
  pub no_messages : q.msg_count ≡ 0
  pub no_blocks : (x : ℕ) → x < max_members * max_members → q.block_process x ≡ no_pid

new_queue-Fresh : (pid : ℕ) (q : MsgQueueInfo) → Fresh pid (new_queue pid q)
unfolding new_queue clear_rows clear_row
new_queue-Fresh pid q = record {
  one = refl;
  member = refl;
  no_messages = refl;
  no_blocks = λ x l. ground arith;
}

-- How a creation ends.
pub data Creating (pid info page : ℕ) (files : ℕ → ℕ) (k : Kernel)
    : ℤ × (ℕ → ℕ) × Kernel → Type 0 where
  created :
      {k' : Kernel} (fd : ℕ)
      → FirstFree files 3 13 (some fd)
      → Fresh pid (k'.queue info)
      → queue_of k' page ≡ info
      → k'.queue_live ≡ update k.queue_live info true
      → ((a : ℕ) → a ≢ info → k'.queue a ≡ k.queue a)
      → ((a : ℕ) → a ≢ page → k'.store.object a ≡ k.store.object a)
      → k'.store.live ≡ update k.store.live page true
      → k'.store.file_objects ≡ (k.store.file_objects + 1) % 2 ^ 64
      → Creating pid info page files k (pos fd, update files fd page, k')
  refused :
      FirstFree files 3 13 none ⊎ (info ≡ 0) → Creating pid info page files k (enomem, files, k)

-- For file objects not at 0, do_create_msg_queue makes the first free descriptor from 3 on lead
-- to a new queue of which the caller is the one member, without messages and blocks, and leaves
-- every other queue and file object alone, or returns -ENOMEM and changes nothing where no
-- descriptor is free or the queue cannot be allocated.
pub do_create_msg_queue-Creating :
    (pid info page : ℕ) (files : ℕ → ℕ) (k : Kernel)
    → page ≢ 0
    → Creating pid info page files k (do_create_msg_queue pid info page files k)
unfolding do_create_msg_queue alloc_file
do_create_msg_queue-Creating pid info page files k n = elim (Option-cases (fd_loop 13 3 files)) [
  | inl e ↦ rw (do_create_msg_queue, e) (refused (inl (rw e at (fd_loop-FirstFree 13 3 files))))
  | inr (fd, e) ↦ elim (Bool-cases (info == 0)) [
    | inl z ↦ rw (do_create_msg_queue, e, z) (refused (inr (ground arith)))
    | inr nz ↦
        let paged : (page == 0) ≡ false = ground arith in
        let queued : update k.queue info (new_queue pid (k.queue info)) info
            ≡ new_queue pid (k.queue info) =
          ground arith in
        rw (do_create_msg_queue, e, nz, paged)
          (created fd (rw e at (fd_loop-FirstFree 13 3 files))
            (rw queued (new_queue-Fresh pid (k.queue info))) (ground arith) refl
            (λ a d. ground arith) (λ a d. ground arith) refl refl)
  ]
]

-- What a close leaves of a creation.
pub record Restores (info page : ℕ) (files : ℕ → ℕ) (k : Kernel) (r : ℤ × (ℕ → ℕ) × Kernel)
    : Type 0 where
  pub result : r.0 ≡ pos 0
  pub table : (j : ℕ) → r.1 j ≡ files j
  pub queues : (a : ℕ) → r.2.queue_live a ≡ (if info == a then false else k.queue_live a)
  pub objects : (a : ℕ) → r.2.store.live a ≡ (if page == a then false else k.store.live a)
  pub number : r.2.store.file_objects ≡ k.store.file_objects

pub FirstFree-range :
    (files : ℕ → ℕ) (fd : ℕ)
    → FirstFree files 3 13 (some fd)
    → (3 ≤ fd) × (fd < 16) × (files fd ≡ 0)
FirstFree-range files _ (free_at fd l u e h) = (l, omega arith, e)
