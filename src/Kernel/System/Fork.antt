-- ===== src/Kernel/System/Fork.antt =====
-- A fork (`do_fork` of Assignment2/entry.c) keeps members and descriptors in agreement.
use cs330_assignments.Base.{
  ℕ, ◌+◌, ◌≤◌, ◌<◌, ◌≡◌, ◌≢◌, inl, inr, refl, sym, ap, ◌∙◌, arith, true, false, ◌++◌, Option, none,
  some, ◌==◌, if◌then◌else◌, update, Bool-cases, slice, slice-ext, slice-append,
}
use cs330_assignments.MsgQueue.State.{MsgQueueInfo, max_members}
use cs330_assignments.MsgQueue.Members.Entries.{
  entries, entries_lem, occurrences-append, occurrences_run,
}
use cs330_assignments.OpenFiles.State.{Store, max_open_files}
use cs330_assignments.Kernel.State.{Kernel, queue_of}
use cs330_assignments.Kernel.Queues.Fork.{
  queue_refs, Joined, Fork, joins, overflow, do_add_child_to_msg_queue-Fork,
}
use cs330_assignments.Kernel.System.{System, after_call, do_fork, KeepsObjects}
use cs330_assignments.Kernel.System.References.{queue_refs-ext}
use cs330_assignments.Kernel.System.Agreement.{Agrees, held}

-- The entries of a queue that a process has joined.
Joined-entries :
    (n pid p : ℕ) (q q' : MsgQueueInfo)
    → Joined n pid q q'
    → entries p q' ≡ entries p q + (if pid == p then n else 0)
Joined-entries n pid p q q' h =
    let old = slice q'.member_pid 0 q.member_count in
    let new = slice q'.member_pid q.member_count n in
    let kept : old ≡ slice q.member_pid 0 q.member_count =
      slice-ext q'.member_pid q.member_pid 0 q.member_count
        (λ j l u. h.old_members j (omega arith)) in
    let split : slice q'.member_pid 0 (q.member_count + n) ≡ old ++ new =
      let start : 0 + q.member_count ≡ q.member_count = omega arith in
      rw start at (slice-append q'.member_pid 0 q.member_count n) in
    rw
      (
        entries_lem p q,
        entries_lem p q',
        h.count,
        split,
        occurrences-append p old new,
        kept,
        occurrences_run n q.member_count pid p q'.member_pid h.new_members,
      )
      refl

module _ (s : System) (pid child : ℕ) (store : Store) (k : Kernel) (t : s.running pid ≡ true)
    (d : s.running child ≡ false) (keeps : KeepsObjects s.kernel.store store) (h : Agrees s)
    (joined : (a : ℕ)
      → a ≢ 0
      → Joined
          (queue_refs max_open_files 0 (s.table pid) store a)
          child
          (s.kernel.queue a)
          (k.queue a))
    (fit : (a : ℕ)
      → a ≢ 0
      → 0 < queue_refs max_open_files 0 (s.table pid) store a
      → (k.queue a).member_count ≤ max_members)
    (objects : k.store ≡ store) (live : k.queue_live ≡ s.kernel.queue_live) where
  abbrev forked : System
  forked = record (after_call s child (s.table pid) k) { running = update s.running child true }

  forked_refs :
      (files : ℕ → ℕ) (a : ℕ)
      → queue_refs max_open_files 0 files store a
        ≡ queue_refs max_open_files 0 files s.kernel.store a
  forked_refs files a =
      queue_refs-ext max_open_files 0 a files s.kernel.store store (λ j m. keeps.queues (files j))

  -- The child has the descriptors of its parent.
  held-forked : (p a : ℕ) → held forked p a ≡ held s p a + (if child == p then held s pid a else 0)
  held-forked p a = elim (Bool-cases (child == p)) [
    | inl e ↦
        let same : child ≡ p = ground arith in
        let not_before : s.running p ≡ false = sym (ap s.running same) ∙ d in
        rw (e, not_before, t, objects, forked_refs (s.table pid) a) (omega arith)
    | inr f ↦ elim (Bool-cases (s.running p)) [
      | inl r ↦ rw (f, r, objects, forked_refs (s.table p) a) (omega arith)
      | inr g ↦ rw (f, g) refl
    ]
  ]

  -- The number of descriptors of the parent.
  parent_refs : (a : ℕ) → queue_refs max_open_files 0 (s.table pid) store a ≡ held s pid a
  parent_refs a = rw t (forked_refs (s.table pid) a)

  forked_counted :
      (a p : ℕ) → a ≢ 0 → k.queue_live a ≡ true → entries p (k.queue a) ≡ held forked p a
  forked_counted a p na l =
      let was : s.kernel.queue_live a ≡ true = rw live at l in
      let now = Joined-entries _ child p (s.kernel.queue a) (k.queue a) (joined a na) in
      rw (held-forked p a, sym (h.counted a p na was), sym (parent_refs a)) now

  forked_freed : (a p : ℕ) → a ≢ 0 → k.queue_live a ≡ false → held forked p a ≡ 0
  forked_freed a p na l =
      let was : s.kernel.queue_live a ≡ false = rw live at l in
      ground (arith, held-forked p a, h.freed a p na was, h.freed a pid na was)

  forked_fits :
      (a : ℕ)
      → a ≢ 0
      → k.queue_live a ≡ true
      → (0 < (k.queue a).member_count) × ((k.queue a).member_count ≤ max_members)
  forked_fits a na l =
      let was : s.kernel.queue_live a ≡ true = rw live at l in
      let f = h.fits a na was in
      let more = (joined a na).count in
      (omega (arith, f.0, more), ground (arith, f.1, more, fit a na))

  forked_pages :
      (p j : ℕ)
      → forked.running p ≡ true
      → j < max_open_files
      → forked.table p j ≢ 0
      → queue_of k (forked.table p j) ≢ 0
      → k.store.live (forked.table p j) ≡ true
  forked_pages p j r m nf nq =
      let x : ℕ = forked.table p j in
      let queue : queue_of k x ≡ queue_of s.kernel x = rw objects (keeps.queues x) in
      let same_live : k.store.live x ≡ s.kernel.store.live x = rw objects (keeps.live x) in
      let nq' : queue_of s.kernel x ≢ 0 = rw queue at nq in
      same_live ∙ (elim (Bool-cases (child == p)) [
        | inl e ↦ rw e (h.pages pid j t m (rw e at nf) (rw e at nq'))
        | inr f ↦ rw f (h.pages p j (rw f at r) m (rw f at nf) (rw f at nq'))
      ])

  forked-Agrees : Agrees forked
  forked-Agrees = record {
    counted = forked_counted;
    freed = forked_freed;
    fits = forked_fits;
    pages = forked_pages;
  }

-- What a fork leaves: agreement, or a queue that would get more than MAX_MEMBERS members.
pub data Forked (s : System) (pid : ℕ) : Option System → Type 0 where
  agrees : {s' : System} → Agrees s' → Forked s pid (some s')
  overflows :
      (a : ℕ)
      → a ≢ 0
      → max_members < (s.kernel.queue a).member_count + held s pid a
      → Forked s pid none

Fork-Forked :
    (s : System) (pid child : ℕ) (store : Store) (o : Option Kernel)
    → s.running pid ≡ true
    → s.running child ≡ false
    → KeepsObjects s.kernel.store store
    → Agrees s
    → Fork max_open_files 0 child (s.table pid) (record s.kernel { store = store }) o
    → Forked s pid (elim o [
      | none ↦ none
      | some k ↦
          some
            (record (after_call s child (s.table pid) k) { running = update s.running child true })
    ])
Fork-Forked s pid child store _ t d keeps h (joins {k' = k} joined fit objects live) =
    agrees (forked-Agrees s pid child store k t d keeps h joined fit objects live)
Fork-Forked s pid child store _ t d keeps h (overflow a n p m) =
    let refs =
      queue_refs-ext max_open_files 0 a (s.table pid) s.kernel.store store
        (λ j l. keeps.queues (s.table pid j)) in
    overflows a n (rw t (rw refs at m))

pub do_fork-Forked :
    (s : System) (setup : Store → Store) (pid child : ℕ)
    → s.running pid ≡ true
    → s.running child ≡ false
    → KeepsObjects s.kernel.store (setup s.kernel.store)
    → Agrees s
    → Forked s pid (do_fork setup pid child s)
unfolding do_fork
do_fork-Forked s setup pid child t d keeps h =
    Fork-Forked s pid child (setup s.kernel.store) _ t d keeps h (
      do_add_child_to_msg_queue-Fork child (s.table pid)
        (record s.kernel { store = setup s.kernel.store }))
