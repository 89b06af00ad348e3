-- ===== src/Kernel/System/Closing.antt =====
-- A close of a queue (`do_msg_queue_close` of Assignment2/msg_queue.c) keeps members and
-- descriptors in agreement.
use cs330_assignments.Base.{
  ℕ, suc, ◌+◌, ◌≤◌, ◌<◌, ◌≡◌, ◌≢◌, ◌⊎◌, inl, inr, refl, sym, ap, ◌∙◌, arith, Bool, true, false,
  ◌&&◌, ◌==◌, if◌then◌else◌, update, Bool-cases, fun_ext,
}
use cs330_assignments.MsgQueue.State.{MsgQueueInfo, max_members}
use cs330_assignments.MsgQueue.Members.Entries.{entries, entries_empty}
use cs330_assignments.OpenFiles.State.{File, max_open_files, free_file_object}
use cs330_assignments.Kernel.State.{Kernel, queue_of}
use cs330_assignments.Kernel.Queues.{left_queue}
use cs330_assignments.Kernel.Queues.Fork.{queue_refs}
use cs330_assignments.Kernel.System.{System, after_call}
use cs330_assignments.Kernel.System.References.{queue_refs-update, queue_refs-ext}
use cs330_assignments.Kernel.System.Agreement.{Agrees, held, held_some, Agrees-live}

pub after_call_same : (s : System) (pid : ℕ) → after_call s pid (s.table pid) s.kernel ≡ s
after_call_same s pid =
    ap (λ t. record s { table = t }) (fun_ext (λ p. fun_ext (λ fd. ground arith)))

module _ (s : System) (pid fd : ℕ) (q : MsgQueueInfo) (empty : Bool) where
  abbrev pub page : ℕ
  page = s.table pid fd

  -- The address of the queue behind the descriptor.
  abbrev pub here : ℕ
  here = queue_of s.kernel page

  abbrev pub left : Kernel
  left = left_queue page here q empty s.kernel

  -- The processes after the close.
  abbrev pub closed_system : System
  closed_system = after_call s pid (update (s.table pid) fd 0) left

  pub left-object : left.store.object ≡ s.kernel.store.object
  unfolding free_file_object
  left-object = elim (Bool-cases empty) [ inl t ↦ ground arith | inr f ↦ ground arith ]

  left-queue : (a : ℕ) → left.queue a ≡ (if here == a then q else s.kernel.queue a)
  left-queue a = ground arith

  left-live :
      (a : ℕ) → left.queue_live a ≡ (if empty && (here == a) then false else s.kernel.queue_live a)
  left-live a = ground arith

  left-pages : (b : ℕ) → b ≢ page ⊎ (empty ≡ false) → left.store.live b ≡ s.kernel.store.live b
  unfolding free_file_object
  left-pages b (inl n) = ground arith
  left-pages b (inr f) = ground arith

  kept_entry : (p j : ℕ) → closed_system.table p j ≢ 0 → closed_system.table p j ≡ s.table p j
  kept_entry p j n = elim (Bool-cases (pid == p)) [
    | inl e ↦
        let same : pid ≡ p = ground arith in
        elim (Bool-cases (fd == j)) [
          | inl g ↦ absurd (n (ground arith))
          | inr g ↦ rw (e, g) (ap (λ x. s.table x j) same)
        ]
    | inr f ↦ rw f refl
  ]

  left-refs :
      (files : ℕ → ℕ) (b : ℕ)
      → queue_refs max_open_files 0 files left.store b
        ≡ queue_refs max_open_files 0 files s.kernel.store b
  left-refs files b =
      queue_refs-ext max_open_files 0 b files s.kernel.store left.store
        (λ j m. ap (λ (o : ℕ → File). (o (files j)).msg_queue) left-object)

  held_left :
      (p b : ℕ)
      → s.running pid ≡ true
      → fd < max_open_files
      → page ≢ 0
      → b ≢ 0
      → held closed_system p b + (if (pid == p) && (here == b) then 1 else 0) ≡ held s p b
  held_left p b r l n nb = elim (Bool-cases (pid == p)) [
    | inl e ↦
        let same : pid ≡ p = ground arith in
        let runs : s.running p ≡ true = rw (sym same) r in
        let less =
          queue_refs-update max_open_files 0 fd 0 b (s.table pid) s.kernel.store (omega arith) l in
        let used : (page == 0) ≡ false = ground arith in
        rw (e, runs, left-refs (update (s.table pid) fd 0) b, sym same)
          (omega (arith, rw used at less))
    | inr f ↦ elim (Bool-cases (s.running p)) [
      | inl t ↦ rw (f, t, left-refs (s.table p) b) (omega arith)
      | inr d ↦ rw (f, d) refl
    ]
  ]

  module _ (h : Agrees s) (r : s.running pid ≡ true) (l : fd < max_open_files) (n : page ≢ 0)
      (nq : here ≢ 0)
      (less : (p : ℕ) → entries p (s.kernel.queue here) ≡ (if pid == p then 1 else 0) + entries p q)
      (one_less : (s.kernel.queue here).member_count ≡ suc q.member_count)
      (last : empty ≡ (q.member_count == 0)) where
    was_live : s.kernel.queue_live here ≡ true
    was_live = Agrees-live s pid fd h r l n nq

    -- The queue that is closed, where members are left or not.
    held-here : (p : ℕ) → entries p q ≡ held closed_system p here
    held-here p =
        let same : (here == here) ≡ true = ground arith in
        ground (arith, less p, h.counted here p nq was_live, held_left p here r l n nq)

    held_there : (p b : ℕ) → b ≢ 0 → (here == b) ≡ false → held closed_system p b ≡ held s p b
    held_there p b nb f = ground (arith, held_left p b r l n nb)

    closed_counted :
        (b p : ℕ)
        → b ≢ 0
        → left.queue_live b ≡ true
        → entries p (left.queue b) ≡ held closed_system p b
    closed_counted b p nb t = elim (Bool-cases (here == b)) [
      | inl e ↦ let same : here ≡ b = ground arith in rw (left-queue b, e, sym same) (held-here p)
      | inr f ↦
          let there : s.kernel.queue_live b ≡ true = ground (arith, left-live b) in
          rw (left-queue b, f, held_there p b nb f) (h.counted b p nb there)
    ]

    closed_freed : (b p : ℕ) → b ≢ 0 → left.queue_live b ≡ false → held closed_system p b ≡ 0
    closed_freed b p nb t = elim (Bool-cases (here == b)) [
      | inl e ↦
          let same : here ≡ b = ground arith in
          let gone : q.member_count ≡ 0 = ground (arith, left-live b, rw same at was_live) in
          rw (sym same) (sym (held-here p) ∙ entries_empty p q gone)
      | inr f ↦
          let there : s.kernel.queue_live b ≡ false = ground (arith, left-live b) in
          rw (held_there p b nb f) (h.freed b p nb there)
    ]

    closed_fits :
        (b : ℕ)
        → b ≢ 0
        → left.queue_live b ≡ true
        → (0 < (left.queue b).member_count) × ((left.queue b).member_count ≤ max_members)
    closed_fits b nb t = elim (Bool-cases (here == b)) [
      | inl e ↦
          let same : here ≡ b = ground arith in
          let was = h.fits here nq was_live in
          let some_left : q.member_count ≢ 0 = ground (arith, left-live b) in
          rw (left-queue b, e) (omega (arith, was.1), omega (arith, was.1))
      | inr f ↦
          let there : s.kernel.queue_live b ≡ true = ground (arith, left-live b) in
          rw (left-queue b, f) (h.fits b nb there)
    ]

    closed_pages :
        (p j : ℕ)
        → s.running p ≡ true
        → j < max_open_files
        → closed_system.table p j ≢ 0
        → queue_of left (closed_system.table p j) ≢ 0
        → left.store.live (closed_system.table p j) ≡ true
    closed_pages p j t m nf nb =
        let x : ℕ = closed_system.table p j in
        let old : x ≡ s.table p j = kept_entry p j nf in
        let queue : queue_of left x ≡ queue_of s.kernel x =
          ap (λ (o : ℕ → File). (o x).msg_queue) left-object in
        let was : s.kernel.store.live x ≡ true =
          rw old (h.pages p j t m (rw old at nf) (rw old at (rw queue at nb))) in
        elim (Bool-cases empty) [
          | inl e ↦
              let gone : q.member_count ≡ 0 = ground (arith, sym e ∙ last) in
              let other : x ≢ page = λ same. absurd (
                omega (
                  arith,
                  rw (queue ∙ ap (queue_of s.kernel) same) at (held_some closed_system p j t m nf),
                  held-here p,
                  entries_empty p q gone,
                )) in
              left-pages x (inl other) ∙ was
          | inr f ↦ left-pages x (inr f) ∙ was
        ]

    pub closed-Agrees : Agrees closed_system
    closed-Agrees = record {
      counted = closed_counted;
      freed = closed_freed;
      fits = closed_fits;
      pages = closed_pages;
    }
