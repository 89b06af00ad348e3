-- ===== src/Kernel/System/Creation.antt =====
-- A new queue (`do_create_msg_queue` of Assignment2/msg_queue.c) keeps members and descriptors in
-- agreement.
use cs330_assignments.Base.{
  ℕ, ◌+◌, ◌≤◌, ◌<◌, ◌≡◌, ◌≢◌, ◌⊎◌, inl, inr, refl, sym, ap, arith, true, false, ◌&&◌, some, ℤ, ◌==◌,
  if◌then◌else◌, update, Bool-cases,
}
use cs330_assignments.MsgQueue.State.{max_members}
use cs330_assignments.MsgQueue.Members.Entries.{entries, entries_one}
use cs330_assignments.OpenFiles.State.{File, max_open_files}
use cs330_assignments.OpenFiles.Opening.Outcome.{FirstFree}
use cs330_assignments.Kernel.State.{Kernel, queue_of}
use cs330_assignments.Kernel.Queues.{do_create_msg_queue}
use cs330_assignments.Kernel.Queues.Create.{
  Fresh, Creating, created, refused, do_create_msg_queue-Creating, FirstFree-range,
}
use cs330_assignments.Kernel.Queues.Fork.{queue_refs}
use cs330_assignments.Kernel.System.{System, after_call}
use cs330_assignments.Kernel.System.References.{queue_refs-update, queue_refs-ext}
use cs330_assignments.Kernel.System.Agreement.{Agrees, held}
use cs330_assignments.Kernel.System.Closing.{after_call_same}

module _ (s : System) (pid info page fd : ℕ) (k : Kernel) (t : s.running pid ≡ true) (n : page ≢ 0)
    (new_page : (p j : ℕ) → s.running p ≡ true → s.table p j ≢ page)
    (new_info : s.kernel.queue_live info ≡ false) (h : Agrees s)
    (first : FirstFree (s.table pid) 3 13 (some fd)) (fresh : Fresh pid (k.queue info))
    (leads_to : queue_of k page ≡ info)
    (now_live : k.queue_live ≡ update s.kernel.queue_live info true)
    (others : (a : ℕ) → a ≢ info → k.queue a ≡ s.kernel.queue a)
    (objects : (a : ℕ) → a ≢ page → k.store.object a ≡ s.kernel.store.object a)
    (page_live : k.store.live ≡ update s.kernel.store.live page true) where
  abbrev new_system : System
  new_system = after_call s pid (update (s.table pid) fd page) k

  refs_new :
      (p a : ℕ)
      → s.running p ≡ true
      → queue_refs max_open_files 0 (s.table p) k.store a
        ≡ queue_refs max_open_files 0 (s.table p) s.kernel.store a
  refs_new p a r =
      queue_refs-ext max_open_files 0 a (s.table p) s.kernel.store k.store
        (λ j m. ap (λ (f : File). f.msg_queue) (objects (s.table p j) (new_page p j r)))

  held_new :
      (p a : ℕ) → held new_system p a ≡ held s p a + (if (pid == p) && (info == a) then 1 else 0)
  held_new p a = elim (Bool-cases (pid == p)) [
    | inl e ↦
        let same : pid ≡ p = ground arith in
        let runs : s.running p ≡ true = rw (sym same) t in
        let range = FirstFree-range (s.table pid) fd first in
        let used : (page == 0) ≡ false = ground arith in
        let more =
          queue_refs-update max_open_files 0 fd page a (s.table pid) k.store (omega arith)
            (omega (arith, range.0, range.1)) in
        rw (e, runs, sym same)
          (omega (arith, refs_new pid a t, rw (range.2, used, leads_to) at more))
    | inr f ↦ elim (Bool-cases (s.running p)) [
      | inl r ↦ rw (f, r) (omega (arith, refs_new p a r))
      | inr d ↦ rw (f, d) refl
    ]
  ]

  new_live : (a : ℕ) → k.queue_live a ≡ (if info == a then true else s.kernel.queue_live a)
  new_live a = rw now_live refl

  new_counted :
      (a p : ℕ) → a ≢ 0 → k.queue_live a ≡ true → entries p (k.queue a) ≡ held new_system p a
  new_counted a p na l = elim (Bool-cases (info == a)) [
    | inl e ↦
        let same : info ≡ a = ground arith in
        ground (
          arith,
          held_new p a,
          h.freed a p na (rw same at new_info),
          rw same at (entries_one pid p (k.queue info) fresh.one fresh.member),
        )
    | inr f ↦
        let was : s.kernel.queue_live a ≡ true = ground (arith, new_live a) in
        ground (arith, held_new p a, h.counted a p na was, ap (entries p) (others a (ground arith)))
  ]

  new_freed : (a p : ℕ) → a ≢ 0 → k.queue_live a ≡ false → held new_system p a ≡ 0
  new_freed a p na l =
      let other : (info == a) ≡ false = ground (arith, new_live a) in
      let was : s.kernel.queue_live a ≡ false = ground (arith, new_live a) in
      ground (arith, held_new p a, h.freed a p na was)

  new_fits :
      (a : ℕ)
      → a ≢ 0
      → k.queue_live a ≡ true
      → (0 < (k.queue a).member_count) × ((k.queue a).member_count ≤ max_members)
  new_fits a na l = elim (Bool-cases (info == a)) [
    | inl e ↦
        let same : info ≡ a = ground arith in
        let one = rw same at fresh.one in rw one (omega arith, omega arith)
    | inr f ↦
        let was : s.kernel.queue_live a ≡ true = ground (arith, new_live a) in
        rw (others a (ground arith)) (h.fits a na was)
  ]

  new_entry : (p j : ℕ) → (new_system.table p j ≡ page) ⊎ (new_system.table p j ≡ s.table p j)
  new_entry p j = elim (Bool-cases (pid == p)) [
    | inl e ↦
        let same : pid ≡ p = ground arith in
        elim (Bool-cases (fd == j)) [
          | inl g ↦ inl (ground arith)
          | inr g ↦ rw (e, g) (inr (ap (λ x. s.table x j) same))
        ]
    | inr f ↦ rw f (inr refl)
  ]

  new_pages :
      (p j : ℕ)
      → s.running p ≡ true
      → j < max_open_files
      → new_system.table p j ≢ 0
      → queue_of k (new_system.table p j) ≢ 0
      → k.store.live (new_system.table p j) ≡ true
  new_pages p j r m nf nq = elim (new_entry p j) [
    | inl e ↦ rw (e, page_live) (ground arith)
    | inr e ↦
        let other = new_page p j r in
        let object = ap (λ (f : File). f.msg_queue) (objects (s.table p j) other) in
        let was = h.pages p j r m (rw e at nf) (rw object at (rw e at nq)) in
        rw (e, page_live) (ground arith)
  ]

  new-Agrees : Agrees new_system
  new-Agrees = record {
    counted = new_counted;
    freed = new_freed;
    fits = new_fits;
    pages = new_pages;
  }

Creating-Agrees :
    (s : System) (pid info page : ℕ) (r : ℤ × (ℕ → ℕ) × Kernel)
    → s.running pid ≡ true
    → page ≢ 0
    → ((p j : ℕ) → s.running p ≡ true → s.table p j ≢ page)
    → s.kernel.queue_live info ≡ false
    → Agrees s
    → Creating pid info page (s.table pid) s.kernel r
    → Agrees (after_call s pid r.1 r.2)
Creating-Agrees s pid info page r t n new_page new_info h
      (created {k' = k} fd first fresh to live qs os pages num) =
    new-Agrees s pid info page fd k t n new_page new_info h first fresh to live qs os pages
Creating-Agrees s pid info page r t n new_page new_info h (refused why) =
    rw (after_call_same s pid) h

pub do_create_msg_queue-Agrees :
    (s : System) (pid info page : ℕ)
    → s.running pid ≡ true
    → page ≢ 0
    → ((p j : ℕ) → s.running p ≡ true → s.table p j ≢ page)
    → s.kernel.queue_live info ≡ false
    → Agrees s
    → Agrees (
        let r = do_create_msg_queue pid info page (s.table pid) s.kernel in
        after_call s pid r.1 r.2)
do_create_msg_queue-Agrees s pid info page t n new_page new_info h =
    Creating-Agrees s pid info page _ t n new_page new_info h
      (do_create_msg_queue-Creating pid info page (s.table pid) s.kernel n)
