-- ===== src/Kernel/System/Exit.antt =====
-- The exit of a process (`do_exit` of Assignment2/entry.c with `do_msg_queue_cleanup` and
-- `do_file_exit`).
use cs330_assignments.Base.{
  ℕ, zero, suc, ◌+◌, ◌≤◌, ◌<◌, ◌≡◌, ◌≢◌, ◌⊎◌, inl, inr, refl, sym, ap, ◌∙◌, arith, true, false,
  ◌==◌, update, Bool-cases,
}
use cs330_assignments.OpenFiles.State.{
  Store, max_open_files, free_file_object, release, exit_loop, do_file_exit,
}
use cs330_assignments.Kernel.State.{Kernel, queue_of}
use cs330_assignments.Kernel.Queues.{cleanup_loop, do_msg_queue_cleanup}
use cs330_assignments.Kernel.Queues.Fork.{queue_refs}
use cs330_assignments.Kernel.System.{System, after_call, do_exit}
use cs330_assignments.Kernel.System.References.{queue_refs-ext, queue_refs_zero}
use cs330_assignments.Kernel.System.Agreement.{Agrees, held}
use cs330_assignments.Kernel.System.Cleanup.{NoQueue, NoQueue-object, cleanup_loop-Cleaned}

-- The queues of the objects, and the objects of queues that are allocated, stay.
record KeepsQueueObjects (s s' : Store) : Type 0 where
  queues : (a : ℕ) → (s'.object a).msg_queue ≡ (s.object a).msg_queue
  live : (a : ℕ) → (s.object a).msg_queue ≢ 0 → s'.live a ≡ s.live a

release-KeepsQueueObjects :
    (a : ℕ) (s : Store) → (s.object a).msg_queue ≡ 0 → KeepsQueueObjects s (release a s)
unfolding release free_file_object
release-KeepsQueueObjects a s e = record {
  queues = λ b. ground arith;
  live = λ b n. elim (Bool-cases (a == b)) [
    | inl same ↦ absurd (n (sym (ap (λ x. (s.object x).msg_queue) (ground arith)) ∙ e))
    | inr f ↦ ground arith
  ];
}

exit_loop-KeepsQueueObjects :
    (rounds i : ℕ) (files : ℕ → ℕ) (s : Store)
    → ((j : ℕ) → i ≤ j → j < i + rounds → (files j ≡ 0) ⊎ ((s.object (files j)).msg_queue ≡ 0))
    → KeepsQueueObjects s (exit_loop rounds i files s)
unfolding exit_loop
exit_loop-KeepsQueueObjects zero i files s h = record { queues = λ a. refl; live = λ a n. refl }
exit_loop-KeepsQueueObjects (suc rounds) i files s h = elim (Bool-cases (files i == 0)) [
  | inl e ↦ rw e (
      exit_loop-KeepsQueueObjects rounds (suc i) files s (λ j l u. h j (omega arith) (omega arith)))
  | inr n ↦
      let here : (s.object (files i)).msg_queue ≡ 0 = elim (h i (omega arith) (omega arith)) [
        | inl z ↦ absurd (ground arith)
        | inr z ↦ z
      ] in
      let one = release-KeepsQueueObjects (files i) s here in
      let rest = exit_loop-KeepsQueueObjects rounds (suc i) files (release (files i) s) (λ j l u.
        elim (h j (omega arith) (omega arith)) [
          | inl z ↦ inl z
          | inr z ↦ inr (one.queues (files j) ∙ z)
        ]) in
      rw n (record {
        queues = λ a. rest.queues a ∙ one.queues a;
        live = λ a m. rest.live a (rw (one.queues a) m) ∙ one.live a m;
      })
]

-- No descriptor of the process leads to a queue.
nothing_held :
    (pid a : ℕ) (files : ℕ → ℕ) (k : Kernel)
    → a ≢ 0
    → ((j : ℕ) → j < max_open_files → NoQueue k (files j))
    → queue_refs max_open_files 0 files k.store a ≡ 0
nothing_held pid a files k n h =
    queue_refs_zero max_open_files 0 a files k.store
      (λ j l u. elim (h j (omega arith)) [ inl z ↦ ground arith | inr z ↦ ground arith ])

-- The processes that an exit leaves.
abbrev pub exited : System → ℕ → (ℕ → ℕ) → Kernel → Store → ℕ → System
exited s pid files k store n = record (after_call s pid files (record k { store = store })) {
  running = update s.running pid false;
  num_processes = n;
}

module _ (s : System) (pid n : ℕ) (files : ℕ → ℕ) (k : Kernel) (store : Store) where
  -- The queues of the process are closed, and its files are not.
  abbrev cleaned : System
  cleaned = after_call s pid files k

  held-exited :
      (p a : ℕ)
      → s.running pid ≡ true
      → a ≢ 0
      → ((j : ℕ) → j < max_open_files → NoQueue k (files j))
      → KeepsQueueObjects k.store store
      → held (exited s pid files k store n) p a ≡ held cleaned p a
  held-exited p a t na none_left keeps = elim (Bool-cases (pid == p)) [
    | inl e ↦
        let same : pid ≡ p = ground arith in
        let runs : s.running p ≡ true = sym (ap s.running same) ∙ t in
        rw (e, runs, nothing_held pid a files k na none_left) refl
    | inr f ↦
        let keeps_refs =
          queue_refs-ext max_open_files 0 a (s.table p) k.store store
            (λ j m. keeps.queues (s.table p j)) in
        rw (f, keeps_refs) refl
  ]

  exited-Agrees :
      s.running pid ≡ true
      → ((j : ℕ) → j < max_open_files → NoQueue k (files j))
      → KeepsQueueObjects k.store store
      → Agrees cleaned
      → Agrees (exited s pid files k store n)
  exited-Agrees t none_left keeps h = record {
    counted = λ a p na l. h.counted a p na l ∙ sym (held-exited p a t na none_left keeps);
    freed = λ a p na l. held-exited p a t na none_left keeps ∙ h.freed a p na l;
    fits = h.fits;
    pages = λ p j runs l m nq.
        let other : (pid == p) ≡ false = ground arith in
        let x : ℕ = update s.table pid files p j in
        let nq' : queue_of k x ≢ 0 = rw (keeps.queues x) at nq in
        keeps.live x nq' ∙ h.pages p j (rw other at runs) l m nq';
  }

-- An exit, where members and descriptors agree, leaves them in agreement.
pub do_exit-Agrees :
    (pid : ℕ) (s : System) → s.running pid ≡ true → Agrees s → Agrees (do_exit pid s).1
unfolding do_exit do_msg_queue_cleanup do_file_exit
do_exit-Agrees pid s t h =
    let c = cleanup_loop-Cleaned max_open_files 0 pid s h t (omega arith) in
    let r = cleanup_loop max_open_files 0 pid (s.table pid) s.kernel in
    let none_left = λ (j : ℕ) (l : j < max_open_files).
      NoQueue-object r.1 s.kernel (r.0 j) (sym c.object) (c.clean j (omega arith) (omega arith)) in
    exited-Agrees s pid _ r.0 r.1 _ t none_left
      (exit_loop-KeepsQueueObjects max_open_files 0 r.0 r.1.store (λ j a l. none_left j l)) c.agrees
