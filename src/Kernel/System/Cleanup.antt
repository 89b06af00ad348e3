-- ===== src/Kernel/System/Cleanup.antt =====
-- The queues of a process that exits (`do_msg_queue_cleanup` of Assignment2/msg_queue.c).
use cs330_assignments.Base.{
  ℕ, zero, suc, ◌+◌, ◌≤◌, ◌<◌, ◌≡◌, ◌⊎◌, inl, inr, refl, sym, ap, ◌∙◌, arith, true, ◌||◌, ℤ, pos,
  ◌==◌, update, Bool-cases, fun_ext,
}
use cs330_assignments.OpenFiles.State.{File, max_open_files}
use cs330_assignments.Kernel.State.{Kernel, queue_of}
use cs330_assignments.Kernel.Queues.{do_msg_queue_close, cleanup_loop}
use cs330_assignments.Kernel.System.{System, after_call}
use cs330_assignments.Kernel.System.Agreement.{Agrees}
use cs330_assignments.Kernel.System.CloseCall.{
  CloseCall, leads_nowhere, closes_queue, do_msg_queue_close-CloseCall, CloseCall-Agrees,
}
use cs330_assignments.Kernel.System.Closing.{left-object, after_call_same}

-- A descriptor that leads to no queue.
abbrev pub NoQueue : Kernel → ℕ → Type 0
NoQueue k f = (f ≡ 0) ⊎ (queue_of k f ≡ 0)

-- What the close of descriptor `i` does to the table.
record Shrinks (s : System) (pid i : ℕ) (r : ℤ × (ℕ → ℕ) × Kernel) : Type 0 where
  clean : NoQueue s.kernel (r.1 i)
  less : (j : ℕ) → (r.1 j ≡ 0) ⊎ (r.1 j ≡ s.table pid j)
  object : r.2.store.object ≡ s.kernel.store.object

update-cases : (f : ℕ → ℕ) (i j : ℕ) → (update f i 0 j ≡ 0) ⊎ (update f i 0 j ≡ f j)
update-cases f i j = elim (Bool-cases (i == j)) [
  | inl e ↦ rw e (inl refl)
  | inr n ↦ rw n (inr refl)
]

CloseCall-Shrinks :
    (s : System) (pid i : ℕ) (r : ℤ × (ℕ → ℕ) × Kernel) → CloseCall s pid i r → Shrinks s pid i r
CloseCall-Shrinks s pid i _ (leads_nowhere why) = record {
  clean = why;
  less = λ j. inr refl;
  object = refl;
}
CloseCall-Shrinks s pid i _ (closes_queue q empty n nq less one last) = record {
  clean = inl (ground arith);
  less = update-cases (s.table pid) i;
  object = left-object s pid i q empty;
}

after_call_at :
    (s : System) (pid : ℕ) (files : ℕ → ℕ) (k : Kernel)
    → (after_call s pid files k).table pid ≡ files
after_call_at s pid files k = fun_ext (λ j. ground arith)

after_call_twice :
    (s : System) (pid : ℕ) (files files' : ℕ → ℕ) (k k' : Kernel)
    → after_call (after_call s pid files k) pid files' k' ≡ after_call s pid files' k'
after_call_twice s pid files files' k k' =
    ap (λ t. record s { table = t; kernel = k' }) (fun_ext (λ p. fun_ext (λ j. ground arith)))

-- What the loop over the descriptors `i`, …, `i + rounds - 1` leaves.
pub record Cleaned (s : System) (pid i rounds : ℕ) (r : (ℕ → ℕ) × Kernel) : Type 0 where
  pub agrees : Agrees (after_call s pid r.0 r.1)
  pub clean : (j : ℕ) → i ≤ j → j < i + rounds → NoQueue s.kernel (r.0 j)
  pub less : (j : ℕ) → (r.0 j ≡ 0) ⊎ (r.0 j ≡ s.table pid j)
  pub object : r.1.store.object ≡ s.kernel.store.object

NoQueue-less : (k : Kernel) (f f' : ℕ) → (f' ≡ 0) ⊎ (f' ≡ f) → NoQueue k f → NoQueue k f'
NoQueue-less k f f' (inl e) h = inl e
NoQueue-less k f f' (inr e) h = rw e h

pub NoQueue-object :
    (k k' : Kernel) (f : ℕ) → k'.store.object ≡ k.store.object → NoQueue k' f → NoQueue k f
NoQueue-object k k' f e (inl z) = inl z
NoQueue-object k k' f e (inr z) = inr (sym (ap (λ (o : ℕ → File). (o f).msg_queue) e) ∙ z)

less_trans : (a b c : ℕ) → (c ≡ 0) ⊎ (c ≡ b) → (b ≡ 0) ⊎ (b ≡ a) → (c ≡ 0) ⊎ (c ≡ a)
less_trans a b c (inl e) h = inl e
less_trans a b c (inr e) (inl z) = inl (e ∙ z)
less_trans a b c (inr e) (inr z) = inr (e ∙ z)

-- The loop keeps the descriptors of `c`, or closes them.
less_entry :
    (s : System) (pid i rounds j : ℕ) (c : ℤ × (ℕ → ℕ) × Kernel) (r : (ℕ → ℕ) × Kernel)
    → Cleaned (after_call s pid c.1 c.2) pid (suc i) rounds r
    → (r.0 j ≡ 0) ⊎ (r.0 j ≡ c.1 j)
less_entry s pid i rounds j c r g = rw (after_call_at s pid c.1 c.2) at (g.less j)

-- One descriptor has been treated, and the others follow.
Cleaned-next :
    (s : System) (pid i rounds : ℕ) (c : ℤ × (ℕ → ℕ) × Kernel) (r : (ℕ → ℕ) × Kernel)
    → Shrinks s pid i c
    → Cleaned (after_call s pid c.1 c.2) pid (suc i) rounds r
    → Cleaned s pid i (suc rounds) r
Cleaned-next s pid i rounds c r h g = record {
  agrees = rw (after_call_twice s pid c.1 r.0 c.2 r.1) at g.agrees;
  clean = λ j l u. elim (Bool-cases (i == j)) [
    | inl e ↦
        let same : i ≡ j = ground arith in
        rw same at
          (NoQueue-less s.kernel (c.1 i) (r.0 i) (less_entry s pid i rounds i c r g) h.clean)
    | inr n ↦ NoQueue-object s.kernel c.2 (r.0 j) h.object (g.clean j (ground arith) (omega arith))
  ];
  less = λ j.
      less_trans (s.table pid j) (c.1 j) (r.0 j) (less_entry s pid i rounds j c r g) (h.less j);
  object = g.object ∙ h.object;
}

leads_nowhere_cases : (f a : ℕ) → ((f == 0) || (a == 0)) ≡ true → (f ≡ 0) ⊎ (a ≡ 0)
leads_nowhere_cases f a e = elim (Bool-cases (f == 0)) [
  | inl z ↦ inl (ground arith)
  | inr n ↦ inr (ground arith)
]

-- The loop over the rest of the descriptors.
pub cleanup_loop-Cleaned :
    (rounds i pid : ℕ) (s : System)
    → Agrees s
    → s.running pid ≡ true
    → i + rounds ≤ max_open_files
    → Cleaned s pid i rounds (cleanup_loop rounds i pid (s.table pid) s.kernel)
unfolding cleanup_loop
cleanup_loop-Cleaned zero i pid s h t l = record {
  agrees = rw (after_call_same s pid) h;
  clean = λ j a b. absurd (omega arith);
  less = λ j. inr refl;
  object = refl;
}
cleanup_loop-Cleaned (suc rounds) i pid s h t l =
    elim (Bool-cases ((s.table pid i == 0) || (queue_of s.kernel (s.table pid i) == 0))) [
      | inl skip ↦
          let rest = cleanup_loop-Cleaned rounds (suc i) pid s h t (omega arith) in
          rw skip (
            Cleaned-next s pid i rounds (pos 0, s.table pid, s.kernel) _
              (record { clean = leads_nowhere_cases _ _ skip; less = λ j. inr refl; object = refl })
              (rw (after_call_same s pid) rest))
      | inr busy ↦
          let c = do_msg_queue_close pid i (s.table pid) s.kernel in
          let call = do_msg_queue_close-CloseCall s pid i h t (omega arith) in
          let rest =
            cleanup_loop-Cleaned rounds (suc i) pid (after_call s pid c.1 c.2)
              (CloseCall-Agrees s pid i c h t (omega arith) call) t (omega arith) in
          rw busy (
            Cleaned-next s pid i rounds c _ (CloseCall-Shrinks s pid i c call)
              (rw (after_call_at s pid c.1 c.2) at rest))
    ]
