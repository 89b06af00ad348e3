-- ===== src/Kernel/System/Agreement.antt =====
-- The members of the queues and the descriptors that lead to them agree, and each call of
-- Assignment2/msg_queue.c keeps it so.
use cs330_assignments.Base.{
  ℕ, ◌≤◌, ◌<◌, ◌≡◌, ◌≢◌, inl, inr, sym, ap, ◌∙◌, arith, Bool, true, false, if◌then◌else◌,
  Bool-cases,
}
use cs330_assignments.MsgQueue.State.{max_members}
use cs330_assignments.MsgQueue.Members.Entries.{entries, SameMembers, SameMembers-entries}
use cs330_assignments.OpenFiles.State.{max_open_files}
use cs330_assignments.Kernel.State.{Kernel, queue_of}
use cs330_assignments.Kernel.Queues.Fork.{queue_refs}
use cs330_assignments.Kernel.System.{System}
use cs330_assignments.Kernel.System.References.{queue_refs_some}

-- How many descriptors of a process lead to a queue; a process that does not run has none.
abbrev pub held : System → ℕ → ℕ → ℕ
held s p a = if s.running p then queue_refs max_open_files 0 (s.table p) s.kernel.store a else 0

-- A queue that is allocated has members, and each process is a member as often as it has
-- descriptors of it; what is freed has no descriptor.
pub record Agrees (s : System) : Type 0 where
  pub counted :
      (a p : ℕ) → a ≢ 0 → s.kernel.queue_live a ≡ true → entries p (s.kernel.queue a) ≡ held s p a
  pub freed : (a p : ℕ) → a ≢ 0 → s.kernel.queue_live a ≡ false → held s p a ≡ 0
  pub fits :
      (a : ℕ)
      → a ≢ 0
      → s.kernel.queue_live a ≡ true
      → (0 < (s.kernel.queue a).member_count) × ((s.kernel.queue a).member_count ≤ max_members)
  pub pages :
      (p fd : ℕ)
      → s.running p ≡ true
      → fd < max_open_files
      → s.table p fd ≢ 0
      → queue_of s.kernel (s.table p fd) ≢ 0
      → s.kernel.store.live (s.table p fd) ≡ true

-- A descriptor that leads to a queue.
pub held_some :
    (s : System) (p fd : ℕ)
    → s.running p ≡ true
    → fd < max_open_files
    → s.table p fd ≢ 0
    → 0 < held s p (queue_of s.kernel (s.table p fd))
held_some s p fd r l n =
    let some =
      queue_refs_some max_open_files 0 fd (queue_of s.kernel (s.table p fd)) (s.table p)
        s.kernel.store (omega arith) (omega arith) (ground arith) in
    rw r some

-- The queue behind a descriptor is allocated.
pub Agrees-live :
    (s : System) (p fd : ℕ)
    → Agrees s
    → s.running p ≡ true
    → fd < max_open_files
    → s.table p fd ≢ 0
    → queue_of s.kernel (s.table p fd) ≢ 0
    → s.kernel.queue_live (queue_of s.kernel (s.table p fd)) ≡ true
Agrees-live s p fd h r l n q =
    elim (Bool-cases (s.kernel.queue_live (queue_of s.kernel (s.table p fd)))) [
      | inl t ↦ t
      | inr f ↦
          absurd (
            omega (arith, held_some s p fd r l n, h.freed (queue_of s.kernel (s.table p fd)) p q f))
    ]

-- A call that changes the queues and keeps their members.
pub record KeepsAll (k k' : Kernel) : Type 0 where
  pub queues : (a : ℕ) → SameMembers (k.queue a) (k'.queue a)
  pub store : k'.store ≡ k.store
  pub live : k'.queue_live ≡ k.queue_live

pub KeepsAll-Agrees :
    (s : System) (k : Kernel) → KeepsAll s.kernel k → Agrees s → Agrees (record s { kernel = k })
KeepsAll-Agrees s k e h =
    let live = λ (a : ℕ). ap (λ (f : ℕ → Bool). f a) e.live in
    record {
      counted = λ a p n l.
          SameMembers-entries p (s.kernel.queue a) (k.queue a) (e.queues a)
          ∙ (rw e.store (h.counted a p n (sym (live a) ∙ l)));
      freed = λ a p n l. rw e.store (h.freed a p n (sym (live a) ∙ l));
      fits = λ a n l. rw (e.queues a).count (h.fits a n (sym (live a) ∙ l));
      pages = λ p fd r l n q. rw e.store (h.pages p fd r l n (rw e.store at q));
    }
