-- ===== src/MsgQueue/Members/Entries.antt =====
-- How often a process stands among the members of a queue, and what the calls of
-- Assignment2/msg_queue.c do to this number.
use cs330_assignments.Base.{
  ℕ, zero, suc, ◌+◌, ◌-◌, ◌≤◌, ◌<◌, ◌≡◌, inl, inr, refl, ap, ◌∙◌, arith, Bool, false, Option, some,
  List, ◌∷◌, ◌++◌, length, length-append, select, select-append, slice, ◌==◌, if◌then◌else◌,
}
use cs330_assignments.MsgQueue.State.{MsgQueueInfo, members, max_members, member_loop}
use cs330_assignments.MsgQueue.Members.{close_queue, leave}
use cs330_assignments.MsgQueue.Members.Close.{Leaves, close_queue-Leaves, member_count-leave}

-- How often a process stands in a list.
abbrev pub occurrences : ℕ → List ℕ → ℕ
occurrences pid ps = length (select (λ p. p == pid) ps)

-- How often a process stands among the members.
unfoldable pub entries : ℕ → MsgQueueInfo → ℕ
entries pid q = occurrences pid (members q)

pub occurrences-append :
    (pid : ℕ) (xs ys : List ℕ)
    → occurrences pid (xs ++ ys) ≡ occurrences pid xs + occurrences pid ys
occurrences-append pid xs ys =
    ap length (select-append (λ p. p == pid) xs ys)
    ∙ length-append (select (λ p. p == pid) xs) (select (λ p. p == pid) ys)

occurrences-cons :
    (pid p : ℕ) (xs : List ℕ)
    → occurrences pid (p ∷ xs) ≡ (if p == pid then 1 else 0) + occurrences pid xs
unfolding select
occurrences-cons pid p xs = ground arith

pub entries_lem :
    (pid : ℕ) (q : MsgQueueInfo)
    → entries pid q ≡ occurrences pid (slice q.member_pid 0 q.member_count)
unfolding entries
entries_lem pid q = refl

-- A queue with the members of another one.
pub record SameMembers (q q' : MsgQueueInfo) : Type 0 where
  pub count : q'.member_count ≡ q.member_count
  pub same : q'.member_pid ≡ q.member_pid

abbrev pub unchanged : (q : MsgQueueInfo) → SameMembers q q
unchanged q = record { count = refl; same = refl }

pub SameMembers-entries :
    (pid : ℕ) (q q' : MsgQueueInfo) → SameMembers q q' → entries pid q' ≡ entries pid q
unfolding entries
SameMembers-entries pid q q' h = rw (h.count, h.same) refl

-- The first entry of a process leaves, and the others stay.
pub Leaves-entries :
    (pid k n p : ℕ) (q q' : MsgQueueInfo)
    → Leaves pid k n q q'
    → entries p q ≡ (if pid == p then 1 else 0) + entries p q'
unfolding entries
Leaves-entries pid k n p q q' h =
    let a = slice q.member_pid 0 k in
    let b = slice q.member_pid (suc k) n in
    rw (h.was, h.now)
      (omega (
        arith,
        occurrences-append p a (pid ∷ b),
        occurrences-append p a b,
        occurrences-cons p pid b,
      ))

no_occurrence :
    (r i pid : ℕ) (a : ℕ → ℕ) → member_loop r i pid a ≡ false → occurrences pid (slice a i r) ≡ 0
unfolding member_loop slice select
no_occurrence zero i pid a e = refl
no_occurrence (suc r) i pid a e = ground (arith, no_occurrence r (suc i) pid a)

-- What a close by a process with an entry leaves.
pub data Closed (pid : ℕ) (q : MsgQueueInfo) : Option (MsgQueueInfo × Bool) → Type 0 where
  closed :
      {q' : MsgQueueInfo}
      → ((p : ℕ) → entries p q ≡ (if pid == p then 1 else 0) + entries p q')
      → q.member_count ≡ suc q'.member_count
      → Closed pid q (some (q', q'.member_count == 0))

pub close_queue-Closed :
    (pid : ℕ) (q : MsgQueueInfo)
    → q.member_count ≤ max_members
    → 0 < entries pid q
    → Closed pid q (close_queue pid q)
close_queue-Closed pid q fits p = elim (close_queue-Leaves pid q fits) [
  | inl (e, f) ↦
      absurd (omega (arith, no_occurrence q.member_count 0 pid q.member_pid e, entries_lem pid q))
  | inr (k, n, total, e, h) ↦
      let left : k + n ≡ (leave k pid q).member_count = omega (arith, member_count-leave k pid q) in
      rw (e, left) (closed (λ x. Leaves-entries pid k n x q (leave k pid q) h) (omega arith))
]

pub entries_empty : (pid : ℕ) (q : MsgQueueInfo) → q.member_count ≡ 0 → entries pid q ≡ 0
unfolding entries slice select
entries_empty pid q e = rw e refl

-- A process stands in a run of entries of its own.
pub occurrences_run :
    (n i pid p : ℕ) (a : ℕ → ℕ)
    → ((j : ℕ) → i ≤ j → j < i + n → a j ≡ pid)
    → occurrences p (slice a i n) ≡ (if pid == p then n else 0)
unfolding slice select
occurrences_run zero i pid p a h = ground arith
occurrences_run (suc n) i pid p a h =
    let first = h i (omega arith) (omega arith) in
    let rest = occurrences_run n (suc i) pid p a (λ j l u. h j (omega arith) (omega arith)) in
    ground (arith, first, rest, occurrences-cons p (a i) (slice a (suc i) n))

pub entries_one :
    (pid p : ℕ) (q : MsgQueueInfo)
    → q.member_count ≡ 1
    → q.member_pid 0 ≡ pid
    → entries p q ≡ (if pid == p then 1 else 0)
entries_one pid p q e f =
    let run =
      occurrences_run 1 0 pid p q.member_pid (λ j l u. let z : j ≡ 0 = omega arith in rw z f) in
    rw (entries_lem p q, e) run

-- The first member has an entry.
pub entries_first : (q : MsgQueueInfo) → 0 < q.member_count → 0 < entries (q.member_pid 0) q
unfolding slice
entries_first q l =
    let more : q.member_count ≡ suc (q.member_count - 1) = omega arith in
    rw (entries_lem (q.member_pid 0) q, more)
      (ground (
        arith,
        occurrences-cons (q.member_pid 0) (q.member_pid 0)
            (slice q.member_pid 1 (q.member_count - 1)),
      ))
