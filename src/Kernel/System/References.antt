-- ===== src/Kernel/System/References.antt =====
-- How many descriptors of a process lead to a queue.
use cs330_assignments.Base.{
  ℕ, zero, suc, ◌+◌, ◌≤◌, ◌<◌, ◌≡◌, ◌≢◌, inl, inr, refl, arith, Bool, true, false, not, ◌&&◌, ◌==◌,
  if◌then◌else◌, update, Bool-cases,
}
use cs330_assignments.OpenFiles.State.{Store}
use cs330_assignments.Kernel.Queues.Fork.{queue_refs}

-- Whether a descriptor that leads to an object leads to a queue.
abbrev pub leads : Store → ℕ → ℕ → Bool
leads s a f = not (f == 0) && ((s.object f).msg_queue == a)

abbrev leads_count : Store → ℕ → ℕ → ℕ
leads_count s a f = if leads s a f then 1 else 0

queue_refs_before :
    (rounds i fd x a : ℕ) (files : ℕ → ℕ) (s : Store)
    → fd < i
    → queue_refs rounds i (update files fd x) s a ≡ queue_refs rounds i files s a
unfolding queue_refs
queue_refs_before zero i fd x a files s l = refl
queue_refs_before (suc rounds) i fd x a files s l =
    let other : (fd == i) ≡ false = ground arith in
    rw (other, queue_refs_before rounds (suc i) fd x a files s (omega arith)) refl

pub queue_refs-update :
    (rounds i fd x a : ℕ) (files : ℕ → ℕ) (s : Store)
    → i ≤ fd
    → fd < i + rounds
    → queue_refs rounds i (update files fd x) s a + (if leads s a (files fd) then 1 else 0)
      ≡ queue_refs rounds i files s a + (if leads s a x then 1 else 0)
unfolding queue_refs
queue_refs-update zero i fd x a files s l u = absurd (omega arith)
queue_refs-update (suc rounds) i fd x a files s l u = elim (Bool-cases (fd == i)) [
  | inl e ↦
      let same : fd ≡ i = ground arith in
      rw (e, same, queue_refs_before rounds (suc i) i x a files s (omega arith)) (omega arith)
  | inr f ↦
      let rest = queue_refs-update rounds (suc i) fd x a files s (ground arith) (omega arith) in
      rw f (omega (arith, rest))
]

-- Objects with the same queues lead to the same ones.
pub queue_refs-ext :
    (rounds i a : ℕ) (files : ℕ → ℕ) (s s' : Store)
    → ((fd : ℕ) → files fd ≢ 0 → (s'.object (files fd)).msg_queue ≡ (s.object (files fd)).msg_queue)
    → queue_refs rounds i files s' a ≡ queue_refs rounds i files s a
unfolding queue_refs
queue_refs-ext zero i a files s s' h = refl
queue_refs-ext (suc rounds) i a files s s' h = elim (Bool-cases (files i == 0)) [
  | inl e ↦ rw (e, queue_refs-ext rounds (suc i) a files s s' h) refl
  | inr f ↦ rw (h i (ground arith), queue_refs-ext rounds (suc i) a files s s' h) refl
]

pub queue_refs_some :
    (rounds i fd a : ℕ) (files : ℕ → ℕ) (s : Store)
    → i ≤ fd
    → fd < i + rounds
    → leads s a (files fd) ≡ true
    → 0 < queue_refs rounds i files s a
unfolding queue_refs
queue_refs_some zero i fd a files s l u e = absurd (omega arith)
queue_refs_some (suc rounds) i fd a files s l u e = elim (Bool-cases (fd == i)) [
  | inl t ↦ let same : fd ≡ i = ground arith in rw (rw same at e) (omega arith)
  | inr f ↦
      omega (arith, queue_refs_some rounds (suc i) fd a files s (ground arith) (omega arith) e)
]

pub queue_refs_zero :
    (rounds i a : ℕ) (files : ℕ → ℕ) (s : Store)
    → ((fd : ℕ) → i ≤ fd → fd < i + rounds → leads s a (files fd) ≡ false)
    → queue_refs rounds i files s a ≡ 0
unfolding queue_refs
queue_refs_zero zero i a files s h = refl
queue_refs_zero (suc rounds) i a files s h =
    rw
      (
        h i (omega arith) (omega arith),
        queue_refs_zero rounds (suc i) a files s (λ fd l u. h fd (omega arith) (omega arith)),
      )
      refl
