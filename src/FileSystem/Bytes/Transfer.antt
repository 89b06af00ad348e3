-- ===== src/FileSystem/Bytes/Transfer.antt =====
-- The loops of `flat_read` and `flat_write` (Assignment2/fs.c) that move bytes.
use cs330_assignments.Base.{
  ℕ, zero, suc, ◌+◌, ◌%◌, ◌^◌, ◌≤◌, ◌<◌, ◌≡◌, ◌⊎◌, inl, inr, refl, arith, ◌==◌, update, Memory, ◌∙◌,
  Bool-cases,
}
use cs330_assignments.FileSystem.Bytes.{load_loop, store_loop}

-- Addresses that are not among those of the remaining rounds, and the byte of one round, where no
-- address comes up twice.
pub store_loop-before :
    (k i j base : ℕ) (buf : ℕ → ℕ) (mem : Memory)
    → j < i
    → i + k ≤ j + 2 ^ 64
    → store_loop k i base buf mem ((base + j) % 2 ^ 64) ≡ mem ((base + j) % 2 ^ 64)
unfolding store_loop
store_loop-before zero i j base buf mem h l = refl
store_loop-before (suc k) i j base buf mem h l =
    store_loop-before k (suc i) j base buf (update mem ((base + i) % 2 ^ 64) (buf i)) (omega arith)
      (omega arith)
    ∙ ground arith

pub store_loop-in :
    (k i j base : ℕ) (buf : ℕ → ℕ) (mem : Memory)
    → i ≤ j
    → j < i + k
    → i + k ≤ j + 2 ^ 64
    → store_loop k i base buf mem ((base + j) % 2 ^ 64) ≡ buf j
unfolding store_loop
store_loop-in zero i j base buf mem h l m = absurd (omega arith)
store_loop-in (suc k) i j base buf mem h l m = elim (Bool-cases (i == j)) [
  | inl e ↦
      let e' : i ≡ j = ground arith in
      rw e' (
        store_loop-before k (suc j) j base buf (update mem ((base + j) % 2 ^ 64) (buf j))
          (omega arith) (omega arith)
        ∙ ground arith)
  | inr f ↦
      let ne : i < j = ground arith in
      store_loop-in k (suc i) j base buf (update mem ((base + i) % 2 ^ 64) (buf i)) (omega arith)
        (omega arith) (omega arith)
]

-- Addresses outside a range that does not wrap around.
pub store_loop-out :
    (k i a base : ℕ) (buf : ℕ → ℕ) (mem : Memory)
    → base + i + k ≤ 2 ^ 64
    → (a < base + i) ⊎ (base + i + k ≤ a)
    → store_loop k i base buf mem a ≡ mem a
unfolding store_loop
store_loop-out zero i a base buf mem h o = refl
store_loop-out (suc k) i a base buf mem h (inl o) =
    store_loop-out k (suc i) a base buf (update mem ((base + i) % 2 ^ 64) (buf i)) (omega arith)
      (inl (omega arith))
    ∙ ground arith
store_loop-out (suc k) i a base buf mem h (inr o) =
    store_loop-out k (suc i) a base buf (update mem ((base + i) % 2 ^ 64) (buf i)) (omega arith)
      (inr (omega arith))
    ∙ ground arith

pub load_loop-out :
    (k i j base : ℕ) (mem : Memory) (buf : ℕ → ℕ)
    → (j < i) ⊎ (i + k ≤ j)
    → load_loop k i base mem buf j ≡ buf j
unfolding load_loop
load_loop-out zero i j base mem buf o = refl
load_loop-out (suc k) i j base mem buf (inl o) =
    load_loop-out k (suc i) j base mem (update buf i (mem ((base + i) % 2 ^ 64)))
      (inl (omega arith))
    ∙ ground arith
load_loop-out (suc k) i j base mem buf (inr o) =
    load_loop-out k (suc i) j base mem (update buf i (mem ((base + i) % 2 ^ 64)))
      (inr (omega arith))
    ∙ ground arith

pub load_loop-in :
    (k i j base : ℕ) (mem : Memory) (buf : ℕ → ℕ)
    → i ≤ j
    → j < i + k
    → load_loop k i base mem buf j ≡ mem ((base + j) % 2 ^ 64)
unfolding load_loop
load_loop-in zero i j base mem buf h l = absurd (omega arith)
load_loop-in (suc k) i j base mem buf h l = elim (Bool-cases (i == j)) [
  | inl e ↦
      let e' : i ≡ j = ground arith in
      rw e' (
        load_loop-out k (suc j) j base mem (update buf j (mem ((base + j) % 2 ^ 64)))
          (inl (omega arith))
        ∙ ground arith)
  | inr f ↦
      let ne : i < j = ground arith in
      load_loop-in k (suc i) j base mem (update buf i (mem ((base + i) % 2 ^ 64))) (omega arith)
        (omega arith)
]
