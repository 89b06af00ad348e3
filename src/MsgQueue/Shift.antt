-- ===== src/MsgQueue/Shift.antt =====
-- The loop that closes a gap in an array (Assignment2/msg_queue.c).
use cs330_assignments.Base.{
  ℕ, zero, suc, ◌+◌, ◌≤◌, ◌<◌, ◌≡◌, refl, ap, arith, update, slice, slice-ext, ◌∷◌, ◌∙◌,
}
use cs330_assignments.MsgQueue.State.{shift_loop}

module _ {A : Type 0} where
  pub shift_loop_below : (k i j : ℕ) (a : ℕ → A) → j < i → shift_loop k i a j ≡ a j
  unfolding shift_loop
  shift_loop_below zero i j a h = refl
  shift_loop_below (suc k) i j a h =
      ground (arith, shift_loop_below k (suc i) j (update a i (a (suc i))))

  pub shift_loop_in : (k i j : ℕ) (a : ℕ → A) → i ≤ j → j < i + k → shift_loop k i a j ≡ a (suc j)
  unfolding shift_loop
  shift_loop_in zero i j a h l = absurd (omega arith)
  shift_loop_in (suc k) i j a h l = ground (
    arith,
    shift_loop_below k (suc i) j (update a i (a (suc i))),
    shift_loop_in k (suc i) j (update a i (a (suc i))),
  )

  slice-suc_map : (a : ℕ → A) (i n : ℕ) → slice (λ j. a (suc j)) i n ≡ slice a (suc i) n
  unfolding slice
  slice-suc_map a i zero = refl
  slice-suc_map a i (suc n) = ap (◌∷◌ (a (suc i))) (slice-suc_map a (suc i) n)

  pub slice-shift_loop :
      (k i n : ℕ) (a : ℕ → A) → n ≤ k → slice (shift_loop k i a) i n ≡ slice a (suc i) n
  slice-shift_loop k i n a h =
      slice-ext _ (λ j. a (suc j)) i n (λ j l u. shift_loop_in k i j a l (omega arith))
      ∙ slice-suc_map a i n
