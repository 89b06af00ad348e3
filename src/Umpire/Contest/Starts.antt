-- ===== src/Umpire/Contest/Starts.antt =====
-- How the players of a tournament start (Assignment1/Part2/2.2/umpire2.c).
use cs330_assignments.Base.{
  ℕ, zero, suc, ◌+◌, ◌<◌, ◌≡◌, inl, inr, arith, true, false, List, [], ◌∷◌, Bool-cases,
}
use cs330_assignments.Umpire.Calls.{
  Answer, SystemCall, fork, is_zero_result, Outcome, goes_on, after,
}
use cs330_assignments.Umpire.Match.{become_second}
use cs330_assignments.Umpire.Match.Parts.{times}
use cs330_assignments.Umpire.Contest.{Pipes, fork_loop}

-- How the forks for the players from `i` on end: the umpire has made them all, or the process is
-- the one of a player.
pub data Started (os : ℕ → Answer) (rounds i n : ℕ) (ps : Pipes) (executables : ℕ → List ℕ)
    : Outcome (Unit {0}) × List SystemCall → Type 0 where
  all_started :
      ((j : ℕ) → j < rounds → is_zero_result (os (n + j)).result ≡ false)
      → Started os rounds i n ps executables (goes_on tt, times rounds fork)
  is_child :
      (j : ℕ)
      → j < rounds
      → ((k : ℕ) → k < j → is_zero_result (os (n + k)).result ≡ false)
      → is_zero_result (os (n + j)).result ≡ true
      → Started os rounds i n ps executables (
          after (times (suc j) fork) (
            become_second os
              (ps.std_in (i + j))
              (ps.std_out (i + j))
              (executables (i + j))
              (n + suc j)))

module _ (os : ℕ → Answer) (n : ℕ) where
  -- A fork that makes no player comes first.
  none_before :
      (rounds : ℕ)
      → is_zero_result (os n).result ≡ false
      → ((j : ℕ) → j < rounds → is_zero_result (os (n + 1 + j)).result ≡ false)
      → (j : ℕ) → j < suc rounds
      → is_zero_result (os (n + j)).result ≡ false
  none_before rounds e h zero l = let here : n + 0 ≡ n = omega arith in rw here e
  none_before rounds e h (suc j) l =
      let next : n + suc j ≡ n + 1 + j = omega arith in rw next (h j (omega arith))

  Started-next :
      (rounds i : ℕ) (ps : Pipes) (executables : ℕ → List ℕ)
      (r : Outcome (Unit {0}) × List SystemCall)
      → is_zero_result (os n).result ≡ false
      → Started os rounds (suc i) (n + 1) ps executables r
      → Started os (suc rounds) i n ps executables (after (fork ∷ []) r)
  unfolding times
  Started-next rounds i ps executables _ e (all_started h) = all_started (none_before rounds e h)
  Started-next rounds i ps executables _ e (is_child j l h z) =
      let player : suc i + j ≡ i + suc j = omega arith in
      let number : n + 1 + suc j ≡ n + suc (suc j) = omega arith in
      let forked : n + 1 + j ≡ n + suc j = omega arith in
      rw (player, number)
        (is_child (suc j) (omega arith) (λ k m. none_before j e h k m) (rw forked at z))

  first_child :
      (rounds i : ℕ) (ps : Pipes) (executables : ℕ → List ℕ)
      → is_zero_result (os n).result ≡ true
      → Started os (suc rounds) i n ps executables (
          after (fork ∷ []) (become_second os (ps.std_in i) (ps.std_out i) (executables i) (n + 1)))
  unfolding times
  first_child rounds i ps executables z =
      let here : n + 0 ≡ n = omega arith in
      let player : i + 0 ≡ i = omega arith in
      let first : Started os (suc rounds) i n ps executables (
          after (times 1 fork) (
            become_second os (ps.std_in (i + 0)) (ps.std_out (i + 0)) (executables (i + 0))
              (n + 1))) =
        is_child 0 (omega arith) (λ k l. absurd (omega arith)) (rw here z) in
      rw player at first

-- Either the umpire of a tournament forks once for each player and goes on, where none of the forks
-- returns 0, or the process is the one that a fork for a player has returned 0 in, and does what
-- this player does, with its pipes and its program. A fork that fails is not noticed.
pub fork_loop-Started :
    (os : ℕ → Answer) (rounds i n : ℕ) (ps : Pipes) (executables : ℕ → List ℕ)
    → Started os rounds i n ps executables (fork_loop os rounds i ps executables n)
unfolding fork_loop times
fork_loop-Started os zero i n ps executables = all_started (λ j l. absurd (omega arith))
fork_loop-Started os (suc rounds) i n ps executables =
    elim (Bool-cases (is_zero_result (os n).result)) [
      | inl z ↦ rw z (first_child os n rounds i ps executables z)
      | inr p ↦ rw p (
          Started-next os n rounds i ps executables _ p
            (fork_loop-Started os rounds (suc i) (n + 1) ps executables))
    ]
