-- ===== src/Umpire/Match/Parts.antt =====
-- The calls that the umpire of one match makes for a player (Assignment1/Part2/2.1/umpire.c).
use cs330_assignments.Base.{
  ℕ, zero, suc, ◌+◌, ◌≡◌, inl, inr, refl, true, List, [], ◌∷◌, ◌++◌, update, Bool-cases,
}
use cs330_assignments.Umpire.Calls.{
  Answer, SystemCall, write, read, fork, dup2, close, exec, pipe, is_zero_result, Run, ◌>>◌, ask,
  check,
}
use cs330_assignments.Umpire.Calls.Ends.{
  no_calls, Ends, continues, Leaves, leaves_for, Leaves-Ends, then-Ends, then-Leaves, check-Ends,
  ask_close-Ends,
}
use cs330_assignments.Umpire.Match.{
  Pipe, go_signal, open_pipe, write_loop, read_loop, become_player, become_second, start_player,
  play,
}

-- A call made again and again.
unfoldable pub times : ℕ → SystemCall → List SystemCall
times zero c = []
times (suc n) c = c ∷ times n c

module _ (os : ℕ → Answer) where
  -- The pipe that the `n`-th call opens.
  abbrev pub pipe_of : ℕ → Pipe
  pipe_of n = record { read_end = (os n).read_end; write_end = (os n).write_end }

  -- The answers from the `n`-th on, put into an array from `i` on.
  unfoldable pub filled : ℕ → ℕ → ℕ → (ℕ → ℕ) → ℕ → ℕ
  filled zero i n p = p
  filled (suc rounds) i n p = filled rounds (suc i) (n + 1) (update p i (os n).byte)

  module _ {W : List ℕ → List SystemCall → Type 0} where
    pub open_pipe-Ends : (n : ℕ) → Ends os n (pipe_of n) (pipe ∷ []) W (open_pipe os n)
    unfolding open_pipe
    open_pipe-Ends n =
        then-Ends os n (os n) (pipe_of n) (pipe ∷ []) [] (check os pipe n) _
          (check-Ends os n pipe refl) (continues no_calls)

  write_loop-Ends :
      {W : List ℕ → List SystemCall → Type 0} (rounds n fd : ℕ)
      → Ends os n tt (times rounds (write fd go_signal)) W (write_loop os rounds fd n)
  unfolding write_loop times
  write_loop-Ends zero n fd = continues no_calls
  write_loop-Ends (suc rounds) n fd =
      then-Ends os n (os n) tt (write fd go_signal ∷ []) (times rounds (write fd go_signal))
        (check os (write fd go_signal) n) _ (check-Ends os n (write fd go_signal) refl)
        (write_loop-Ends rounds (n + 1) fd)

  read_loop-Ends :
      {W : List ℕ → List SystemCall → Type 0} (rounds i n fd : ℕ) (p : ℕ → ℕ)
      → Ends os n (filled rounds i n p) (times rounds (read fd)) W (read_loop os rounds i fd p n)
  unfolding read_loop times filled
  read_loop-Ends zero i n fd p = continues no_calls
  read_loop-Ends (suc rounds) i n fd p =
      then-Ends os n (os n) (filled rounds (suc i) (n + 1) (update p i (os n).byte)) (read fd ∷ [])
        (times rounds (read fd)) (check os (read fd) n) _ (check-Ends os n (read fd) refl)
        (read_loop-Ends rounds (suc i) (n + 1) fd (update p i (os n).byte))

  -- The calls of a player before it is another program.
  abbrev pub player_calls : Pipe → Pipe → List ℕ → List SystemCall
  player_calls std_in std_out player =
      dup2 std_in.read_end 0 ∷ dup2 std_out.write_end 1 ∷ exec player ∷ []

  pub become_player-Leaves :
      {W : List ℕ → List SystemCall → Type 0} (n : ℕ) (std_in std_out : Pipe) (player : List ℕ)
      → W player (player_calls std_in std_out player)
      → Leaves os n W (become_player os std_in std_out player n)
  unfolding become_player
  become_player-Leaves n std_in std_out player w =
      let c0 = dup2 std_in.read_end 0 in
      let c1 = dup2 std_out.write_end 1 in
      then-Leaves os n (os n) (c0 ∷ []) (check os c0 n) _ (check-Ends os n c0 refl) (
        then-Leaves os (n + 1) (os (n + 1)) (c1 ∷ []) (check os c1 (n + 1)) _
          (check-Ends os (n + 1) c1 refl)
          (then-Leaves os (n + 1 + 1) (os (n + 1 + 1)) (exec player ∷ [])
            (check os (exec player) (n + 1 + 1)) _ (check-Ends os (n + 1 + 1) (exec player) refl)
            (leaves_for w no_calls)))

  pub become_second-Leaves :
      {W : List ℕ → List SystemCall → Type 0} (n : ℕ) (std_in std_out : Pipe) (player : List ℕ)
      → W player
          (close std_in.write_end ∷ close std_out.read_end ∷ player_calls std_in std_out player)
      → Leaves os n W (become_second os std_in std_out player n)
  unfolding become_second
  become_second-Leaves n std_in std_out player w =
      then-Leaves os n (os n) (close std_in.write_end ∷ []) (ask os (close std_in.write_end) n)
        (λ a. ask os (close std_out.read_end) >> become_player os std_in std_out player)
        (ask_close-Ends os n std_in.write_end)
        (then-Leaves os (n + 1) (os (n + 1)) (close std_out.read_end ∷ [])
          (ask os (close std_out.read_end) (n + 1)) (λ a. become_player os std_in std_out player)
          (ask_close-Ends os (n + 1) std_out.read_end)
          (become_player-Leaves (n + 1 + 1) std_in std_out player w))

  start_player-Ends :
      {W : List ℕ → List SystemCall → Type 0} (n : ℕ) (child : Run (Unit {0}))
      → (is_zero_result (os n).result ≡ true
          → Leaves os (n + 1) (λ p es. W p (fork ∷ es)) (child (n + 1)))
      → Ends os n tt (fork ∷ []) W (start_player os child n)
  unfolding start_player
  start_player-Ends {W = W} n child h =
      then-Ends os n (os n) tt (fork ∷ []) [] (check os fork n) _ (check-Ends os n fork refl)
        (elim (Bool-cases (is_zero_result (os n).result)) [
          | inl z ↦ rw z (Leaves-Ends tt [] (child (n + 1)) (h z))
          | inr p ↦ rw p (continues no_calls)
        ])

  -- The calls of the umpire for one player.
  abbrev pub play_calls : Pipe → Pipe → List SystemCall
  play_calls std_in std_out =
      times 10 (write std_in.write_end go_signal) ++ (fork ∷ times 10 (read std_out.read_end))

  pub play-Ends :
      {W : List ℕ → List SystemCall → Type 0} (n : ℕ) (child : Run (Unit {0}))
      (std_in std_out : Pipe)
      → (is_zero_result (os (n + 10)).result ≡ true
          → Leaves os
              (n + 10 + 1)
              (λ p es. W p (times 10 (write std_in.write_end go_signal) ++ (fork ∷ es)))
              (child (n + 10 + 1)))
      → Ends os n
          (filled 10 0 (n + 10 + 1) (λ i. 0))
          (play_calls std_in std_out)
          W
          (play os child std_in std_out n)
  unfolding play times
  play-Ends n child std_in std_out h =
      let w = write std_in.write_end go_signal in
      let p = filled 10 0 (n + 10 + 1) (λ i. 0) in
      then-Ends os n tt p (times 10 w) (fork ∷ times 10 (read std_out.read_end))
        (write_loop os 10 std_in.write_end n) _ (write_loop-Ends 10 n std_in.write_end)
        (then-Ends os (n + 10) tt p (fork ∷ []) (times 10 (read std_out.read_end))
          (start_player os child (n + 10)) _ (start_player-Ends (n + 10) child h)
          (read_loop-Ends 10 0 (n + 10 + 1) std_out.read_end (λ i. 0)))
