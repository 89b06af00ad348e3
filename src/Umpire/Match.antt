-- ===== src/Umpire/Match.antt =====
-- The umpire of one match (Assignment1/Part2/2.1/umpire.c), without its messages and the 0 behind
-- the moves of a player.
pub mod Parts
pub mod Ends
use cs330_assignments.Base.{
  ℕ, zero, suc, Option, none, some, List, [], ◌∷◌, ℤ, minus_one, if◌then◌else◌, update,
}
use cs330_assignments.Umpire.{play_match}
use cs330_assignments.Umpire.Calls.{
  Answer, SystemCall, write, read, fork, dup2, close, exec, pipe, is_zero_result, Run, pure, exit,
  become, ◌>>=◌, ◌>>◌, ask, check,
}

-- The two ends of a pipe.
pub record Pipe : Type 0 where
  pub read_end : ℕ
  pub write_end : ℕ

-- "GO" with the 0 behind it.
abbrev pub go_signal : List ℕ
go_signal = b'G' ∷ b'O' ∷ 0 ∷ []

module _ (os : ℕ → Answer) where
  unfoldable pub open_pipe : Run Pipe
  open_pipe = do a ← check os pipe; pure (record { read_end = a.read_end; write_end = a.write_end })

  unfoldable pub write_loop : ℕ → ℕ → Run (Unit {0})
  write_loop zero fd = pure tt
  write_loop (suc rounds) fd = check os (write fd go_signal) >> write_loop rounds fd

  -- The bytes `i`, …, `i + rounds - 1` of the answers of a player.
  unfoldable pub read_loop : ℕ → ℕ → ℕ → (ℕ → ℕ) → Run (ℕ → ℕ)
  read_loop zero i fd p = pure p
  read_loop (suc rounds) i fd p = do
    a ← check os (read fd)
    read_loop rounds (suc i) fd (update p i a.byte)

  -- What a player does before it is another program.
  unfoldable pub become_player : Pipe → Pipe → List ℕ → Run (Unit {0})
  become_player std_in std_out player = do
    check os (dup2 std_in.read_end 0)
    check os (dup2 std_out.write_end 1)
    check os (exec player)
    become player

  -- The second player closes the ends of the umpire, whatever this returns.
  unfoldable pub become_second : Pipe → Pipe → List ℕ → Run (Unit {0})
  become_second std_in std_out player = do
    ask os (close std_in.write_end)
    ask os (close std_out.read_end)
    become_player std_in std_out player

  -- The start of a player, of which the umpire keeps nothing: `child` is what the player does.
  unfoldable pub start_player : Run (Unit {0}) → Run (Unit {0})
  start_player child = do a ← check os fork; if is_zero_result a.result then child else pure tt

  unfoldable pub play : Run (Unit {0}) → Pipe → Pipe → Run (ℕ → ℕ)
  play child std_in std_out = do
    write_loop 10 std_in.write_end
    start_player child
    read_loop 10 0 std_out.read_end (λ i. 0)

  -- The scores that are printed, for the arguments of the program.
  unfoldable pub main : List (List ℕ) → Run (ℕ × ℕ)
  main (program ∷ player1 ∷ player2 ∷ rest) = do
    in1 ← open_pipe
    out1 ← open_pipe
    in2 ← open_pipe
    out2 ← open_pipe
    p1 ← play (become_player in1 out1 player1) in1 out1
    p2 ← play (become_second in2 out2 player2) in2 out2
    pure (play_match p1 p2)
  main argv = exit minus_one
