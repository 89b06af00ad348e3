-- ===== src/Umpire/Contest.antt =====
-- The tournament of umpire2 with its calls (Assignment1/Part2/2.2/umpire2.c). The reads of the file
-- of the players are in Umpire.Input.
pub mod Rounds
pub mod Starts
pub mod Forks
pub mod Endings
pub mod Whole
use cs330_assignments.Base.{
  ℕ, zero, suc, Bool, true, false, Option, none, some, List, [], ◌∷◌, if◌then◌else◌, update, ◌==◌,
}
use cs330_assignments.Umpire.{Players, active_loop, play_round, with_line, winner_loop}
use cs330_assignments.Umpire.Calls.{
  Answer, SystemCall, write, read, fork, is_zero_result, Run, pure, ◌>>=◌, ◌>>◌, ask, check,
}
use cs330_assignments.Umpire.Match.{Pipe, go_signal, open_pipe, become_second}

-- The pipes by the number of the player.
pub record Pipes : Type 0 where
  pub std_in : ℕ → Pipe
  pub std_out : ℕ → Pipe

-- What follows a round, where the round stays within its arrays.
abbrev pub when_played {ℓ} :
    {A : Type ℓ} → (Players → Run (Option A)) → Option Players → Run (Option A)
when_played f none = pure none
when_played f (some s) = f s

module _ (os : ℕ → Answer) where
  unfoldable pub pipes_loop : ℕ → ℕ → Pipes → Run Pipes
  pipes_loop zero i ps = pure ps
  pipes_loop (suc rounds) i ps = do
    a ← open_pipe os
    b ← open_pipe os
    pipes_loop rounds (suc i)
        (record { std_in = update ps.std_in i a; std_out = update ps.std_out i b })

  -- A fork that fails is taken for one that has made a player.
  unfoldable pub fork_loop : ℕ → ℕ → Pipes → (ℕ → List ℕ) → Run (Unit {0})
  fork_loop zero i ps executables = pure tt
  fork_loop (suc rounds) i ps executables = do
    a ← ask os fork
    (if is_zero_result a.result
        then become_second os (ps.std_in i) (ps.std_out i) (executables i)
        else fork_loop rounds (suc i) ps executables)

  -- The moves `k`, …, `k + rounds - 1` of a player.
  unfoldable pub ask_loop : ℕ → ℕ → Pipe → Pipe → (ℕ → ℕ) → Run (ℕ → ℕ)
  ask_loop zero k std_in std_out moves = pure moves
  ask_loop (suc rounds) k std_in std_out moves = do
    check os (write std_in.write_end go_signal)
    a ← check os (read std_out.read_end)
    ask_loop rounds (suc k) std_in std_out (update moves k a.byte)

  -- The moves of the active players.
  unfoldable pub record_loop : ℕ → List ℕ → Pipes → (ℕ → ℕ → ℕ) → Run (ℕ → ℕ → ℕ)
  record_loop nround [] ps record_of = pure record_of
  record_loop nround (i ∷ rest) ps record_of = do
    row ← ask_loop nround 0 (ps.std_in i) (ps.std_out i) (record_of i)
    record_loop nround rest ps (update record_of i row)

  module _ (nplayers nround : ℕ) (walk_over : ℕ → ℕ) (ps : Pipes) where
    -- One round of the tournament.
    unfoldable pub round : Players → Run (Option Players)
    round s = do
      record_of ← record_loop nround (active_loop nplayers 0 s.active) ps (λ i k. 0)
      pure (play_round nplayers nround walk_over (λ t. record_of) 0 s)

    -- With at most `rounds` rounds: the printed lines, and who is left.
    unfoldable pub contest_loop : ℕ → Players → Run (Option (List (List ℕ) × Players))
    contest_loop zero s = pure (if s.nactive == 1 then some ([], s) else none)
    contest_loop (suc rounds) s = elim (s.nactive == 1) [
      | true ↦ pure (some ([], s))
      | false ↦
          round s
          >>= when_played (λ s'.
            contest_loop rounds s' >>= λ r. pure (with_line (active_loop nplayers 0 s.active) r))
    ]

  -- The tournament of the players in a file, with what stands in the arrays of pipes before: the
  -- printed lines and the player that is printed last.
  unfoldable pub contest :
      (nplayers nround : ℕ) (walk_over : ℕ → ℕ) (executables : ℕ → List ℕ) (rounds : ℕ)
      → Pipes
      → Run (Option (List (List ℕ) × Option ℕ))
  contest nplayers nround walk_over executables rounds unset = do
    ps ← pipes_loop nplayers 0 unset
    fork_loop nplayers 0 ps executables
    o ←
        contest_loop nplayers nround walk_over ps rounds
          (record { active = λ i. true; nactive = nplayers })
    pure (elim o [ none ↦ none | some (lines, s) ↦ some (lines, winner_loop nplayers 0 s.active) ])
