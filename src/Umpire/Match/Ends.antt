-- ===== src/Umpire/Match/Ends.antt =====
-- The calls of the umpire of one match (Assignment1/Part2/2.1/umpire.c), and how it ends.
use cs330_assignments.Base.{ℕ, ◌+◌, ◌<◌, ◌≡◌, true, List, [], ◌∷◌, ◌++◌, length, minus_one}
use cs330_assignments.Umpire.Scores.{wins}
use cs330_assignments.Umpire.Calls.{
  Answer, SystemCall, write, fork, close, pipe, is_zero_result, Outcome, exits,
}
use cs330_assignments.Umpire.Calls.Ends.{Ends}
use cs330_assignments.Umpire.Match.{go_signal}
use cs330_assignments.Umpire.Match.Parts.{times, pipe_of, player_calls, play_calls}

module _ (os : ℕ → Answer) where
  -- What the players write.
  abbrev pub move1 : ℕ → ℕ
  move1 i = (os (15 + i)).byte

  abbrev pub move2 : ℕ → ℕ
  move2 i = (os (36 + i)).byte

  -- All calls of a match.
  abbrev pub match_calls : List SystemCall
  match_calls =
      pipe
      ∷ pipe
      ∷ pipe
      ∷ pipe
      ∷ (play_calls os (pipe_of os 0) (pipe_of os 1) ++ play_calls os (pipe_of os 2) (pipe_of os 3))

  -- Which program the process has become, with the calls before.
  pub data Player (player1 player2 : List ℕ) : List ℕ → List SystemCall → Type 0 where
    first_player :
        is_zero_result (os 14).result ≡ true
        → Player player1 player2 player1 (
            pipe
            ∷ pipe
            ∷ pipe
            ∷ pipe
            ∷ (times 10 (write (os 0).write_end go_signal)
                ++ (fork ∷ player_calls os (pipe_of os 0) (pipe_of os 1) player1)))
    second_player :
        is_zero_result (os 35).result ≡ true
        → Player player1 player2 player2 (
            pipe
            ∷ pipe
            ∷ pipe
            ∷ pipe
            ∷ (play_calls os (pipe_of os 0) (pipe_of os 1)
                ++ (times 10 (write (os 2).write_end go_signal)
                    ++ (fork
                        ∷ close (os 2).write_end
                        ∷ close (os 3).read_end
                        ∷ player_calls os (pipe_of os 2) (pipe_of os 3) player2))))

  -- How the umpire ends.
  pub data MatchEnds : List (List ℕ) → Outcome (ℕ × ℕ) × List SystemCall → Type 0 where
    too_few_players :
        {argv : List (List ℕ)} → length argv < 3 → MatchEnds argv (exits minus_one, [])
    has_players :
        {program player1 player2 : List ℕ} {rest : List (List ℕ)}
        {r : Outcome (ℕ × ℕ) × List SystemCall}
        → Ends os 0
            (wins 10 0 move1 move2, wins 10 0 move2 move1)
            match_calls
            (Player player1 player2)
            r
        → MatchEnds (program ∷ player1 ∷ player2 ∷ rest) r
