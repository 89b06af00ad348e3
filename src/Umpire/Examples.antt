-- ===== src/Umpire/Examples.antt =====
-- The theorems on the umpires (Assignment1/Part2) at concrete games.
use cs330_assignments.Base.{
  length, ◌++◌, ℕ, ◌==◌, ◌+◌, ◌*◌, ◌%◌, ◌^◌, ◌≤◌, ◌≡◌, true, refl, arith, some, List, [], ◌∷◌, pos,
  if◌then◌else◌, ltb,
}
use cs330_assignments.Umpire.{
  score_loop, play_match, pair_score_loop, loser, play_pair, pair_loop, active_loop, play_round,
  tournament_loop, tournament, winner_loop, get_walk_over, Players,
}
use cs330_assignments.Umpire.Scores.{wins, play_match-wins}
use cs330_assignments.Umpire.Calls.{Answer, SystemCall}
use cs330_assignments.Umpire.Contest.Whole.{
  NoPlayer, Contestant, opened, pipe_calls, moves_read, umpire_calls, contest-Ended,
}
use cs330_assignments.Umpire.Contest.Endings.{Ended}
use cs330_assignments.Umpire.Contest.{contest, Pipes, fork_loop}
use cs330_assignments.Umpire.Contest.Starts.{Started, fork_loop-Started}
use cs330_assignments.Umpire.Rounds.{Rounded, play_round-Rounded}
use cs330_assignments.Umpire.Tournament.{Won, tournament-Won}

-- Paper in each round, and rock in the first three of them.
abbrev paper : ℕ → ℕ
paper i = b'1'

abbrev opponent : ℕ → ℕ
opponent i = if ltb i 3 then b'0' else b'2'

paper_match : play_match paper opponent ≡ (3, 7)
unfolding play_match score_loop
paper_match = refl

abbrev players : ℕ → ℕ → ℕ
players a = if a == 0 then paper else opponent

play_match-wins_example :
    (play_match paper opponent ≡ (wins 10 0 paper opponent, wins 10 0 opponent paper))
    × (pair_score_loop 4 0 paper opponent 0 0 ≡ (wins 4 0 paper opponent, wins 4 0 opponent paper))
    × (wins 4 0 paper opponent + wins 4 0 opponent paper ≤ 4)
    × (loser 4 players 0 1
        ≡ (if ltb (wins 4 0 paper opponent) (wins 4 0 opponent paper) then 0 else 1))
play_match-wins_example = play_match-wins 4 players 0 1

-- Each player plays the same move all the time.
abbrev steady : ℕ → ℕ → ℕ → ℕ
steady t player i = b'0' + player % 3

tournament_4 :
    tournament 4 10 get_walk_over steady 2 ≡ some ((0 ∷ 1 ∷ 2 ∷ 3 ∷ []) ∷ (1 ∷ 3 ∷ []) ∷ [], some 1)
unfolding tournament tournament_loop play_round pair_loop play_pair loser pair_score_loop
    active_loop winner_loop get_walk_over
tournament_4 = refl

tournament-Won_example : Won (2 ^ 2) 2 (tournament (2 ^ 2) 10 get_walk_over steady 2)
tournament-Won_example = tournament-Won 2 10 2 get_walk_over steady (omega arith)

abbrev three : Players
three = record { active = λ i. true; nactive = 3 }

play_round-Rounded_example :
    Rounded 3 (get_walk_over 3) three (play_round 3 10 get_walk_over steady 0 three)
unfolding active_loop
play_round-Rounded_example = play_round-Rounded 3 10 get_walk_over steady 0 three refl

-- The arguments of the umpire of one match.
abbrev umpire : List ℕ
umpire = b'u' ∷ []

abbrev anna : List ℕ
anna = b'a' ∷ []

abbrev bob : List ℕ
bob = b'b' ∷ b'o' ∷ []

-- Every call succeeds, the descriptors are umpireed, and both players play paper.
abbrev smooth : ℕ → Answer
smooth n = record { result = pos 9; read_end = 3 + 2 * n; write_end = 4 + 2 * n; byte = b'1' }

-- Pipes numbered by the players, of which there are two.
abbrev pipes : Pipes
pipes = record {
  std_in = λ i. record { read_end = 4 * i; write_end = 4 * i + 1 };
  std_out = λ i. record { read_end = 4 * i + 2; write_end = 4 * i + 3 };
}

contest-Ended_example :
    Ended smooth 0
      (tournament 2 10 get_walk_over (moves_read smooth 2 10 get_walk_over (λ i. bob) 5 pipes) 5)
      (umpire_calls smooth 2 10 get_walk_over (λ i. bob) 5 pipes)
      (NoPlayer smooth 2 (0 + length (pipe_calls 2)))
      (λ path ds.
        (es : List SystemCall) × (ds ≡ pipe_calls 2 ++ es)
        × Contestant smooth 2
            (0 + length (pipe_calls 2))
            (opened smooth 2 0 0 pipes)
            (λ i. bob)
            path
            es)
      (contest smooth 2 10 get_walk_over (λ i. bob) 5 pipes 0)
contest-Ended_example = contest-Ended smooth 2 10 get_walk_over (λ i. bob) 5 pipes

-- The second fork makes a player.
abbrev forks_once : ℕ → Answer
forks_once n = record (smooth n) { result = if n == 5 then pos 0 else pos 9 }

fork_loop-Started_example :
    Started forks_once 2 0 4 pipes (λ i. bob) (fork_loop forks_once 2 0 pipes (λ i. bob) 4)
fork_loop-Started_example = fork_loop-Started forks_once 2 0 4 pipes (λ i. bob)
