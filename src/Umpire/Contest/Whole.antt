-- ===== src/Umpire/Contest/Whole.antt =====
-- A whole tournament (Assignment1/Part2/2.2/umpire2.c, from the pipes to the winner).
use cs330_assignments.Base.{
  ℕ, zero, suc, ◌+◌, ◌<◌, ◌≡◌, refl, arith, true, false, List, [], ◌∷◌, ◌++◌, length, update,
}
use cs330_assignments.Umpire.{Players, tournament}
use cs330_assignments.Umpire.Calls.{Answer, SystemCall, pipe, fork, close, is_zero_result, Outcome}
use cs330_assignments.Umpire.Calls.Ends.{Ends, continues, no_calls, then-Ends, then_pure-Ends}
use cs330_assignments.Umpire.Match.{open_pipe}
use cs330_assignments.Umpire.Match.Parts.{
  times, pipe_of, open_pipe-Ends, player_calls, become_second-Leaves,
}
use cs330_assignments.Umpire.Contest.{Pipes, pipes_loop, fork_loop, contest_loop, contest}
use cs330_assignments.Umpire.Contest.Forks.{
  no_call, then-NeverForks, pipes_loop-NeverForks, become_second-NeverForks,
  contest_loop-NeverForks,
}
use cs330_assignments.Umpire.Contest.Rounds.{
  answers_in, contest_calls, contest_loop-tournament_loop,
}
use cs330_assignments.Umpire.Contest.Starts.{Started, all_started, is_child, fork_loop-Started}
use cs330_assignments.Umpire.Contest.Endings.{
  Ended, prints, weaken-Ended, then-Ended, Ends-Ended, Leaves-Ended, forks-NoneFailed,
}

-- Two pipes for each player.
unfoldable pub pipe_calls : ℕ → List SystemCall
pipe_calls zero = []
pipe_calls (suc rounds) = pipe ∷ pipe ∷ pipe_calls rounds

module _ (os : ℕ → Answer) where
  unfoldable pub opened : ℕ → ℕ → ℕ → Pipes → Pipes
  opened zero i n ps = ps
  opened (suc rounds) i n ps = opened rounds (suc i) (n + 1 + 1) (record {
    std_in = update ps.std_in i (pipe_of os n);
    std_out = update ps.std_out i (pipe_of os (n + 1));
  })

  pipes_loop-Ends :
      (rounds : ℕ) {W : List ℕ → List SystemCall → Type 0} (i n : ℕ) (ps : Pipes)
      → Ends os n (opened rounds i n ps) (pipe_calls rounds) W (pipes_loop os rounds i ps n)
  unfolding pipes_loop opened pipe_calls
  pipes_loop-Ends zero i n ps = continues no_calls
  pipes_loop-Ends (suc rounds) i n ps =
      let ps' : Pipes = record {
        std_in = update ps.std_in i (pipe_of os n);
        std_out = update ps.std_out i (pipe_of os (n + 1));
      } in
      then-Ends os n (pipe_of os n) _ (pipe ∷ []) (pipe ∷ pipe_calls rounds) (open_pipe os n) _
        (open_pipe-Ends os n)
        (then-Ends os (n + 1) (pipe_of os (n + 1)) _ (pipe ∷ []) (pipe_calls rounds)
          (open_pipe os (n + 1)) _ (open_pipe-Ends os (n + 1))
          (pipes_loop-Ends rounds (suc i) (n + 1 + 1) ps'))

-- None of `rounds` forks from the `n`-th call on makes a player of the process.
abbrev pub NoPlayer : (ℕ → Answer) → ℕ → ℕ → Type 0
NoPlayer os rounds n = (k : ℕ) → k < rounds → is_zero_result (os (n + k)).result ≡ false

-- The process of the player `j`, where the forks start with the `n`-th call: its fork is the first
-- one that has returned 0, it becomes the program of the player, and its calls are the forks so far
-- and those that make the pipes of the player its input and output.
abbrev pub Contestant :
    (ℕ → Answer) → ℕ → ℕ → Pipes → (ℕ → List ℕ) → List ℕ → List SystemCall → Type 0
Contestant os nplayers n ps executables path ds =
    (j : ℕ) × (j < nplayers)
    × NoPlayer os j n
    × (is_zero_result (os (n + j)).result ≡ true)
    × (path ≡ executables j)
    × (ds
        ≡ times (suc j) fork
          ++ (close (ps.std_in j).write_end
              ∷ close (ps.std_out j).read_end
              ∷ player_calls os (ps.std_in j) (ps.std_out j) (executables j)))

Started-Ended :
    (os : ℕ → Answer) (rounds n : ℕ) (ps : Pipes) (executables : ℕ → List ℕ)
    (r : Outcome (Unit {0}) × List SystemCall)
    → Started os rounds 0 n ps executables r
    → Ended os n tt
        (times rounds fork)
        (NoPlayer os rounds n)
        (Contestant os rounds n ps executables)
        r
Started-Ended os rounds n ps executables _ (all_started h) = prints h (forks-NoneFailed os rounds n)
Started-Ended os rounds n ps executables _ (is_child j l h z) =
    let player : 0 + j ≡ j = omega arith in
    rw player (
      Leaves-Ended os (suc j) n tt (times rounds fork) _
        (become_second-NeverForks os (ps.std_in j) (ps.std_out j) (executables j) (n + suc j))
        (become_second-Leaves os (n + suc j) (ps.std_in j) (ps.std_out j) (executables j)
          (j, l, h, z, refl, refl)))

module _ (os : ℕ → Answer) (nplayers nround : ℕ) (walk_over : ℕ → ℕ) (executables : ℕ → List ℕ)
    (rounds : ℕ) (unset : Pipes) where
  -- The pipes, the number of the first fork, and the number of the first call after the forks.
  abbrev pub all_pipes : Pipes
  all_pipes = opened os nplayers 0 0 unset

  abbrev pub first_fork : ℕ
  first_fork = 0 + length (pipe_calls nplayers)

  abbrev pub after_forks : ℕ
  after_forks = first_fork + length (times nplayers fork)

  abbrev pub all_active : Players
  all_active = record { active = λ i. true; nactive = nplayers }

  -- What the players play, in the rounds of the tournament.
  abbrev pub moves_read : ℕ → ℕ → ℕ → ℕ
  moves_read t = answers_in os nplayers nround walk_over all_pipes t after_forks all_active

  -- All calls of the umpire.
  abbrev pub umpire_calls : List SystemCall
  umpire_calls =
      pipe_calls nplayers
      ++ (times nplayers fork
          ++ contest_calls os nplayers nround walk_over all_pipes rounds after_forks all_active)

  -- The tournament with its pipes and processes ends in one of three ways. It prints what the game
  -- gives within `rounds` rounds for the moves that are read from the players; then its calls are
  -- exactly the pipes, one fork for each player and the writes and reads of the rounds, no fork has
  -- returned 0, and no call other than a fork has failed. Or the process is the one of a player:
  -- its fork is the first one that has returned 0, and after the pipes, the forks so far and the
  -- calls for its input and output it becomes its program. Or the status is -1: the last call is
  -- neither a fork nor a close and has failed, and it is the first such call that has.
  pub contest-Ended :
      Ended os 0
        (tournament nplayers nround walk_over moves_read rounds)
        umpire_calls
        (NoPlayer os nplayers first_fork)
        (λ path ds.
          (es : List SystemCall) × (ds ≡ pipe_calls nplayers ++ es)
          × Contestant os nplayers first_fork all_pipes executables path es)
        (contest os nplayers nround walk_over executables rounds unset 0)
  unfolding contest tournament
  contest-Ended =
      then-Ended os {G = Unit {0}} 0 all_pipes _ (pipe_calls nplayers) _
        (pipes_loop os nplayers 0 unset 0) _
        (Ends-Ended os 0 all_pipes (pipe_calls nplayers) _ tt (λ p ds w. w)
          (pipes_loop-NeverForks os nplayers 0 unset 0) (pipes_loop-Ends os nplayers 0 0 unset))
        (λ u.
          then-Ended os first_fork tt _ (times nplayers fork) _
            (fork_loop os nplayers 0 all_pipes executables first_fork) _
            (weaken-Ended os first_fork tt (times nplayers fork) _ (λ p es w. (es, refl, w))
              (Started-Ended os nplayers first_fork all_pipes executables _
                (fork_loop-Started os nplayers 0 first_fork all_pipes executables)))
            (λ none_is_player.
              Ends-Ended os after_forks _ _ _ none_is_player (λ p ds w. absurd w)
                (then-NeverForks
                  (contest_loop os nplayers nround walk_over all_pipes rounds all_active) _
                  (contest_loop-NeverForks os nplayers nround walk_over all_pipes rounds all_active)
                  (λ o n. no_call) after_forks)
                (then_pure-Ends os after_forks _ _ _ _ (
                  contest_loop-tournament_loop os nplayers nround walk_over all_pipes rounds
                    after_forks all_active))))
