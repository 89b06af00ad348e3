-- ===== src/Umpire/Contest/Rounds.antt =====
-- The rounds of the tournament with their calls (Assignment1/Part2/2.2/umpire2.c) against those of
-- the game.
use mathlib.Core.List.{append-nil}
use cs330_assignments.Base.{
  ℕ, zero, suc, ◌+◌, ◌≡◌, inl, inr, refl, arith, true, false, Option, none, some, List, [], ◌∷◌,
  ◌++◌, length, update, ◌==◌, Bool-cases, Option-cases,
}
use cs330_assignments.Umpire.{Players, active_loop, play_round, tournament_loop, with_line}
use cs330_assignments.Umpire.Calls.{Answer, SystemCall, write, read, Run, pure, check, ◌>>=◌}
use cs330_assignments.Umpire.Calls.Ends.{
  Ends, continues, no_calls, then-Ends, then_pure-Ends, check-Ends,
}
use cs330_assignments.Umpire.Match.{Pipe, go_signal}
use cs330_assignments.Umpire.Contest.{Pipes, ask_loop, record_loop, round, contest_loop}
use cs330_assignments.Umpire.Contest.{when_played}

-- The calls that ask a player for its moves.
unfoldable pub ask_calls : ℕ → Pipe → Pipe → List SystemCall
ask_calls zero std_in std_out = []
ask_calls (suc rounds) std_in std_out =
    write std_in.write_end go_signal ∷ read std_out.read_end ∷ ask_calls rounds std_in std_out

module _ (os : ℕ → Answer) where
  -- The moves of a player, of which the first is read by the call after the `n`-th.
  unfoldable pub row : ℕ → ℕ → ℕ → (ℕ → ℕ) → ℕ → ℕ
  row zero k n moves = moves
  row (suc rounds) k n moves = row rounds (suc k) (n + 1 + 1) (update moves k (os (n + 1)).byte)

  ask_loop-Ends :
      {W : List ℕ → List SystemCall → Type 0} (rounds k n : ℕ) (std_in std_out : Pipe)
      (moves : ℕ → ℕ)
      → Ends os n
          (row rounds k n moves)
          (ask_calls rounds std_in std_out)
          W
          (ask_loop os rounds k std_in std_out moves n)
  unfolding ask_loop ask_calls row
  ask_loop-Ends zero k n std_in std_out moves = continues no_calls
  ask_loop-Ends (suc rounds) k n std_in std_out moves =
      let w = write std_in.write_end go_signal in
      let r = read std_out.read_end in
      let later = row rounds (suc k) (n + 1 + 1) (update moves k (os (n + 1)).byte) in
      then-Ends os n (os n) later (w ∷ []) (r ∷ ask_calls rounds std_in std_out) (check os w n) _
        (check-Ends os n w refl)
        (then-Ends os (n + 1) (os (n + 1)) later (r ∷ []) (ask_calls rounds std_in std_out)
          (check os r (n + 1)) _ (check-Ends os (n + 1) r refl)
          (ask_loop-Ends rounds (suc k) (n + 1 + 1) std_in std_out
            (update moves k (os (n + 1)).byte)))

  module _ (nround : ℕ) (ps : Pipes) where
    -- The calls that ask the players of a list.
    unfoldable pub record_calls : List ℕ → List SystemCall
    record_calls [] = []
    record_calls (i ∷ rest) = ask_calls nround (ps.std_in i) (ps.std_out i) ++ record_calls rest

    -- The moves of the players of a list, from the `n`-th call on.
    unfoldable pub recorded : List ℕ → ℕ → (ℕ → ℕ → ℕ) → ℕ → ℕ → ℕ
    recorded [] n record_of = record_of
    recorded (i ∷ rest) n record_of =
        recorded rest (n + length (ask_calls nround (ps.std_in i) (ps.std_out i)))
          (update record_of i (row nround 0 n (record_of i)))

    record_loop-Ends :
        (players : List ℕ) {W : List ℕ → List SystemCall → Type 0} (n : ℕ) (record_of : ℕ → ℕ → ℕ)
        → Ends os n
            (recorded players n record_of)
            (record_calls players)
            W
            (record_loop os nround players ps record_of n)
    unfolding record_loop record_calls recorded
    record_loop-Ends [] n record_of = continues no_calls
    record_loop-Ends (i ∷ rest) n record_of =
        then-Ends os n (row nround 0 n (record_of i)) _
          (ask_calls nround (ps.std_in i) (ps.std_out i)) (record_calls rest)
          (ask_loop os nround 0 (ps.std_in i) (ps.std_out i) (record_of i) n) _
          (ask_loop-Ends nround 0 n (ps.std_in i) (ps.std_out i) (record_of i))
          (record_loop-Ends rest (n + length (ask_calls nround (ps.std_in i) (ps.std_out i)))
            (update record_of i (row nround 0 n (record_of i))))

  module _ (nplayers nround : ℕ) (walk_over : ℕ → ℕ) (ps : Pipes) where
    -- The calls of a round, and what the players answer from the `n`-th call on.
    abbrev pub round_calls : Players → List SystemCall
    round_calls s = record_calls nround ps (active_loop nplayers 0 s.active)

    abbrev pub answers : ℕ → Players → ℕ → ℕ → ℕ
    answers n s = recorded nround ps (active_loop nplayers 0 s.active) n (λ i k. 0)

    -- How the players stand after a round.
    abbrev pub round_of : ℕ → Players → Option Players
    round_of n s = play_round nplayers nround walk_over (λ t. answers n s) 0 s

    round-Ends :
        {W : List ℕ → List SystemCall → Type 0} (n : ℕ) (s : Players)
        → Ends os n (round_of n s) (round_calls s) W (round os nplayers nround walk_over ps s n)
    unfolding round
    round-Ends n s =
        then_pure-Ends os n (answers n s) (round_calls s)
          (record_loop os nround (active_loop nplayers 0 s.active) ps (λ i k. 0) n)
          (λ r. play_round nplayers nround walk_over (λ t. r) 0 s)
          (record_loop-Ends nround ps (active_loop nplayers 0 s.active) n (λ i k. 0))

    -- What the players answer in the `t`-th round from now on.
    unfoldable pub answers_in : ℕ → ℕ → Players → ℕ → ℕ → ℕ
    answers_in zero n s = answers n s
    answers_in (suc t) n s = elim (round_of n s) [
      | none ↦ λ i k. 0
      | some s' ↦ answers_in t (n + length (round_calls s)) s'
    ]

    -- All calls of the rounds.
    unfoldable pub contest_calls : ℕ → ℕ → Players → List SystemCall
    contest_calls zero n s = []
    contest_calls (suc rounds) n s = elim (s.nactive == 1) [
      | true ↦ []
      | false ↦ elim (round_of n s) [
        | none ↦ round_calls s
        | some s' ↦ round_calls s ++ contest_calls rounds (n + length (round_calls s)) s'
      ]
    ]

    -- A round depends on the moves in it.
    play_round_at :
        (moves : ℕ → ℕ → ℕ → ℕ) (t n : ℕ) (s : Players)
        → moves t ≡ answers n s
        → play_round nplayers nround walk_over moves t s ≡ round_of n s
    unfolding play_round
    play_round_at moves t n s e = rw e refl

    contest_loop-Ends :
        (rounds : ℕ) {W : List ℕ → List SystemCall → Type 0} (t n : ℕ) (s : Players)
        (moves : ℕ → ℕ → ℕ → ℕ)
        → ((k : ℕ) → moves (t + k) ≡ answers_in k n s)
        → Ends os n
            (tournament_loop nplayers nround walk_over moves rounds t s)
            (contest_calls rounds n s)
            W
            (contest_loop os nplayers nround walk_over ps rounds s n)
    unfolding tournament_loop contest_loop contest_calls answers_in
    contest_loop-Ends zero t n s moves h = continues no_calls
    contest_loop-Ends (suc rounds) {W = W} t n s moves h = elim (Bool-cases (s.nactive == 1)) [
      | inl one ↦ rw (tournament_loop, contest_calls, contest_loop, one) (continues no_calls)
      | inr more ↦
          let start : t + 0 ≡ t = omega arith in
          let same = play_round_at moves t n s (rw start at (h 0)) in
          let run = round os nplayers nround walk_over ps s n in
          let line = with_line (active_loop nplayers 0 s.active) in
          let rest : Players → Run (Option (List (List ℕ) × Players)) =
            λ s'. contest_loop os nplayers nround walk_over ps rounds s' >>= λ r. pure (line r) in
          elim (Option-cases (round_of n s)) [
            | inl e ↦
                rw (tournament_loop, contest_calls, contest_loop, more, same, e)
                  (rw (append-nil (round_calls s)) at (
                    then-Ends os {W = W} n none none (round_calls s) [] run (when_played rest)
                      (rw e at (round-Ends {W = W} n s)) (continues no_calls)))
            | inr (s', e) ↦
                let n' : ℕ = n + length (round_calls s) in
                let next = λ (k : ℕ).
                  let shifted : t + suc k ≡ suc t + k = omega arith in
                  rw shifted at (rw (answers_in, e) at (h (suc k))) in
                rw (tournament_loop, contest_calls, contest_loop, more, same, e)
                  (then-Ends os {W = W} n (some s') _ (round_calls s) (contest_calls rounds n' s')
                    run (when_played rest) (rw e at (round-Ends {W = W} n s))
                    (then_pure-Ends os n'
                      (tournament_loop nplayers nround walk_over moves rounds (suc t) s')
                      (contest_calls rounds n' s')
                      (contest_loop os nplayers nround walk_over ps rounds s' n') line
                      (contest_loop-Ends rounds (suc t) n' s' moves next)))
          ]
    ]

-- The rounds of umpire2 ask the active players one after the other for nround moves each, and go
-- on as the tournament does in which the players make the moves that are read from them, or end
-- with the status -1 at the first write or read that fails.
pub contest_loop-tournament_loop :
    (os : ℕ → Answer) (nplayers nround : ℕ) (walk_over : ℕ → ℕ) (ps : Pipes) (rounds n : ℕ)
    (s : Players)
    → Ends os n
        (tournament_loop nplayers nround walk_over
          (λ t. answers_in os nplayers nround walk_over ps t n s)
          rounds
          0
          s)
        (contest_calls os nplayers nround walk_over ps rounds n s)
        (λ path cs. ⊥)
        (contest_loop os nplayers nround walk_over ps rounds s n)
contest_loop-tournament_loop os nplayers nround walk_over ps rounds n s =
    contest_loop-Ends os nplayers nround walk_over ps rounds 0 n s _
      (λ k. let same : 0 + k ≡ k = omega arith in rw same refl)
