-- ===== src/Umpire.antt =====
-- The umpires of rock, paper and scissors (Assignment1/Part2/2.1/umpire.c and
-- Assignment1/Part2/2.2/umpire2.c). What the players write to their pipes is a parameter here, as a
-- character by the player and the round; `none` is an access outside an array. The 0 that
-- umpire2.c writes behind the moves of a player, which nothing reads, is left out.
pub mod Scores
pub mod Active
pub mod Pairs
pub mod Rounds
pub mod Tournament
pub mod Input
pub mod Calls
pub mod Match
pub mod Contest
mod Examples
use cs330_assignments.Base.{
  ℕ, zero, suc, ◌+◌, ◌-◌, ◌%◌, Bool, true, false, ◌&&◌, ◌||◌, Option, none, some, List, [], ◌∷◌,
  length, update, ltb, ◌==◌, if◌then◌else◌,
}

-- The condition on two moves under which the second one scores.
abbrev pub beaten : ℕ → ℕ → Bool
beaten a b =
    ((a == b'0') && (b == b'1')) || ((a == b'1') && (b == b'2')) || ((a == b'2') && (b == b'0'))

-- The scores of umpire.c, with `rounds` rounds left from `i` on.
unfoldable pub score_loop : ℕ → ℕ → (ℕ → ℕ) → (ℕ → ℕ) → ℕ → ℕ → ℕ × ℕ
score_loop zero i p1 p2 score1 score2 = (score1, score2)
score_loop (suc rounds) i p1 p2 score1 score2 =
    if beaten (p1 i) (p2 i)
    then score_loop rounds (suc i) p1 p2 score1 (score2 + 1)
    else if beaten (p2 i) (p1 i)
    then score_loop rounds (suc i) p1 p2 (score1 + 1) score2
    else score_loop rounds (suc i) p1 p2 score1 score2

-- What umpire.c prints for the moves of the two players.
unfoldable pub play_match : (ℕ → ℕ) → (ℕ → ℕ) → ℕ × ℕ
play_match p1 p2 = score_loop 10 0 p1 p2 0 0

-- The scores of umpire2.c.
unfoldable pub pair_score_loop : ℕ → ℕ → (ℕ → ℕ) → (ℕ → ℕ) → ℕ → ℕ → ℕ × ℕ
pair_score_loop zero rnd r1 r2 score1 score2 = (score1, score2)
pair_score_loop (suc rounds) rnd r1 r2 score1 score2 =
    if beaten (r2 rnd) (r1 rnd)
    then pair_score_loop rounds (suc rnd) r1 r2 (score1 + 1) score2
    else if beaten (r1 rnd) (r2 rnd)
    then pair_score_loop rounds (suc rnd) r1 r2 score1 (score2 + 1)
    else pair_score_loop rounds (suc rnd) r1 r2 score1 score2

-- Who is still in the tournament, and how many.
pub record Players : Type 0 where
  pub active : ℕ → Bool
  pub nactive : ℕ

-- The players `i`, …, `i + rounds - 1` that are active.
unfoldable pub active_loop : ℕ → ℕ → (ℕ → Bool) → List ℕ
active_loop zero i active = []
active_loop (suc rounds) i active =
    let rest = active_loop rounds (suc i) active in if active i then i ∷ rest else rest

-- The first active player from `i` on, who is printed last.
unfoldable pub winner_loop : ℕ → ℕ → (ℕ → Bool) → Option ℕ
winner_loop zero i active = none
winner_loop (suc rounds) i active =
    let rest = winner_loop rounds (suc i) active in if active i then some i else rest

-- Whether a player has the walk-over; `none` is the -1 of no walk-over.
abbrev pub is_walk_over : Option ℕ → ℕ → Bool
is_walk_over none player = false
is_walk_over (some wid) player = wid == player

module _ (nround : ℕ) (record_of : ℕ → ℕ → ℕ) where
  -- The loser of a pair: the first player exactly with the lower score.
  unfoldable pub loser : ℕ → ℕ → ℕ
  loser pid1 pid2 =
      let score = pair_score_loop nround 0 (record_of pid1) (record_of pid2) 0 0 in
      if ltb score.0 score.1 then pid1 else pid2

  unfoldable pub play_pair : ℕ → ℕ → Players → Players
  play_pair pid1 pid2 s = record {
    active = update s.active (loser pid1 pid2) false;
    nactive = s.nactive - 1;
  }

  -- The loop over the pairs, on the entries of `activePlayer` from `pair` on.
  unfoldable pub pair_loop : Option ℕ → List ℕ → Players → Option Players
  pair_loop wid [] s = some s
  pair_loop wid (a ∷ []) s = if is_walk_over wid a then some s else none
  pair_loop wid (a ∷ b ∷ []) s =
      let skip = pair_loop wid (b ∷ []) s in
      if is_walk_over wid a
      then skip
      else if is_walk_over wid b
      then none
      else some (play_pair a b s)
  pair_loop wid (a ∷ b ∷ c ∷ rest) s =
      let skip = pair_loop wid (b ∷ c ∷ rest) s in
      let far = pair_loop wid rest (play_pair a c s) in
      let near = pair_loop wid (c ∷ rest) (play_pair a b s) in
      if is_walk_over wid a then skip else if is_walk_over wid b then far else near

-- `getWalkOver` of gameUtils.c, to be replaced by other numbers.
unfoldable pub get_walk_over : ℕ → ℕ
get_walk_over num_active_players = 1

-- A line in front of what follows.
abbrev pub with_line : List ℕ → Option (List (List ℕ) × Players) → Option (List (List ℕ) × Players)
with_line line none = none
with_line line (some r) = some (line ∷ r.0, r.1)

-- A tournament of `nplayers` players: `moves` has what they play in each round of the tournament.
module _ (nplayers nround : ℕ) (walk_over : ℕ → ℕ) (moves : ℕ → ℕ → ℕ → ℕ) where
  abbrev pub walk_over_id : ℕ → Option ℕ
  walk_over_id nactive = if nactive % 2 == 0 then none else some (walk_over nactive)

  -- One round of the tournament, the `t`-th.
  unfoldable pub play_round : ℕ → Players → Option Players
  play_round t s =
      pair_loop nround (moves t) (walk_over_id s.nactive) (active_loop nplayers 0 s.active) s

  -- With at most `rounds` rounds: the line of active players that each one prints, and who is left.
  unfoldable pub tournament_loop : ℕ → ℕ → Players → Option (List (List ℕ) × Players)
  tournament_loop zero t s = if s.nactive == 1 then some ([], s) else none
  tournament_loop (suc rounds) t s = elim (s.nactive == 1) [
    | true ↦ some ([], s)
    | false ↦ elim (play_round t s) [
      | none ↦ none
      | some s' ↦ with_line (active_loop nplayers 0 s.active) (tournament_loop rounds (suc t) s')
    ]
  ]

  -- The printed lines and the player that is printed last, `none` where there is none.
  unfoldable pub tournament : ℕ → Option (List (List ℕ) × Option ℕ)
  tournament rounds =
      elim (tournament_loop rounds 0 (record { active = λ i. true; nactive = nplayers })) [
        | none ↦ none
        | some (lines, s) ↦ some (lines, winner_loop nplayers 0 s.active)
      ]
