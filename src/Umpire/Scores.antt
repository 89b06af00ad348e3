-- ===== src/Umpire/Scores.antt =====
-- The scores of the two umpires (Assignment1/Part2/2.1/umpire.c and
-- Assignment1/Part2/2.2/umpire2.c) against the rules of the game.
use cs330_assignments.Base.{
  ℕ, zero, suc, ◌+◌, ◌-◌, ◌%◌, ◌≤◌, ◌≡◌, ltb, refl, sym, ap₂, ◌∙◌, inl, inr, arith, Bool, true,
  false, ◌&&◌, leb, ◌==◌, if◌then◌else◌, Bool-cases,
}
use cs330_assignments.Umpire.{beaten, score_loop, play_match, pair_score_loop, loser}

-- A move is rock, paper or scissors, numbered in this order.
abbrev pub is_move : ℕ → Bool
is_move c = leb b'0' c && leb c b'2'

-- Each move beats the one before it, and rock beats scissors.
abbrev pub beats : ℕ → ℕ → Bool
beats a b = is_move a && is_move b && ((b - b'0' + 1) % 3 == a - b'0')

-- How many of the rounds `i`, …, `i + rounds - 1` the first player wins.
unfoldable pub wins : ℕ → ℕ → (ℕ → ℕ) → (ℕ → ℕ) → ℕ
wins zero i p q = 0
wins (suc rounds) i p q = (if beats (p i) (q i) then 1 else 0) + wins rounds (suc i) p q

beaten_lem : (a b : ℕ) → beaten a b ≡ beats b a
beaten_lem a b = ground arith

not_both : (a b : ℕ) → beats a b ≡ true → beats b a ≡ false
not_both a b h = ground arith

pair_ext : {a b c d : ℕ} → a ≡ c → b ≡ d → ◌≡◌ {A = ℕ × ℕ} (a, b) (c, d)
pair_ext e f = ap₂ (λ x y. (x, y)) e f

module _ (p q : ℕ → ℕ) where
  score_loop-wins :
      (rounds i s t : ℕ)
      → score_loop rounds i p q s t ≡ (s + wins rounds i p q, t + wins rounds i q p)
  unfolding score_loop wins
  score_loop-wins zero i s t = pair_ext (omega arith) (omega arith)
  score_loop-wins (suc rounds) i s t = elim (Bool-cases (beats (q i) (p i))) [
    | inl won ↦
        let won' : beaten (p i) (q i) ≡ true = beaten_lem (p i) (q i) ∙ won in
        rw (won', won, not_both (q i) (p i) won, score_loop-wins rounds (suc i) s (t + 1))
          (pair_ext (omega arith) (omega arith))
    | inr h ↦
        let h' : beaten (p i) (q i) ≡ false = beaten_lem (p i) (q i) ∙ h in
        elim (Bool-cases (beats (p i) (q i))) [
          | inl won ↦
              let won' : beaten (q i) (p i) ≡ true = beaten_lem (q i) (p i) ∙ won in
              rw (h', h, won', won, score_loop-wins rounds (suc i) (s + 1) t)
                (pair_ext (omega arith) (omega arith))
          | inr n ↦
              let n' : beaten (q i) (p i) ≡ false = beaten_lem (q i) (p i) ∙ n in
              rw (h', h, n', n, score_loop-wins rounds (suc i) s t)
                (pair_ext (omega arith) (omega arith))
        ]
  ]

  pair_score_loop-score_loop :
      (rounds i s t : ℕ) → pair_score_loop rounds i p q s t ≡ score_loop rounds i p q s t
  unfolding score_loop pair_score_loop
  pair_score_loop-score_loop zero i s t = refl
  pair_score_loop-score_loop (suc rounds) i s t = elim (Bool-cases (beats (q i) (p i))) [
    | inl won ↦
        let won' : beaten (p i) (q i) ≡ true = beaten_lem (p i) (q i) ∙ won in
        let lost' : beaten (q i) (p i) ≡ false =
          beaten_lem (q i) (p i) ∙ not_both (q i) (p i) won in
        rw (won', lost') (pair_score_loop-score_loop rounds (suc i) s (t + 1))
    | inr h ↦
        let h' : beaten (p i) (q i) ≡ false = beaten_lem (p i) (q i) ∙ h in
        rw h' (
          ground (
            arith,
            pair_score_loop-score_loop rounds (suc i) (s + 1) t,
            pair_score_loop-score_loop rounds (suc i) s t,
          ))
  ]

  wins-bound : (rounds i : ℕ) → wins rounds i p q + wins rounds i q p ≤ rounds
  unfolding wins
  wins-bound zero i = omega arith
  wins-bound (suc rounds) i = elim (Bool-cases (beats (q i) (p i))) [
    | inl won ↦ rw (won, not_both (q i) (p i) won) (omega (arith, wins-bound rounds (suc i)))
    | inr h ↦ elim (Bool-cases (beats (p i) (q i))) [
      | inl won ↦ rw (h, won) (omega (arith, wins-bound rounds (suc i)))
      | inr n ↦ rw (h, n) (omega (arith, wins-bound rounds (suc i)))
    ]
  ]

  pair_score_loop-wins :
      (rounds : ℕ) → pair_score_loop rounds 0 p q 0 0 ≡ (wins rounds 0 p q, wins rounds 0 q p)
  pair_score_loop-wins rounds =
      pair_score_loop-score_loop rounds 0 0 0
      ∙ score_loop-wins rounds 0 0 0
      ∙ pair_ext (omega arith) (omega arith)

-- Both umpires give each player the number of rounds that it wins by the rules of the game, in
-- umpire.c of ten rounds; together the scores are at most the number of rounds. Of a pair of
-- umpire2.c, the first player loses exactly if it wins fewer rounds than the second one.
pub play_match-wins :
    (nround : ℕ) (record_of : ℕ → ℕ → ℕ) (a b : ℕ)
    → (play_match (record_of a) (record_of b)
        ≡ (wins 10 0 (record_of a) (record_of b), wins 10 0 (record_of b) (record_of a)))
      × (pair_score_loop nround 0 (record_of a) (record_of b) 0 0
          ≡ (wins nround 0 (record_of a) (record_of b), wins nround 0 (record_of b) (record_of a)))
      × (wins nround 0 (record_of a) (record_of b) + wins nround 0 (record_of b) (record_of a)
          ≤ nround)
      × (loser nround record_of a b ≡ (
          if ltb
            (wins nround 0 (record_of a) (record_of b))
            (wins nround 0 (record_of b) (record_of a))
          then a
          else b))
unfolding play_match loser
play_match-wins nround record_of a b =
    let p = record_of a in
    let q = record_of b in
    let scores = pair_score_loop-wins p q nround in
    (
      sym (pair_score_loop-score_loop p q 10 0 0 0) ∙ pair_score_loop-wins p q 10,
      scores,
      wins-bound p q nround 0,
      rw (loser, scores) refl,
    )
