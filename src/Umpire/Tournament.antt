-- ===== src/Umpire/Tournament.antt =====
-- The tournament of umpire2 (Assignment1/Part2/2.2/umpire2.c), for a power of two.
use cs330_assignments.Base.{
  ℕ, zero, suc, ◌+◌, ◌^◌, ◌≤◌, ◌<◌, ◌≡◌, refl, sym, ap, ◌∙◌, inl, inr, arith, Bool, true, false,
  Option, none, some, List, [], ◌∷◌, length, ◌==◌, Bool-cases,
}
use native.Mathlib.Nat.{pow-suc, one-le-pow}
use cs330_assignments.Umpire.{
  Players, active_loop, play_round, tournament_loop, tournament, winner_loop, with_line,
}
use cs330_assignments.Umpire.Active.{active_count}
use cs330_assignments.Umpire.Pairs.{Counted}
use cs330_assignments.Umpire.Rounds.{Rounded, halved, walked_over, no_partner, play_round-Rounded}

-- The lines of a tournament with 2 ^ k players: each round has half as many as the one before it.
pub data Halving : ℕ → List (List ℕ) → Type 0 where
  no_line : Halving 0 []
  line :
      {k : ℕ} {players : List ℕ} {lines : List (List ℕ)}
      → length players ≡ 2 ^ suc k
      → Halving k lines
      → Halving (suc k) (players ∷ lines)

-- How the rounds end: one player is left.
data Played (n k : ℕ) : Option (List (List ℕ) × Players) → Type 0 where
  played :
      {lines : List (List ℕ)} {s : Players}
      → Halving k lines
      → s.nactive ≡ 1
      → Counted n s
      → Played n k (some (lines, s))

-- The lines of k rounds, and a winner among the players.
pub data Won (n k : ℕ) : Option (List (List ℕ) × Option ℕ) → Type 0 where
  won : {lines : List (List ℕ)} {p : ℕ} → Halving k lines → p < n → Won n k (some (lines, some p))

Played-line :
    (n k : ℕ) (players : List ℕ) (o : Option (List (List ℕ) × Players))
    → length players ≡ 2 ^ suc k
    → Played n k o
    → Played n (suc k) (with_line players o)
Played-line n k players _ e (played h one c) = played (line e h) one c

data FirstActive (top : ℕ) : Option ℕ → Type 0 where
  first_active : {p : ℕ} → p < top → FirstActive top (some p)

winner_loop-FirstActive :
    (rounds i top : ℕ) (active : ℕ → Bool)
    → 0 < active_count rounds i active
    → i + rounds ≡ top
    → FirstActive top (winner_loop rounds i active)
unfolding winner_loop active_loop
winner_loop-FirstActive zero i top active l e = absurd (omega arith)
winner_loop-FirstActive (suc rounds) i top active l e = elim (Bool-cases (active i)) [
  | inl t ↦ rw t (first_active (omega arith))
  | inr f ↦ rw f (winner_loop-FirstActive rounds (suc i) top active (rw f at l) (omega arith))
]

-- What comes after a round with an even number of players.
Rounded-Played :
    (n k w : ℕ) (s : Players) (o : Option Players)
    (rest : Players → Option (List (List ℕ) × Players))
    → Counted n s
    → s.nactive ≡ 2 ^ suc k
    → ((s' : Players) → Counted n s' → s'.nactive ≡ 2 ^ k → Played n k (rest s'))
    → Rounded n w s o
    → Played n
        (suc k)
        (elim o [ none ↦ none | some s' ↦ with_line (active_loop n 0 s.active) (rest s') ])
Rounded-Played n k w s _ rest c e h (halved {s' = s'} m c' sub) =
    Played-line n k (active_loop n 0 s.active) (rest s') (sym c ∙ e)
      (h s' c' (omega (arith, pow-suc 2 k)))
Rounded-Played n k w s _ rest c e h (walked_over m c' sub l t) = absurd (omega (arith, pow-suc 2 k))
Rounded-Played n k w s _ rest c e h (no_partner odd away) = absurd (omega (arith, pow-suc 2 k))

all_active : (rounds i : ℕ) → active_count rounds i (λ j. true) ≡ rounds
unfolding active_loop
all_active zero i = refl
all_active (suc rounds) i = ap suc (all_active rounds (suc i))

module _ (n nround : ℕ) (walk_over : ℕ → ℕ) (moves : ℕ → ℕ → ℕ → ℕ) where
  tournament_loop-Played :
      (k rounds t : ℕ) (s : Players)
      → k ≤ rounds
      → Counted n s
      → s.nactive ≡ 2 ^ k
      → Played n k (tournament_loop n nround walk_over moves rounds t s)
  unfolding tournament_loop
  tournament_loop-Played zero zero t s l c e =
      let one : (s.nactive == 1) ≡ true = ground arith in
      rw (tournament_loop, one) (played no_line e c)
  tournament_loop-Played zero (suc rounds) t s l c e =
      let one : (s.nactive == 1) ≡ true = ground arith in
      rw (tournament_loop, one) (played no_line e c)
  tournament_loop-Played (suc k) zero t s l c e = absurd (omega arith)
  tournament_loop-Played (suc k) (suc rounds) t s l c e =
      let many : 1 ≤ 2 ^ k = one-le-pow k 2 (omega arith) in
      let more : (s.nactive == 1) ≡ false = ground (arith, pow-suc 2 k, e) in
      rw (tournament_loop, more)
        (Rounded-Played n k (walk_over s.nactive) s (play_round n nround walk_over moves t s)
          (tournament_loop n nround walk_over moves rounds (suc t)) c e
          (λ s' c' e'. tournament_loop-Played k rounds (suc t) s' (omega arith) c' e')
          (play_round-Rounded n nround walk_over moves t s c))

FirstActive-Won :
    (n k : ℕ) (lines : List (List ℕ)) (o : Option ℕ)
    → Halving k lines
    → FirstActive n o
    → Won n k (some (lines, o))
FirstActive-Won n k lines _ h (first_active l) = won h l

Played-Won :
    (n k : ℕ) (o : Option (List (List ℕ) × Players))
    → Played n k o
    → Won n k (elim o [ none ↦ none | some (lines, s) ↦ some (lines, winner_loop n 0 s.active) ])
Played-Won n k _ (played {s = s} h one c) =
    FirstActive-Won n k _ _ h
      (winner_loop-FirstActive n 0 n s.active (omega (arith, one, c)) (omega arith))

-- A tournament of 2 ^ k players ends after k rounds, whatever they play and whatever getWalkOver
-- would return: each round prints half as many players as the one before it, and in the end one of
-- the players is printed.
pub tournament-Won :
    (k nround rounds : ℕ) (walk_over : ℕ → ℕ) (moves : ℕ → ℕ → ℕ → ℕ)
    → k ≤ rounds
    → Won (2 ^ k) k (tournament (2 ^ k) nround walk_over moves rounds)
unfolding tournament
tournament-Won k nround rounds walk_over moves l = Played-Won (2 ^ k) k _ (
    tournament_loop-Played (2 ^ k) nround walk_over moves k rounds 0
      (record { active = λ i. true; nactive = 2 ^ k }) l (sym (all_active (2 ^ k) 0)) refl)
