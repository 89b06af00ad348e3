-- ===== src/Umpire/Rounds.antt =====
-- One round of a tournament (Assignment1/Part2/2.2/umpire2.c).
use cs330_assignments.Base.{
  ℕ, zero, suc, ◌+◌, ◌*◌, ◌%◌, ◌<◌, ◌≡◌, refl, sym, inl, inr, arith, Bool, true, false, ◌&&◌,
  Option, none, some, List, [], ◌∷◌, ltb, leb, ◌==◌, if◌then◌else◌, Bool-cases,
}
use cs330_assignments.Umpire.{Players, is_walk_over, active_loop, play_round, walk_over_id}
use cs330_assignments.Umpire.Active.{active_loop-Waiting}
use cs330_assignments.Umpire.Pairs.{walk_overs, Counted, Paired, paired, outside, pair_loop-Paired}

-- Whether a number is that of an active player.
abbrev pub plays : ℕ → (ℕ → Bool) → ℕ → Bool
plays top active w = ltb w top && active w

abbrev within : ℕ → ℕ → (ℕ → Bool) → ℕ → Bool
within i rounds active w = leb i w && (ltb w (i + rounds) && active w)

walk_overs-none : (xs : List ℕ) → walk_overs none xs ≡ 0
unfolding walk_overs
walk_overs-none [] = refl
walk_overs-none (a ∷ rest) = walk_overs-none rest

walk_overs-active_loop :
    (rounds i w : ℕ) (active : ℕ → Bool)
    → walk_overs (some w) (active_loop rounds i active)
      ≡ (if within i rounds active w then 1 else 0)
unfolding walk_overs active_loop
walk_overs-active_loop zero i w active = ground arith
walk_overs-active_loop (suc rounds) i w active =
    let later = walk_overs-active_loop rounds (suc i) w active in
    elim (Bool-cases (active i)) [
      | inl t ↦ elim (Bool-cases (w == i)) [
        | inl e ↦
            let e' : w ≡ i = ground arith in
            let here : active w ≡ true = rw e' t in rw (t, e, later) (ground arith)
        | inr f ↦ rw (t, f, later) (ground arith)
      ]
      | inr n ↦ elim (Bool-cases (w == i)) [
        | inl e ↦
            let e' : w ≡ i = ground arith in
            let here : active w ≡ false = rw e' n in rw (n, later) (ground arith)
        | inr f ↦ rw (n, later) (ground arith)
      ]
    ]

-- How a round ends, where getWalkOver gives the number `w`.
pub data Rounded (top w : ℕ) (s : Players) : Option Players → Type 0 where
  halved :
      {s' : Players}
      → s.nactive ≡ 2 * s'.nactive
      → Counted top s'
      → ((i : ℕ) → s'.active i ≡ true → s.active i ≡ true)
      → Rounded top w s (some s')
  walked_over :
      {s' : Players}
      → s.nactive + 1 ≡ 2 * s'.nactive
      → Counted top s'
      → ((i : ℕ) → s'.active i ≡ true → s.active i ≡ true)
      → w < top
      → s'.active w ≡ true
      → Rounded top w s (some s')
  no_partner : s.nactive % 2 ≡ 1 → plays top s.active w ≡ false → Rounded top w s none

module _ (n nround : ℕ) (walk_over : ℕ → ℕ) (moves : ℕ → ℕ → ℕ → ℕ) where
  -- The players of a round that have the walk-over.
  abbrev given : Players → ℕ
  given s = walk_overs (walk_over_id n nround walk_over moves s.nactive) (active_loop n 0 s.active)

  given_even : (s : Players) → s.nactive % 2 ≡ 0 → given s ≡ 0
  given_even s e =
      let even : (s.nactive % 2 == 0) ≡ true = ground arith in rw even (walk_overs-none _)

  given_odd :
      (s : Players)
      → s.nactive % 2 ≡ 1
      → given s ≡ (if plays n s.active (walk_over s.nactive) then 1 else 0)
  given_odd s e =
      let odd : (s.nactive % 2 == 0) ≡ false = ground arith in
      rw (odd, walk_overs-active_loop n 0 (walk_over s.nactive) s.active) (ground arith)

  Paired-Rounded :
      (s : Players) (o : Option Players)
      → Paired n (walk_over_id n nround walk_over moves s.nactive) s s.nactive (given s) o
      → Rounded n (walk_over s.nactive) s o
  Paired-Rounded s _ (paired h e k c sub keep) = elim (Bool-cases (s.nactive % 2 == 0)) [
    | inl even ↦ let none_given = given_even s (ground arith) in halved (omega arith) c sub
    | inr odd ↦
        let odd' : s.nactive % 2 ≡ 1 = ground arith in
        elim (Bool-cases (plays n s.active (walk_over s.nactive))) [
          | inl there ↦
              let one_given : given s ≡ 1 = rw (given_odd s odd', there) refl in
              let asked : is_walk_over (walk_over_id n nround walk_over moves s.nactive)
                    (walk_over s.nactive)
                  ≡ true =
                rw odd (ground arith) in
              walked_over (omega arith) c sub (ground arith)
                (keep (walk_over s.nactive) asked (ground arith))
          | inr away ↦
              let none_given : given s ≡ 0 = rw (given_odd s odd', away) refl in
              absurd (omega arith)
        ]
  ]
  Paired-Rounded s _ (outside h e) = elim (Bool-cases (s.nactive % 2 == 0)) [
    | inl even ↦ let none_given = given_even s (ground arith) in absurd (ground arith)
    | inr odd ↦
        let odd' : s.nactive % 2 ≡ 1 = ground arith in
        elim (Bool-cases (plays n s.active (walk_over s.nactive))) [
          | inl there ↦
              let one_given : given s ≡ 1 = rw (given_odd s odd', there) refl in
              absurd (omega arith)
          | inr away ↦ no_partner odd' away
        ]
  ]

  -- Where the number of active players is right, a round with an even number of them leaves half of
  -- them. With an odd number, the player whose number getWalkOver returns stays if it is active,
  -- and half of the others leave; if it is not active, the last player has no partner and the entry
  -- behind the array is read. Nobody who has left comes back, and the number stays right.
  pub play_round-Rounded :
      (t : ℕ) (s : Players)
      → Counted n s
      → Rounded n (walk_over s.nactive) s (play_round n nround walk_over moves t s)
  unfolding play_round
  play_round-Rounded t s c = Paired-Rounded s _ (
      rw (sym c) at (
        pair_loop-Paired n nround (moves t) (walk_over_id n nround walk_over moves s.nactive)
          (active_loop n 0 s.active) 0 s (active_loop-Waiting n 0 n s.active (omega arith)) c))
