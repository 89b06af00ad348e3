-- ===== src/Umpire/Pairs.antt =====
-- The pairs of one round of the tournament (Assignment1/Part2/2.2/umpire2.c).
use cs330_assignments.Base.{
  ℕ, suc, ◌+◌, ◌*◌, ◌<◌, ◌≡◌, ◌≢◌, ◌⊎◌, refl, inl, inr, arith, true, false, Option, none, some,
  List, [], ◌∷◌, length, ltb, ◌==◌, if◌then◌else◌, Bool-cases,
}
use cs330_assignments.Umpire.{Players, is_walk_over, loser, play_pair, pair_loop, pair_score_loop}
use cs330_assignments.Umpire.Active.{
  Waiting, waits, Waiting-update, active_count, active_count-update,
}

-- How many players of a list have the walk-over.
unfoldable pub walk_overs : Option ℕ → List ℕ → ℕ
walk_overs wid [] = 0
walk_overs wid (a ∷ rest) =
    let later = walk_overs wid rest in if is_walk_over wid a then suc later else later

-- The number of active players is kept right.
abbrev pub Counted : ℕ → Players → Type 0
Counted top s = s.nactive ≡ active_count top 0 s.active

-- How the pairs of `m` players end, `b` of which have the walk-over: of each pair one player
-- leaves, or a player without a partner is left, and the entry behind the last one is read.
pub data Paired (top : ℕ) (wid : Option ℕ) (s : Players) (m b : ℕ) : Option Players → Type 0 where
  paired :
      {s' : Players} (h : ℕ)
      → m ≡ 2 * h + b
      → s.nactive ≡ h + s'.nactive
      → Counted top s'
      → ((i : ℕ) → s'.active i ≡ true → s.active i ≡ true)
      → ((i : ℕ) → is_walk_over wid i ≡ true → s.active i ≡ true → s'.active i ≡ true)
      → Paired top wid s m b (some s')
  outside : (h : ℕ) → m ≡ 2 * h + 1 + b → Paired top wid s m b none

Paired-skip :
    (top : ℕ) (wid : Option ℕ) (s : Players) (m b : ℕ) (o : Option Players)
    → Paired top wid s m b o
    → Paired top wid s (suc m) (suc b) o
Paired-skip top wid s m b _ (paired h e n c k w) = paired h (omega arith) n c k w
Paired-skip top wid s m b _ (outside h e) = outside h (omega arith)

module _ (top nround : ℕ) (record_of : ℕ → ℕ → ℕ) (wid : Option ℕ) where
  abbrev score : ℕ → ℕ → ℕ × ℕ
  score a b = pair_score_loop nround 0 (record_of a) (record_of b) 0 0

  loser-cases : (a b : ℕ) → (loser nround record_of a b ≡ a) ⊎ (loser nround record_of a b ≡ b)
  unfolding loser
  loser-cases a b = elim (Bool-cases (ltb (score a b).0 (score a b).1)) [
    | inl l ↦ rw l (inl refl)
    | inr l ↦ rw l (inr refl)
  ]

  -- What is known of a player that is still to play.
  abbrev CanPlay : Players → ℕ → Type 0
  CanPlay s a = (a < top) × (s.active a ≡ true) × (is_walk_over wid a ≡ false)

  loser-CanPlay :
      (s : Players) (a b : ℕ) → CanPlay s a → CanPlay s b → CanPlay s (loser nround record_of a b)
  loser-CanPlay s a b p q = elim (loser-cases a b) [ inl e ↦ rw e p | inr e ↦ rw e q ]

  play_pair-count :
      (s : Players) (a b : ℕ)
      → CanPlay s a
      → CanPlay s b
      → Counted top s
      → Counted top (play_pair nround record_of a b s)
        × (s.nactive ≡ 1 + (play_pair nround record_of a b s).nactive)
  unfolding play_pair
  play_pair-count s a b p q c =
      let l = loser-CanPlay s a b p q in
      let less =
        active_count-update top 0 (loser nround record_of a b) s.active (omega arith)
          (omega (arith, l.0)) l.1 in
      (omega arith, omega arith)

  -- A pair of players, none of which has the walk-over.
  Paired-play :
      (a b m n m' n' : ℕ) (s : Players) (o : Option Players)
      → CanPlay s a
      → CanPlay s b
      → Counted top s
      → m + n' ≡ 2 + m' + n
      → Paired top wid (play_pair nround record_of a b s) m' n' o
      → Paired top wid s m n o
  unfolding play_pair
  Paired-play a b m n m' n' s _ p q c e (outside h e') = outside (suc h) (omega arith)
  Paired-play a b m n m' n' s _ p q c e (paired h e' k c' sub keep) =
      let l = loser-CanPlay s a b p q in
      let less = (play_pair-count s a b p q c).1 in
      paired (suc h) (omega arith) (omega arith) c' (λ i t. ground (arith, sub i t))
        (λ i w t. elim (Bool-cases (loser nround record_of a b == i)) [
          | inl same ↦
              let same' : loser nround record_of a b ≡ i = ground arith in
              absurd (ground (arith, rw same' at l.2, w))
          | inr other ↦ keep i w (rw other t)
        ])

  Waiting-play :
      (s : Players) (a b low : ℕ) (xs : List ℕ)
      → a < low
      → b < low
      → Waiting s.active top low xs
      → Waiting (play_pair nround record_of a b s).active top low xs
  unfolding play_pair
  Waiting-play s a b low xs p q w =
      let l : loser nround record_of a b < low = elim (loser-cases a b) [
        | inl e ↦ rw e p
        | inr e ↦ rw e q
      ] in
      Waiting-update s.active top low (loser nround record_of a b) xs l w

  walk_over_other : (b c : ℕ) → is_walk_over wid b ≡ true → b ≢ c → is_walk_over wid c ≡ false
  walk_over_other b c e n = go wid e
    where
      go : (o : Option ℕ) → is_walk_over o b ≡ true → is_walk_over o c ≡ false
      go none e = refl
      go (some w) e = ground arith

  pub pair_loop-Paired :
      (xs : List ℕ) (low : ℕ) (s : Players)
      → Waiting s.active top low xs
      → Counted top s
      → Paired top wid s (length xs) (walk_overs wid xs) (pair_loop nround record_of wid xs s)
  unfolding pair_loop walk_overs
  pair_loop-Paired [] low s w c = paired 0 (omega arith) (omega arith) c (λ i t. t) (λ i v t. t)
  pair_loop-Paired (a ∷ []) low s (waits la ta ea wa) c = elim (Bool-cases (is_walk_over wid a)) [
    | inl v ↦ rw v (paired 0 (omega arith) (omega arith) c (λ i t. t) (λ i v t. t))
    | inr n ↦ rw n (outside 0 (omega arith))
  ]
  pair_loop-Paired (a ∷ b ∷ []) low s (waits la ta ea (waits lb tb eb wb)) c =
      elim (Bool-cases (is_walk_over wid a)) [
        | inl v ↦ rw v (
            Paired-skip top wid s _ _ _ (pair_loop-Paired (b ∷ []) (suc a) s (waits lb tb eb wb) c))
        | inr n ↦ elim (Bool-cases (is_walk_over wid b)) [
          | inl v ↦ rw (n, v) (outside 0 (omega arith))
          | inr m ↦
              rw (n, m)
                (Paired-play a b _ _ 0 0 s _ (ta, ea, n) (tb, eb, m) c (omega arith)
                  (paired 0 (omega arith) (omega arith)
                    (play_pair-count s a b (ta, ea, n) (tb, eb, m) c).0 (λ i t. t) (λ i v t. t)))
        ]
      ]
  pair_loop-Paired (a ∷ b ∷ d ∷ rest) low s (waits la ta ea (waits lb tb eb (waits ld td ed wd)))
        c =
      elim (Bool-cases (is_walk_over wid a)) [
        | inl v ↦ rw v (
            Paired-skip top wid s _ _ _
              (pair_loop-Paired (b ∷ d ∷ rest) (suc a) s (waits lb tb eb (waits ld td ed wd)) c))
        | inr n ↦ elim (Bool-cases (is_walk_over wid b)) [
          | inl v ↦
              let m = walk_over_other b d v (omega arith) in
              rw (n, v, m)
                (Paired-play a d _ _ _ _ s _ (ta, ea, n) (td, ed, m) c (omega arith)
                  (pair_loop-Paired rest (suc d) (play_pair nround record_of a d s)
                    (Waiting-play s a d (suc d) rest (omega arith) (omega arith) wd)
                    (play_pair-count s a d (ta, ea, n) (td, ed, m) c).0))
          | inr m ↦
              rw (n, m)
                (Paired-play a b _ _ _ _ s _ (ta, ea, n) (tb, eb, m) c (omega arith)
                  (pair_loop-Paired (d ∷ rest) (suc b) (play_pair nround record_of a b s)
                    (Waiting-play s a b (suc b) (d ∷ rest) (omega arith) (omega arith)
                      (waits ld td ed wd))
                    (play_pair-count s a b (ta, ea, n) (tb, eb, m) c).0))
        ]
      ]
