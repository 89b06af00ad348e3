-- ===== src/Umpire/Active.antt =====
-- The active players of a tournament (Assignment1/Part2/2.2/umpire2.c).
use cs330_assignments.Base.{
  ℕ, zero, suc, ◌+◌, ◌≤◌, ◌<◌, ◌≡◌, refl, ap, inl, inr, arith, Bool, true, false, List, [], ◌∷◌,
  length, update, ◌==◌, Bool-cases,
}
use cs330_assignments.Umpire.{active_loop}

-- Rising players below `top`, from `low` on, that are all active.
pub data Waiting (active : ℕ → Bool) (top : ℕ) : ℕ → List ℕ → Type 0 where
  no_more : {low : ℕ} → Waiting active top low []
  waits :
      {low a : ℕ} {rest : List ℕ}
      → low ≤ a
      → a < top
      → active a ≡ true
      → Waiting active top (suc a) rest
      → Waiting active top low (a ∷ rest)

pub Waiting-weaken :
    (active : ℕ → Bool) (top low low' : ℕ) (xs : List ℕ)
    → low' ≤ low
    → Waiting active top low xs
    → Waiting active top low' xs
Waiting-weaken active top low low' _ l no_more = no_more
Waiting-weaken active top low low' _ l (waits p q e w) = waits (omega arith) q e w

pub Waiting-update :
    (active : ℕ → Bool) (top low x : ℕ) (xs : List ℕ)
    → x < low
    → Waiting active top low xs
    → Waiting (update active x false) top low xs
Waiting-update active top low x _ l no_more = no_more
Waiting-update active top low x _ l (waits {rest = rest} p q e w) =
    waits p q (ground (arith, e)) (Waiting-update active top _ x rest (omega arith) w)

pub active_loop-Waiting :
    (rounds i top : ℕ) (active : ℕ → Bool)
    → i + rounds ≡ top
    → Waiting active top i (active_loop rounds i active)
unfolding active_loop
active_loop-Waiting zero i top active e = no_more
active_loop-Waiting (suc rounds) i top active e =
    let later = active_loop-Waiting rounds (suc i) top active (omega arith) in
    elim (Bool-cases (active i)) [
      | inl t ↦ rw t (waits (omega arith) (omega arith) t later)
      | inr f ↦ rw f (Waiting-weaken active top (suc i) i _ (omega arith) later)
    ]

-- How many of the players `i`, …, `i + rounds - 1` are active.
abbrev pub active_count : ℕ → ℕ → (ℕ → Bool) → ℕ
active_count rounds i active = length (active_loop rounds i active)

active_loop_before :
    (rounds i x : ℕ) (active : ℕ → Bool)
    → x < i
    → active_loop rounds i (update active x false) ≡ active_loop rounds i active
unfolding active_loop
active_loop_before zero i x active l = refl
active_loop_before (suc rounds) i x active l =
    let other : (x == i) ≡ false = ground arith in
    rw (other, active_loop_before rounds (suc i) x active (omega arith)) refl

pub active_count-update :
    (rounds i x : ℕ) (active : ℕ → Bool)
    → i ≤ x
    → x < i + rounds
    → active x ≡ true
    → active_count rounds i active ≡ suc (active_count rounds i (update active x false))
unfolding active_loop
active_count-update zero i x active l u e = absurd (omega arith)
active_count-update (suc rounds) i x active l u e = elim (Bool-cases (x == i)) [
  | inl t ↦
      let same : x ≡ i = ground arith in
      rw (t, rw same at e, active_loop_before rounds (suc i) x active (omega arith)) refl
  | inr f ↦
      let later = active_count-update rounds (suc i) x active (ground arith) (omega arith) e in
      elim (Bool-cases (active i)) [ inl t ↦ rw (f, t) (ap suc later) | inr n ↦ rw (f, n) later ]
]
