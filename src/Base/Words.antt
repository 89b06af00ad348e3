-- ===== src/Base/Words.antt =====
-- Machine words as bit patterns, and byte memory with little-endian 64-bit words.
use Prim.Native.Nat.{ℕ, ◌+◌, ◌-◌, ◌*◌, ◌/◌, ◌%◌, ◌^◌, ◌≤◌, ◌<◌}
use mathlib.Core.Path.{◌≡◌}
use mathlib.Core.Logic.{◌⊎◌, inl, inr}
use native.Mathlib.Omega.{arith}
use cs330_assignments.Base.Tests.{ltb, ◌==◌, if◌then◌else◌}
use cs330_assignments.Base.Int.{ℤ, pos, negsuc}

-- The integer that a 32-bit pattern stands for in an `int`.
abbrev pub s32 : ℕ → ℤ
s32 w = if ltb w (2 ^ 31) then pos w else negsuc (2 ^ 32 - w - 1)

-- The integer that a 64-bit pattern stands for in a `long`.
abbrev pub s64 : ℕ → ℤ
s64 w = if ltb w (2 ^ 63) then pos w else negsuc (2 ^ 64 - w - 1)

-- `x + 1` and `x - 1` on 32-bit words.
abbrev pub inc32 : ℕ → ℕ
inc32 x = (x + 1) % 2 ^ 32

abbrev pub dec32 : ℕ → ℕ
dec32 x = (x + (2 ^ 32 - 1)) % 2 ^ 32

-- `x - 1` on 64-bit words.
abbrev pub dec64 : ℕ → ℕ
dec64 x = (x + (2 ^ 64 - 1)) % 2 ^ 64

-- Byte memory, by address.
abbrev pub Memory : Type 0
Memory = ℕ → ℕ

-- The little-endian 64-bit word at an address.
unfoldable pub load64 : Memory → ℕ → ℕ
load64 mem a =
    mem a
    + 2 ^ 8 * mem (a + 1)
    + 2 ^ 16 * mem (a + 2)
    + 2 ^ 24 * mem (a + 3)
    + 2 ^ 32 * mem (a + 4)
    + 2 ^ 40 * mem (a + 5)
    + 2 ^ 48 * mem (a + 6)
    + 2 ^ 56 * mem (a + 7)

-- Writes such a word. An address within it is its distance from the first one.
unfoldable pub store64 : Memory → ℕ → ℕ → Memory
store64 mem a v b =
    if ltb b a
    then mem b
    else if b == a
    then v % 256
    else if b == a + 1
    then v / 2 ^ 8 % 256
    else if b == a + 2
    then v / 2 ^ 16 % 256
    else if b == a + 3
    then v / 2 ^ 24 % 256
    else if b == a + 4
    then v / 2 ^ 32 % 256
    else if b == a + 5
    then v / 2 ^ 40 % 256
    else if b == a + 6
    then v / 2 ^ 48 % 256
    else if b == a + 7
    then v / 2 ^ 56 % 256
    else mem b

store64_out : (mem : Memory) (a v b : ℕ) → (b < a) ⊎ (a + 8 ≤ b) → store64 mem a v b ≡ mem b
unfolding store64
store64_out mem a v b (inl h) = ground arith
store64_out mem a v b (inr h) = ground arith

pub load64-store64_ne :
    (mem : Memory) (a v b : ℕ)
    → (b + 8 ≤ a) ⊎ (a + 8 ≤ b)
    → load64 (store64 mem a v) b ≡ load64 mem b
unfolding load64
load64-store64_ne mem a v b h = omega (
  arith,
  store64_out mem a v b (omega arith),
  store64_out mem a v (b + 1) (omega arith),
  store64_out mem a v (b + 2) (omega arith),
  store64_out mem a v (b + 3) (omega arith),
  store64_out mem a v (b + 4) (omega arith),
  store64_out mem a v (b + 5) (omega arith),
  store64_out mem a v (b + 6) (omega arith),
  store64_out mem a v (b + 7) (omega arith),
)

module _ (mem : Memory) (a v : ℕ) where
  store64_low :
      (store64 mem a v a ≡ v % 256)
      × (store64 mem a v (a + 1) ≡ v / 2 ^ 8 % 256)
      × (store64 mem a v (a + 2) ≡ v / 2 ^ 16 % 256)
      × (store64 mem a v (a + 3) ≡ v / 2 ^ 24 % 256)
  unfolding store64
  store64_low = (ground arith, ground arith, ground arith, ground arith)

  store64_high :
      (store64 mem a v (a + 4) ≡ v / 2 ^ 32 % 256)
      × (store64 mem a v (a + 5) ≡ v / 2 ^ 40 % 256)
      × (store64 mem a v (a + 6) ≡ v / 2 ^ 48 % 256)
      × (store64 mem a v (a + 7) ≡ v / 2 ^ 56 % 256)
  unfolding store64
  store64_high = (ground arith, ground arith, ground arith, ground arith)

  pub load64-store64 : v < 2 ^ 64 → load64 (store64 mem a v) a ≡ v
  unfolding load64
  load64-store64 h =
      let l = store64_low in
      let u = store64_high in rw (l.0, l.1, l.2, l.3, u.0, u.1, u.2, u.3) (omega arith)
