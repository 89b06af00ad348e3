-- ===== src/UserLib/Printf/Literals.antt =====
-- The integers that `vuprintf` prints (Assignment2/user/lib.c): sign, prefix and digits.
use cs330_assignments.Base.{
  ℕ, zero, suc, ◌-◌, ◌^◌, ◌<◌, ◌≡◌, ◌≢◌, refl, inl, inr, arith, true, false, Option, none, some,
  List, [], ◌∷◌, ◌++◌, ltb, ◌==◌, if◌then◌else◌, Bool-cases, ℤ, pos, negsuc, s32, s64,
}
use cs330_assignments.UserLib.Printf.{put_decimal, put_hex}
use cs330_assignments.UserLib.Printf.Numerals.{
  Numeral, decimal-Numeral, hex-Numeral, read_digits, first,
}

-- How an integer is written: a sign where it is negative, the prefix of the base and the numeral.
pub data Literal (base : ℕ) (prefix : List ℕ) : ℤ → List ℕ → Type 0 where
  zero_text : Literal base prefix (pos 0) (prefix ++ b'0' ∷ [])
  positive :
      {n : ℕ} {text : List ℕ}
      → Numeral base (suc n) text
      → Literal base prefix (pos (suc n)) (prefix ++ text)
  negative :
      {n : ℕ} {text : List ℕ}
      → Numeral base (suc n) text
      → Literal base prefix (negsuc n) (b'-' ∷ prefix ++ text)

positive_at :
    (base n : ℕ) (prefix text : List ℕ)
    → n ≢ 0
    → Numeral base n text
    → Literal base prefix (pos n) (prefix ++ text)
positive_at base zero prefix text p h = absurd (p refl)
positive_at base (suc n) prefix text p h = positive h

negative_at :
    (base m n : ℕ) (prefix text : List ℕ)
    → m ≡ suc n
    → Numeral base m text
    → Literal base prefix (negsuc n) (b'-' ∷ prefix ++ text)
negative_at base m n prefix text e h = negative (rw e at h)

pub put_decimal-Literal :
    (w : ℕ)
    → w < 2 ^ 32
    → w ≢ 2 ^ 31
    → (text : List ℕ) × (put_decimal w ≡ some text) × Literal 10 [] (s32 w) text
unfolding put_decimal
put_decimal-Literal w l n = elim (Bool-cases (w == 0)) [
  | inl z ↦ let e : w ≡ 0 = ground arith in (b'0' ∷ [], rw z refl, rw e zero_text)
  | inr z ↦
      let defined : (w == 2 ^ 31) ≡ false = ground arith in
      elim (Bool-cases (ltb (2 ^ 31) w)) [
        | inl neg ↦
            let (text, made, h) = decimal-Numeral (2 ^ 32 - w) (ground arith) (ground arith) in
            let sign : ltb w (2 ^ 31) ≡ false = ground arith in
            (
              b'-' ∷ text,
              rw (put_decimal, z, defined, neg, made) refl,
              rw sign (negative_at 10 _ _ [] text (ground arith) h),
            )
        | inr p ↦
            let (text, made, h) = decimal-Numeral w (ground arith) l in
            let sign : ltb w (2 ^ 31) ≡ true = ground arith in
            (
              text,
              rw (put_decimal, z, defined, p, made) refl,
              rw sign (positive_at 10 w [] text (ground arith) h),
            )
      ]
]

pub put_hex-Literal :
    (w : ℕ)
    → w < 2 ^ 64
    → w ≢ 2 ^ 63
    → (text : List ℕ) × (put_hex w ≡ some text) × Literal 16 (b'0' ∷ b'x' ∷ []) (s64 w) text
unfolding put_hex
put_hex-Literal w l n = elim (Bool-cases (w == 0)) [
  | inl z ↦ let e : w ≡ 0 = ground arith in (b'0' ∷ b'x' ∷ b'0' ∷ [], rw z refl, rw e zero_text)
  | inr z ↦
      let defined : (w == 2 ^ 63) ≡ false = ground arith in
      elim (Bool-cases (ltb (2 ^ 63) w)) [
        | inl neg ↦
            let (text, made, h) = hex-Numeral (2 ^ 64 - w) (ground arith) (ground arith) in
            let sign : ltb w (2 ^ 63) ≡ false = ground arith in
            (
              b'-' ∷ b'0' ∷ b'x' ∷ text,
              rw (put_hex, z, defined, neg, made) refl,
              rw sign (negative_at 16 _ _ (b'0' ∷ b'x' ∷ []) text (ground arith) h),
            )
        | inr p ↦
            let (text, made, h) = hex-Numeral w (ground arith) l in
            let sign : ltb w (2 ^ 63) ≡ true = ground arith in
            (
              b'0' ∷ b'x' ∷ text,
              rw (put_hex, z, defined, p, made) refl,
              rw sign (positive_at 16 w (b'0' ∷ b'x' ∷ []) text (ground arith) h),
            )
      ]
]

abbrev as_pos : Option ℕ → Option ℤ
as_pos none = none
as_pos (some n) = some (pos n)

abbrev negate : Option ℕ → Option ℤ
negate none = none
negate (some zero) = some (pos 0)
negate (some (suc n)) = some (negsuc n)

abbrev behind_first : List ℕ → List ℕ
behind_first [] = []
behind_first (c ∷ cs) = cs

-- The integer that a decimal text denotes.
unfoldable pub read_int : List ℕ → Option ℤ
read_int text =
    if first text == b'-'
    then negate (read_digits 10 0 (behind_first text))
    else as_pos (read_digits 10 0 text)

read_int-Literal : (z : ℤ) (text : List ℕ) → Literal 10 [] z text → read_int text ≡ some z
unfolding read_int read_digits
read_int-Literal _ _ zero_text = refl
read_int-Literal _ _ (positive {text = t} h) =
    let unsigned : (first t == b'-') ≡ false = ground (arith, h.leads) in
    rw (read_int, unsigned, h.reads) refl
read_int-Literal _ _ (negative h) = rw (h.reads) refl

-- The text reads as an integer.
pub data ReadsAs (z : ℤ) : Option (List ℕ) → Type 0 where
  reads_as : {text : List ℕ} → read_int text ≡ some z → ReadsAs z (some text)

-- For every `int` but -2 ^ 31, %d and %u print a text, within the 20 characters that there are for
-- the digits, that reads as the integer in decimal.
pub put_decimal-ReadsAs : (w : ℕ) → w < 2 ^ 32 → w ≢ 2 ^ 31 → ReadsAs (s32 w) (put_decimal w)
put_decimal-ReadsAs w l n =
    let (text, made, h) = put_decimal-Literal w l n in
    rw made (reads_as (read_int-Literal (s32 w) text h))
