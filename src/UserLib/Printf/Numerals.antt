-- ===== src/UserLib/Printf/Numerals.antt =====
-- The digits that `vuprintf` prints (Assignment2/user/lib.c), read back.
use cs330_assignments.Base.{
  ℕ, zero, suc, ◌+◌, ◌-◌, ◌*◌, ◌/◌, ◌%◌, ◌^◌, ◌≤◌, ◌<◌, ◌≡◌, ◌≢◌, refl, ap, ◌∙◌, inl, inr, arith,
  true, ◌&&◌, Option, none, some, List, [], ◌∷◌, ltb, leb, ◌==◌, if◌then◌else◌, Bool-cases,
}
use native.Mathlib.Nat.{pow-suc}
use cs330_assignments.UserLib.Printf.{hex_digit, decimal_digit, digit_loop, max_digits}

-- The value of a digit; what is none has a value that no base reaches.
abbrev pub digit_value : ℕ → ℕ
digit_value c =
    if leb b'0' c && leb c b'9'
    then c - b'0'
    else if leb b'A' c && leb c b'F'
    then c - b'A' + 10
    else 16

-- The number that a text denotes in a base, behind digits of the value `acc`.
unfoldable pub read_digits : ℕ → ℕ → List ℕ → Option ℕ
read_digits base acc [] = some acc
read_digits base acc (c ∷ cs) =
    let rest = read_digits base (acc * base + digit_value c) cs in
    if ltb (digit_value c) base then rest else none

-- The first byte of a text, and 0 for the empty one.
abbrev pub first : List ℕ → ℕ
first [] = 0
first (c ∷ cs) = c

-- The numeral of a positive number: it reads as the number and has no leading 0.
pub record Numeral (base n : ℕ) (text : List ℕ) : Type 0 where
  pub reads : read_digits base 0 text ≡ some n
  pub leads : b'0' < first text

-- What the loop has in front of `chars`.
record Digits (base tmp : ℕ) (chars text : List ℕ) : Type 0 where
  reads : read_digits base 0 text ≡ read_digits base tmp chars
  leads : tmp ≢ 0 → b'0' < first text
  same : tmp ≡ 0 → text ≡ chars

module _ (base : ℕ) (digit : ℕ → ℕ) (cap : ℕ → ℕ)
    (digits : (d : ℕ) → d < base → (digit_value (digit d) ≡ d) × (b'0' + d ≤ digit d))
    (small : (n : ℕ) → n % base < base) (split : (n : ℕ) → n / base * base + n % base ≡ n)
    (cap_zero : cap 0 ≡ 1) (cap_suc : (n r : ℕ) → n < cap (suc r) → n / base < cap r) where
  read-digit :
      (acc d : ℕ) (cs : List ℕ)
      → d < base
      → read_digits base acc (digit d ∷ cs) ≡ read_digits base (acc * base + d) cs
  unfolding read_digits
  read-digit acc d cs l =
      let value : digit_value (digit d) ≡ d = (digits d l).0 in
      let ok : ltb d base ≡ true = ground arith in rw (value, ok) refl

  Digits-zero : (tmp : ℕ) (chars : List ℕ) → tmp ≡ 0 → Digits base tmp chars chars
  Digits-zero tmp chars e = record {
    reads = rw e refl;
    leads = λ n. absurd (n e);
    same = λ e'. refl;
  }

  Digits-leads :
      (tmp : ℕ) (chars text : List ℕ)
      → tmp ≢ 0
      → Digits base (tmp / base) (digit (tmp % base) ∷ chars) text
      → b'0' < first text
  Digits-leads tmp chars text n h = elim (Bool-cases (tmp / base == 0)) [
    | inl e ↦
        let none_left : tmp / base ≡ 0 = ground arith in
        let last : 0 * base + tmp % base ≡ tmp = rw none_left at (split tmp) in
        rw (h.same none_left) (omega (arith, (digits (tmp % base) (small tmp)).1))
    | inr f ↦ h.leads (ground arith)
  ]

  Digits-suc :
      (tmp : ℕ) (chars text : List ℕ)
      → tmp ≢ 0
      → Digits base (tmp / base) (digit (tmp % base) ∷ chars) text
      → Digits base tmp chars text
  Digits-suc tmp chars text n h = record {
    reads =
        h.reads
        ∙ read-digit (tmp / base) (tmp % base) chars (small tmp)
        ∙ ap (λ m. read_digits base m chars) (split tmp);
    leads = λ n'. Digits-leads tmp chars text n h;
    same = λ e. absurd (n e);
  }

  digit_loop-Digits :
      (room tmp : ℕ) (chars : List ℕ)
      → tmp < cap room
      → (text : List ℕ) × (digit_loop base digit room tmp chars ≡ some text)
        × Digits base tmp chars text
  unfolding digit_loop
  digit_loop-Digits zero tmp chars l =
      let e : tmp ≡ 0 = omega (arith, cap_zero) in
      let none_left : (tmp == 0) ≡ true = ground arith in
      (chars, rw none_left refl, Digits-zero tmp chars e)
  digit_loop-Digits (suc room) tmp chars l = elim (Bool-cases (tmp == 0)) [
    | inl e ↦ (chars, rw e refl, Digits-zero tmp chars (ground arith))
    | inr f ↦
        let (text, made, h) =
          digit_loop-Digits room (tmp / base) (digit (tmp % base) ∷ chars) (cap_suc tmp room l) in
        (text, rw (f, made) refl, Digits-suc tmp chars text (ground arith) h)
  ]

  digit_loop-Numeral :
      (room n : ℕ)
      → n ≢ 0
      → n < cap room
      → (text : List ℕ) × (digit_loop base digit room n [] ≡ some text) × Numeral base n text
  unfolding read_digits
  digit_loop-Numeral room n p l =
      let (text, made, h) = digit_loop-Digits room n [] l in
      (text, made, record { reads = h.reads; leads = h.leads p })

cap_decimal : (m r : ℕ) → m < 10 ^ suc r → m / 10 < 10 ^ r
cap_decimal m r b = omega (arith, pow-suc 10 r)

cap_hex : (m r : ℕ) → m < 16 ^ suc r → m / 16 < 16 ^ r
cap_hex m r b = omega (arith, pow-suc 16 r)

pub decimal-Numeral :
    (n : ℕ)
    → n ≢ 0
    → n < 2 ^ 32
    → (text : List ℕ) × (digit_loop 10 decimal_digit max_digits n [] ≡ some text)
      × Numeral 10 n text
decimal-Numeral n p l =
    digit_loop-Numeral 10 decimal_digit (λ r. 10 ^ r) (λ d b. (ground arith, omega arith))
      (λ m. omega arith) (λ m. omega arith) refl (λ m r b. cap_decimal m r b) 20 n p (omega arith)

pub hex-Numeral :
    (n : ℕ)
    → n ≢ 0
    → n < 2 ^ 64
    → (text : List ℕ) × (digit_loop 16 hex_digit max_digits n [] ≡ some text) × Numeral 16 n text
hex-Numeral n p l =
    digit_loop-Numeral 16 hex_digit (λ r. 16 ^ r) (λ d b. (ground arith, ground arith))
      (λ m. omega arith) (λ m. omega arith) refl (λ m r b. cap_hex m r b) 20 n p (omega arith)
