-- ===== src/Umpire/Calls.antt =====
-- Programs that call the operating system, as the umpires of Assignment1/Part2 do. The system is
-- a parameter: what it answers to the first call, the second one and so on.
pub mod Ends
use cs330_assignments.Base.{
  ℕ, ◌+◌, Bool, true, false, List, [], ◌∷◌, ◌++◌, length, ℤ, pos, negsuc, minus_one, if◌then◌else◌,
  ◌==◌,
}

pub data SystemCall : Type 0 where
  pipe : SystemCall
  write : ℕ → List ℕ → SystemCall
  read : ℕ → SystemCall
  fork : SystemCall
  dup2 : ℕ → ℕ → SystemCall
  close : ℕ → SystemCall
  exec : List ℕ → SystemCall

-- What a call returns, the ends of a new pipe, and what the variable of the caller holds after a
-- read of one byte.
pub record Answer : Type 0 where
  pub result : ℤ
  pub read_end : ℕ
  pub write_end : ℕ
  pub byte : ℕ

abbrev pub is_negative : ℤ → Bool
is_negative (pos n) = false
is_negative (negsuc n) = true

abbrev pub is_zero_result : ℤ → Bool
is_zero_result (pos n) = n == 0
is_zero_result (negsuc n) = false

-- How a part of a program ends: it goes on, exits with a status, or has become another program.
pub data Outcome {ℓ} (A : Type ℓ) : Type ℓ where
  goes_on : A → Outcome A
  exits : ℤ → Outcome A
  becomes : List ℕ → Outcome A

-- A part of a program, by the number of the calls before it; with the calls that it makes.
abbrev pub Run {ℓ} : Type ℓ → Type ℓ
Run A = ℕ → Outcome A × List SystemCall

abbrev pub pure {ℓ} : {A : Type ℓ} → A → Run A
pure a n = (goes_on a, [])

abbrev pub exit {ℓ} : {A : Type ℓ} → ℤ → Run A
exit status n = (exits status, [])

abbrev pub become {ℓ} : {A : Type ℓ} → List ℕ → Run A
become path n = (becomes path, [])

-- The rest of a program, after calls that it has made.
abbrev pub after {ℓ} :
    {A : Type ℓ} → List SystemCall → Outcome A × List SystemCall → Outcome A × List SystemCall
after made r = (r.0, made ++ r.1)

abbrev pub and_then {ℓ κ} :
    {A : Type ℓ} {B : Type κ}
    → ℕ
    → Outcome A × List SystemCall
    → (A → Run B)
    → Outcome B × List SystemCall
and_then n (goes_on a, made) f = after made (f a (n + length made))
and_then n (exits status, made) f = (exits status, made)
and_then n (becomes path, made) f = (becomes path, made)

infixl 5 ◌>>=◌
abbrev pub ◌>>=◌ {ℓ κ} : {A : Type ℓ} {B : Type κ} → Run A → (A → Run B) → Run B
m >>= f = λ n. and_then n (m n) f

infixl 5 ◌>>◌
abbrev pub ◌>>◌ {ℓ κ} : {A : Type ℓ} {B : Type κ} → Run A → Run B → Run B
m >> f = m >>= λ a. f

module _ (os : ℕ → Answer) where
  -- A call, whatever it returns.
  abbrev pub ask : SystemCall → Run Answer
  ask c n = (goes_on (os n), c ∷ [])

  -- A call that ends the program with the status -1 where it returns a negative number.
  abbrev pub check : SystemCall → Run Answer
  check c = do a ← ask c; if is_negative a.result then exit minus_one else pure a
