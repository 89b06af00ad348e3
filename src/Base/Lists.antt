-- ===== src/Base/Lists.antt =====
-- Lists measured by native numbers, and arrays as functions with the list of their first entries.
use Prim.Native.Nat.{ℕ, zero, suc, ◌+◌, ◌≤◌, ◌<◌}
use mathlib.Core.Path.{◌≡◌, refl, ap, ap₂}
use mathlib.Core.List.{List, [], ◌∷◌, ◌++◌}
use mathlib.Core.Bool.{Bool}
use native.Mathlib.Omega.{arith}
use cs330_assignments.Base.Tests.{◌==◌, if◌then◌else◌}

module _ {ℓ} {A : Type ℓ} where
  abbrev pub length : List A → ℕ
  length [] = 0
  length (x ∷ xs) = suc (length xs)

  pub length-append : (xs ys : List A) → length (xs ++ ys) ≡ length xs + length ys
  length-append [] ys = omega arith
  length-append (x ∷ xs) ys = omega (arith, length-append xs ys)

  -- The entries that a test keeps, in order.
  unfoldable pub select : (A → Bool) → List A → List A
  select p [] = []
  select p (x ∷ xs) = let rest = select p xs in if p x then x ∷ rest else rest

  pub select-append :
      (p : A → Bool) (xs ys : List A) → select p (xs ++ ys) ≡ select p xs ++ select p ys
  unfolding select
  select-append p [] ys = refl
  select-append p (x ∷ xs) ys = ground (arith, select-append p xs ys)

  -- The write `a[i] = v`.
  abbrev pub update : (ℕ → A) → ℕ → A → ℕ → A
  update a i v j = if i == j then v else a j

  -- The entries a[i], …, a[i + n - 1].
  unfoldable pub slice : (ℕ → A) → ℕ → ℕ → List A
  slice a i zero = []
  slice a i (suc n) = a i ∷ slice a (suc i) n

  pub length-slice : (a : ℕ → A) (i n : ℕ) → length (slice a i n) ≡ n
  unfolding slice
  length-slice a i zero = refl
  length-slice a i (suc n) = ap suc (length-slice a (suc i) n)

  pub slice-suc : (a : ℕ → A) (i n j : ℕ) → i + n ≡ j → slice a i (suc n) ≡ slice a i n ++ a j ∷ []
  unfolding slice
  slice-suc a i zero j e = ap (λ k. a k ∷ []) (omega arith)
  slice-suc a i (suc n) j e = ap (◌∷◌ (a i)) (slice-suc a (suc i) n j (omega arith))

  -- Slices of arrays that agree on them are equal.
  pub slice-ext :
      (a b : ℕ → A) (i n : ℕ)
      → ((j : ℕ) → i ≤ j → j < i + n → a j ≡ b j)
      → slice a i n ≡ slice b i n
  unfolding slice
  slice-ext a b i zero h = refl
  slice-ext a b i (suc n) h =
      ap₂ ◌∷◌ (h i (omega arith) (omega arith))
        (slice-ext a b (suc i) n (λ j p q. h j (omega arith) (omega arith)))

  abbrev pub take : ℕ → List A → List A
  take zero xs = []
  take (suc n) [] = []
  take (suc n) (x ∷ xs) = x ∷ take n xs

  pub slice-append : (a : ℕ → A) (i m n : ℕ) → slice a i (m + n) ≡ slice a i m ++ slice a (i + m) n
  unfolding slice
  slice-append a i zero n = let e : i + 0 ≡ i = omega arith in rw e (ap (slice a i) (omega arith))
  slice-append a i (suc m) n =
      let e : suc m + n ≡ suc (m + n) = omega arith in
      let f : i + suc m ≡ suc i + m = omega arith in
      rw (e, f) (ap (◌∷◌ (a i)) (slice-append a (suc i) m n))
