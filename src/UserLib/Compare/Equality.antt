-- ===== src/UserLib/Compare/Equality.antt =====
-- `ustrcmp` of Assignment2/user/lib.c against the equality of texts.
use cs330_assignments.Base.{
  ℕ, zero, suc, ◌<◌, ◌≡◌, ◌≢◌, refl, sym, ap, inl, inr, arith, false, Option, some, List, [], ◌∷◌,
  length, ℤ, pos, minus_one, ◌==◌, Bool-cases,
}
use cs330_assignments.UserLib.Compare.{ustrcmp, ustrcmp_loop}

-- The array holds a text from an index on.
pub data TextAt (a : ℕ → ℕ) : ℕ → List ℕ → Type 0 where
  text_end : {i : ℕ} → a i ≡ 0 → TextAt a i []
  text_char : {i : ℕ} {cs : List ℕ} → a i ≢ 0 → TextAt a (suc i) cs → TextAt a i (a i ∷ cs)

-- The result of a comparison: 0 for equal texts and -1 for different ones.
pub data Compared (xs ys : List ℕ) : Option ℤ → Type 0 where
  equal : xs ≡ ys → Compared xs ys (some (pos 0))
  different : xs ≢ ys → Compared xs ys (some minus_one)

head_of : List ℕ → ℕ
head_of [] = 0
head_of (c ∷ cs) = c

tail_of : List ℕ → List ℕ
tail_of [] = []
tail_of (c ∷ cs) = cs

module _ (s d : ℕ → ℕ) where
  Compared-cons :
      (i : ℕ) (xs ys : List ℕ) (o : Option ℤ)
      → s i ≡ d i
      → Compared xs ys o
      → Compared (s i ∷ xs) (d i ∷ ys) o
  unfolding tail_of
  Compared-cons i xs ys _ e (equal h) = equal (rw (e, h) refl)
  Compared-cons i xs ys _ e (different n) = different (λ h. n (ap tail_of h))

  ustrcmp_loop-Compared :
      (rounds i : ℕ) (xs ys : List ℕ)
      → TextAt s i xs
      → TextAt d i ys
      → length xs < rounds
      → Compared xs ys (ustrcmp_loop rounds i s d)
  unfolding ustrcmp_loop head_of
  ustrcmp_loop-Compared zero i xs ys t u l = absurd (omega arith)
  ustrcmp_loop-Compared (suc rounds) i _ _ (text_end e) (text_end f) l = rw (e, f) (equal refl)
  ustrcmp_loop-Compared (suc rounds) i _ _ (text_end e) (text_char {cs = ys} n u) l =
      let used : (d i == 0) ≡ false = ground arith in
      rw (e, used) (different (λ h. n (ap head_of (sym h))))
  ustrcmp_loop-Compared (suc rounds) i _ _ (text_char {cs = xs} n t) (text_end f) l =
      let used : (s i == 0) ≡ false = ground arith in
      rw (f, used) (different (λ h. n (ap head_of h)))
  ustrcmp_loop-Compared (suc rounds) i _ _ (text_char {cs = xs} n t) (text_char {cs = ys} m u) l =
      let used : (s i == 0) ≡ false = ground arith in
      let used' : (d i == 0) ≡ false = ground arith in
      elim (Bool-cases (s i == d i)) [
        | inl e ↦
            rw (used, used', e)
              (Compared-cons i xs ys _ (ground arith)
                (ustrcmp_loop-Compared rounds (suc i) xs ys t u (omega arith)))
        | inr f ↦ rw (used, used', f) (different (λ h. ground (arith, ap head_of h)))
      ]

-- On two texts, ustrcmp ends, within one round more than the first one has bytes, and returns 0 if
-- they are equal and -1 if they differ.
pub ustrcmp-Compared :
    (s d : ℕ → ℕ) (xs ys : List ℕ) (rounds : ℕ)
    → TextAt s 0 xs
    → TextAt d 0 ys
    → length xs < rounds
    → Compared xs ys (ustrcmp rounds s d)
unfolding ustrcmp
ustrcmp-Compared s d xs ys rounds t u l = ustrcmp_loop-Compared s d rounds 0 xs ys t u l
