-- ===== src/OpenFiles/Balance.antt =====
-- Reference counts that agree with the references (Assignment2/file.c).
use cs330_assignments.Base.{
  ℕ, zero, suc, ◌+◌, ◌^◌, ◌≤◌, ◌<◌, ◌≡◌, ◌≢◌, inl, inr, refl, dec32, arith, true, false, not, ◌==◌,
  if◌then◌else◌, update, Bool-cases,
}
use cs330_assignments.OpenFiles.State.{Store, free_file_object, release, retain}

-- An object is allocated exactly if it has references, and counts them.
pub record Balanced (total : ℕ → ℕ) (s : Store) : Type 0 where
  pub live : (a : ℕ) → a ≢ 0 → s.live a ≡ not (total a == 0)
  pub count : (a : ℕ) → a ≢ 0 → 0 < total a → (s.object a).ref_count ≡ total a
  pub bound : (a : ℕ) → a ≢ 0 → total a < 2 ^ 31

-- How many of `rounds` descriptors from `i` on refer to an object.
unfoldable pub refs : ℕ → ℕ → (ℕ → ℕ) → ℕ → ℕ
refs zero i files a = 0
refs (suc rounds) i files a = (if files i == a then 1 else 0) + refs rounds (suc i) files a

-- The references of a table and those from elsewhere.
abbrev pub held : ℕ → ℕ → (ℕ → ℕ) → (ℕ → ℕ) → ℕ → ℕ
held rounds i files elsewhere a = refs rounds i files a + elsewhere a

-- Counts that differ at the null pointer alone.
pub Balanced-skip :
    (total less : ℕ → ℕ) (s : Store)
    → Balanced total s
    → ((b : ℕ) → b ≢ 0 → less b ≡ total b)
    → Balanced less s
Balanced-skip total less s h e = record {
  live = λ a n. ground (arith, h.live a n, e a n);
  count = λ a n p. ground (arith, h.count a n, e a n);
  bound = λ a n. omega (arith, h.bound a n, e a n);
}

pub release-Balanced :
    (a : ℕ) (total less : ℕ → ℕ) (s : Store)
    → a ≢ 0
    → Balanced total s
    → total a ≡ suc (less a)
    → ((b : ℕ) → b ≢ 0 → b ≢ a → less b ≡ total b)
    → Balanced less (release a s)
unfolding release free_file_object
release-Balanced a total less s nz h e o = elim (Bool-cases (less a == 0)) [
  | inl last ↦
      let zeroed : (dec32 (s.object a).ref_count == 0) ≡ true =
        ground (arith, h.count a nz (omega (arith, e)), h.bound a nz) in
      rw zeroed (record {
        live = λ b nb. ground (arith, h.live b nb, o b nb);
        count = λ b nb p. ground (arith, h.count b nb, h.bound b nb, o b nb);
        bound = λ b nb. ground (arith, h.bound b nb, o b nb);
      })
  | inr more ↦
      let kept : (dec32 (s.object a).ref_count == 0) ≡ false =
        ground (arith, h.count a nz (omega (arith, e)), h.bound a nz) in
      rw kept (record {
        live = λ b nb. ground (arith, h.live b nb, o b nb);
        count = λ b nb p. ground (arith, h.count b nb, h.bound b nb, o b nb);
        bound = λ b nb. ground (arith, h.bound b nb, o b nb);
      })
]

pub retain-Balanced :
    (a : ℕ) (total more : ℕ → ℕ) (s : Store)
    → a ≢ 0
    → Balanced total s
    → 0 < total a
    → more a ≡ suc (total a)
    → ((b : ℕ) → b ≢ 0 → b ≢ a → more b ≡ total b)
    → ((b : ℕ) → b ≢ 0 → more b < 2 ^ 31)
    → Balanced more (retain a s)
unfolding retain
retain-Balanced a total more s nz h p e o l = record {
  live = λ b nb. ground (arith, h.live b nb, o b nb);
  count = λ b nb q. ground (arith, h.count b nb, h.bound b nb, o b nb);
  bound = l;
}

pub refs-before :
    (rounds i j v a : ℕ) (files : ℕ → ℕ)
    → j < i
    → refs rounds i (update files j v) a ≡ refs rounds i files a
unfolding refs
refs-before zero i j v a files h = refl
refs-before (suc rounds) i j v a files h = ground (arith, refs-before rounds (suc i) j v a files)

-- What a write of one descriptor does to the number of references to an object.
pub refs-update :
    (rounds i j v a : ℕ) (files : ℕ → ℕ)
    → i ≤ j
    → j < i + rounds
    → refs rounds i (update files j v) a + (if files j == a then 1 else 0)
      ≡ refs rounds i files a + (if v == a then 1 else 0)
unfolding refs
refs-update zero i j v a files l u = absurd (omega arith)
refs-update (suc rounds) i j v a files l u = elim (Bool-cases (i == j)) [
  | inl e ↦
      let e' : i ≡ j = ground arith in
      rw e' (ground (arith, refs-before rounds (suc j) j v a files))
  | inr ne ↦
      let later : i < j = ground arith in ground (arith, refs-update rounds (suc i) j v a files)
]

pub refs-positive :
    (rounds i j a : ℕ) (files : ℕ → ℕ)
    → i ≤ j
    → j < i + rounds
    → files j ≡ a
    → 0 < refs rounds i files a
unfolding refs
refs-positive zero i j a files l u e = absurd (omega arith)
refs-positive (suc rounds) i j a files l u e = elim (Bool-cases (i == j)) [
  | inl h ↦ let h' : i ≡ j = ground arith in rw h' (ground (arith, e))
  | inr ne ↦ ground (arith, refs-positive rounds (suc i) j a files)
]

pub refs-bound : (rounds i a : ℕ) (files : ℕ → ℕ) → refs rounds i files a ≤ rounds
unfolding refs
refs-bound zero i a files = omega arith
refs-bound (suc rounds) i a files = ground (arith, refs-bound rounds (suc i) a files)
