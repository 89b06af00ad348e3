-- ===== src/FileSystem/Inodes/Lookup.antt =====
-- What the loops over the inodes find (Assignment2/fs.c).
use cs330_assignments.Base.{
  ℕ, zero, suc, ◌+◌, ◌≤◌, ◌<◌, ◌≡◌, refl, sym, ap, ◌∙◌, arith, Bool, true, false, not, ◌&&◌, Option,
  none, some, List, ℤ, pos, negsuc, ◌==◌, Bool-cases, inl, inr,
}
use cs330_assignments.FileSystem.State.{Inode, Strings}
use cs330_assignments.FileSystem.Inodes.{is_valid_inode, is_zero, free_inode_loop, lookup_loop}

-- The first index that passes a test, with `rounds` indices left from `i` on.
pub data First (p : ℕ → Bool) (i rounds : ℕ) : Option ℕ → Type 0 where
  hit :
      (j : ℕ)
      → i ≤ j
      → j < i + rounds
      → p j ≡ true
      → ((k : ℕ) → i ≤ k → k < j → p k ≡ false)
      → First p i rounds (some j)
  miss : ((k : ℕ) → i ≤ k → k < i + rounds → p k ≡ false) → First p i rounds none

module _ (p : ℕ → Bool) (i rounds : ℕ) where
  pub First-here : p i ≡ true → First p i (suc rounds) (some i)
  First-here e = hit i (omega arith) (omega arith) e (λ k l u. absurd (omega arith))

  later_fails : p i ≡ false → (k : ℕ) → ((i < k → p k ≡ false)) → i ≤ k → p k ≡ false
  later_fails f k h l = elim (Bool-cases (i == k)) [
    | inl e ↦ let e' : i ≡ k = ground arith in ap p (sym e') ∙ f
    | inr ne ↦ h (ground arith)
  ]

  pub First-later :
      p i ≡ false → (o : Option ℕ) → First p (suc i) rounds o → First p i (suc rounds) o
  First-later f o (hit j l u e h) =
      hit j (omega arith) (omega arith) e (λ k a b. later_fails f k (λ c. h k (omega arith) b) a)
  First-later f o (miss h) =
      miss (λ k a b. later_fails f k (λ c. h k (omega arith) (omega arith)) a)

  pub First-some : (j : ℕ) → First p i rounds (some j) → (i ≤ j) × (j < i + rounds) × (p j ≡ true)
  First-some _ (hit _ l u e h) = (l, u, e)

  pub First-none : First p i rounds none → (k : ℕ) → i ≤ k → k < i + rounds → p k ≡ false
  First-none (miss h) = h

pub free_inode_loop-First :
    (rounds i : ℕ) (inode : ℕ → Inode)
    → First (λ k. not (is_valid_inode (inode k))) i rounds (free_inode_loop rounds i inode)
unfolding free_inode_loop
free_inode_loop-First zero i inode = miss (λ k a b. absurd (omega arith))
free_inode_loop-First (suc rounds) i inode = elim (Bool-cases (not (is_valid_inode (inode i)))) [
  | inl t ↦ rw t (First-here (λ k. not (is_valid_inode (inode k))) i rounds t)
  | inr f ↦ rw f (
      First-later (λ k. not (is_valid_inode (inode k))) i rounds f _
        (free_inode_loop-First rounds (suc i) inode))
]

-- An inode that is in use has a name.
pub record Named (name : List ℕ) (n : Inode) : Type 0 where
  pub valid : is_valid_inode n ≡ true
  pub same : n.filename ≡ name

module _ (c : Strings) where
  abbrev pub has_name : List ℕ → Inode → Bool
  has_name name n = is_valid_inode n && is_zero (c.strcmp n.filename name)

  zero_pos : (z : ℤ) → is_zero z ≡ true → z ≡ pos 0
  zero_pos (pos n) h = ground arith
  zero_pos (negsuc n) h = absurd (ground arith)

  pub has_name-Named : (name : List ℕ) (n : Inode) → has_name name n ≡ true → Named name n
  has_name-Named name n h = record {
    valid = ground arith;
    same = (c.strcmp_iff n.filename name).0 (zero_pos (c.strcmp n.filename name) (ground arith));
  }

  pub Named-has_name : (name : List ℕ) (n : Inode) → Named name n → has_name name n ≡ true
  Named-has_name name n h = rw (h.valid, (c.strcmp_iff n.filename name).1 h.same) refl

  pub lookup_loop-First :
      (rounds i : ℕ) (name : List ℕ) (inode : ℕ → Inode)
      → First (λ k. has_name name (inode k)) i rounds (lookup_loop c rounds i name inode)
  unfolding lookup_loop
  lookup_loop-First zero i name inode = miss (λ k a b. absurd (omega arith))
  lookup_loop-First (suc rounds) i name inode = elim (Bool-cases (has_name name (inode i))) [
    | inl t ↦ rw t (First-here (λ k. has_name name (inode k)) i rounds t)
    | inr f ↦ rw f (
        First-later (λ k. has_name name (inode k)) i rounds f _
          (lookup_loop-First rounds (suc i) name inode))
  ]

  pub lookup_loop-ext :
      (rounds i : ℕ) (name : List ℕ) (a b : ℕ → Inode)
      → ((k : ℕ) → i ≤ k → k < i + rounds → has_name name (a k) ≡ has_name name (b k))
      → lookup_loop c rounds i name a ≡ lookup_loop c rounds i name b
  unfolding lookup_loop
  lookup_loop-ext zero i name a b h = refl
  lookup_loop-ext (suc rounds) i name a b h =
      rw
        (
          h i (omega arith) (omega arith),
          lookup_loop-ext rounds (suc i) name a b (λ k l u. h k (omega arith) (omega arith)),
        )
        refl
