-- ===== src/FileSystem/Inodes/Table.antt =====
-- A table of inodes in order, for Assignment2/fs.c.
use cs330_assignments.Base.{
  pos, minus_one, ℕ, zero, suc, ◌+◌, ◌≤◌, ◌<◌, ◌≡◌, ◌≢◌, ◌⊎◌, inl, inr, refl, sym, ap, ◌∙◌, arith,
  true, false, Option, none, some, List, if◌then◌else◌, ◌==◌, Bool-cases,
}
use cs330_assignments.FileSystem.State.{Inode, SuperBlock, Strings, num_inodes}
use cs330_assignments.FileSystem.Inodes.{
  is_valid_inode, lookup_loop, flat_lookup_inode, flat_get_inode_no,
}
use cs330_assignments.FileSystem.Inodes.Lookup.{
  Named, First, hit, miss, has_name, has_name-Named, Named-has_name, lookup_loop-First,
}
use cs330_assignments.FileSystem.Bytes.File.{FileInOrder}

-- How many inodes are in use, of `rounds` inodes from `i` on.
unfoldable pub valid_count : ℕ → ℕ → (ℕ → Inode) → ℕ
valid_count zero i inode = 0
valid_count (suc rounds) i inode =
    (if is_valid_inode (inode i) then 1 else 0) + valid_count rounds (suc i) inode

pub valid_count-bound : (rounds i : ℕ) (inode : ℕ → Inode) → valid_count rounds i inode ≤ rounds
unfolding valid_count
valid_count-bound zero i inode = omega arith
valid_count-bound (suc rounds) i inode = ground (arith, valid_count-bound rounds (suc i) inode)

pub valid_count-ext :
    (rounds i : ℕ) (a b : ℕ → Inode)
    → ((k : ℕ) → i ≤ k → k < i + rounds → is_valid_inode (a k) ≡ is_valid_inode (b k))
    → valid_count rounds i a ≡ valid_count rounds i b
unfolding valid_count
valid_count-ext zero i a b h = refl
valid_count-ext (suc rounds) i a b h =
    rw
      (
        h i (omega arith) (omega arith),
        valid_count-ext rounds (suc i) a b (λ k l u. h k (omega arith) (omega arith)),
      )
      refl

pub valid_count-all :
    (rounds i : ℕ) (inode : ℕ → Inode)
    → ((k : ℕ) → i ≤ k → k < i + rounds → is_valid_inode (inode k) ≡ true)
    → valid_count rounds i inode ≡ rounds
unfolding valid_count
valid_count-all zero i inode h = refl
valid_count-all (suc rounds) i inode h =
    rw
      (
        h i (omega arith) (omega arith),
        valid_count-all rounds (suc i) inode (λ k l u. h k (omega arith) (omega arith)),
      )
      (omega arith)

pub valid_count-one_more :
    (rounds i j : ℕ) (a b : ℕ → Inode)
    → i ≤ j
    → j < i + rounds
    → is_valid_inode (a j) ≡ false
    → is_valid_inode (b j) ≡ true
    → ((k : ℕ) → k ≢ j → is_valid_inode (a k) ≡ is_valid_inode (b k))
    → valid_count rounds i b ≡ suc (valid_count rounds i a)
unfolding valid_count
valid_count-one_more zero i j a b l u f t h = absurd (omega arith)
valid_count-one_more (suc rounds) i j a b l u f t h = elim (Bool-cases (i == j)) [
  | inl e ↦
      let e' : i ≡ j = ground arith in
      let rest : valid_count rounds (suc j) a ≡ valid_count rounds (suc j) b =
        valid_count-ext rounds (suc j) a b (λ k p q. h k (λ z. absurd (omega arith))) in
      rw (e', f, t, rest) (omega arith)
  | inr ne ↦
      let here : i ≢ j = ground arith in
      rw (h i here, valid_count-one_more rounds (suc i) j a b (omega arith) (omega arith) f t h)
        (omega arith)
]

-- Names in use are distinct, the count of files is the number of inodes in use, and every inode
-- has pages of its own.
pub record TableInOrder (sb : SuperBlock) : Type 0 where
  pub unique :
      (i j : ℕ)
      → i < num_inodes
      → j < num_inodes
      → is_valid_inode (sb.inode i) ≡ true
      → Named (sb.inode i).filename (sb.inode j)
      → i ≡ j
  pub count : sb.num_files ≡ valid_count num_inodes 0 sb.inode
  pub files : (i : ℕ) → i < num_inodes → FileInOrder (sb.inode i)
  pub apart :
      (i j : ℕ)
      → i < num_inodes
      → j < num_inodes
      → i ≢ j
      → ((sb.inode i).e_pos ≤ (sb.inode j).s_pos) ⊎ ((sb.inode j).e_pos ≤ (sb.inode i).s_pos)

module _ (c : Strings) (sb : SuperBlock) (name : List ℕ) where
  -- How a lookup ends.
  pub data Lookup : Option ℕ → Type 0 where
    found : (i : ℕ) → i < num_inodes → Named name (sb.inode i) → Lookup (some i)
    missing : ((k : ℕ) → k < num_inodes → has_name c name (sb.inode k) ≡ false) → Lookup none

  First-Lookup :
      (o : Option ℕ) → First (λ k. has_name c name (sb.inode k)) 0 num_inodes o → Lookup o
  First-Lookup o (hit j l u e h) = found j (omega arith) (has_name-Named c name (sb.inode j) e)
  First-Lookup o (miss h) = missing (λ k l. h k (omega arith) (omega arith))

  -- flat_lookup_inode gives an inode in use that has the name, or nothing if no inode in use
  -- has it.
  pub flat_lookup_inode-Lookup : Lookup (flat_lookup_inode c sb name)
  unfolding flat_lookup_inode
  flat_lookup_inode-Lookup = First-Lookup _ (lookup_loop-First c num_inodes 0 name sb.inode)

  Lookup-some :
      TableInOrder sb
      → (i : ℕ) → i < num_inodes
      → Named name (sb.inode i)
      → (o : Option ℕ) → Lookup o
      → o ≡ some i
  Lookup-some t i l h o (found j u g) =
      ap some
        (sym (t.unique i j l u h.valid (record { valid = g.valid; same = g.same ∙ sym h.same })))
  Lookup-some t i l h o (missing m) =
      let hit : has_name c name (sb.inode i) ≡ true = Named-has_name c name (sb.inode i) h in
      let none_named : has_name c name (sb.inode i) ≡ false = m i l in absurd (cc)

  -- Where the table is in order, an inode in use is what its name finds.
  pub flat_lookup_inode-some :
      (i : ℕ)
      → TableInOrder sb
      → i < num_inodes
      → Named name (sb.inode i)
      → flat_lookup_inode c sb name ≡ some i
  flat_lookup_inode-some i t l h = Lookup-some t i l h _ flat_lookup_inode-Lookup

  Lookup-none : Lookup none → (k : ℕ) → k < num_inodes → has_name c name (sb.inode k) ≡ false
  Lookup-none (missing h) = h

  pub flat_lookup_inode-none :
      flat_lookup_inode c sb name ≡ none
      → (k : ℕ) → k < num_inodes
      → has_name c name (sb.inode k) ≡ false
  flat_lookup_inode-none e = Lookup-none (rw e at flat_lookup_inode-Lookup)

  pub flat_get_inode_no-some :
      (i : ℕ) → flat_lookup_inode c sb name ≡ some i → flat_get_inode_no c sb name ≡ pos i
  unfolding flat_get_inode_no flat_lookup_inode
  flat_get_inode_no-some i e =
      let loop : lookup_loop c num_inodes 0 name sb.inode ≡ some i = e in
      rw (flat_get_inode_no, loop) refl

  pub flat_get_inode_no-none :
      flat_lookup_inode c sb name ≡ none → flat_get_inode_no c sb name ≡ minus_one
  unfolding flat_get_inode_no flat_lookup_inode
  flat_get_inode_no-none e =
      let loop : lookup_loop c num_inodes 0 name sb.inode ≡ none = e in
      rw (flat_get_inode_no, loop) refl
