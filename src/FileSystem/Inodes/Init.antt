-- ===== src/FileSystem/Inodes/Init.antt =====
-- `init_file_system` of Assignment2/fs.c.
use cs330_assignments.Base.{
  ℕ, zero, suc, ◌+◌, ◌%◌, ◌^◌, ◌≤◌, ◌<◌, ◌≡◌, ◌≢◌, ◌⊎◌, inl, inr, refl, sym, ◌∙◌, arith, false,
  Option, none, List, ◌==◌, Bool-cases, update,
}
use cs330_assignments.FileSystem.State.{
  Inode, SuperBlock, Strings, num_inodes, file_capacity, regular,
}
use cs330_assignments.FileSystem.Inodes.{
  allocated, is_valid_inode, flat_lookup_inode, alloc_loop, init_file_system,
}
use cs330_assignments.FileSystem.Inodes.Table.{
  valid_count, TableInOrder, Lookup, found, missing, flat_lookup_inode-Lookup,
}
use cs330_assignments.FileSystem.Bytes.File.{FileInOrder}

-- The pages handed out for the inodes lie below the end of the region and do not overlap.
pub record Pages (page : ℕ → ℕ) : Type 0 where
  pub region : (i : ℕ) → i < num_inodes → page i + file_capacity < 2 ^ 31
  pub apart :
      (i j : ℕ)
      → i < num_inodes
      → j < num_inodes
      → i ≢ j
      → (page i + file_capacity ≤ page j) ⊎ (page j + file_capacity ≤ page i)

-- An unused inode with an empty file on its pages.
pub record Unused (page i : ℕ) (n : Inode) : Type 0 where
  pub free : is_valid_inode n ≡ false
  pub start : n.s_pos ≡ page % 2 ^ 32
  pub end : n.e_pos ≡ (page + file_capacity) % 2 ^ 32
  pub top : n.max_pos ≡ n.s_pos
  pub empty : n.file_size ≡ 0
  pub number : n.inode_no ≡ i
  pub unreferenced : n.ref_count ≡ 0
  pub type : n.kind ≡ regular

alloc_loop-below :
    (rounds i k : ℕ) (page : ℕ → ℕ) (inode : ℕ → Inode)
    → k < i
    → alloc_loop rounds i page inode k ≡ inode k
unfolding alloc_loop
alloc_loop-below zero i k page inode h = refl
alloc_loop-below (suc rounds) i k page inode h =
    alloc_loop-below rounds (suc i) k page _ (omega arith) ∙ ground arith

alloc_loop-Unused :
    (rounds i k : ℕ) (page : ℕ → ℕ) (inode : ℕ → Inode)
    → i ≤ k
    → k < i + rounds
    → Unused (page k) k (alloc_loop rounds i page inode k)
unfolding alloc_loop
alloc_loop-Unused zero i k page inode l u = absurd (omega arith)
alloc_loop-Unused (suc rounds) i k page inode l u = elim (Bool-cases (i == k)) [
  | inr f ↦
      let ne : i < k = ground arith in
      alloc_loop-Unused rounds (suc i) k page _ (omega arith) (omega arith)
  | inl e ↦
      let e' : i ≡ k = ground arith in
      rw (← e') (
        rw
          (alloc_loop-below rounds (suc i) i page (update inode i (allocated (page i) i (inode i)))
            (omega arith))
          (record {
            free = ground arith;
            start = ground arith;
            end = ground arith;
            top = ground arith;
            empty = ground arith;
            number = ground arith;
            unreferenced = ground arith;
            type = ground arith;
          }))
]

valid_count-none :
    (rounds i : ℕ) (inode : ℕ → Inode)
    → ((k : ℕ) → i ≤ k → k < i + rounds → is_valid_inode (inode k) ≡ false)
    → valid_count rounds i inode ≡ 0
unfolding valid_count
valid_count-none zero i inode h = refl
valid_count-none (suc rounds) i inode h =
    rw
      (
        h i (omega arith) (omega arith),
        valid_count-none rounds (suc i) inode (λ k l u. h k (omega arith) (omega arith)),
      )
      refl

Unused-FileInOrder :
    (page i : ℕ) (n : Inode) → page + file_capacity < 2 ^ 31 → Unused page i n → FileInOrder n
Unused-FileInOrder page i n h u = record {
  capacity = omega (arith, u.start, u.end);
  region = omega (arith, u.end);
  fits = omega (arith, u.start, u.end, u.top);
  size = omega (arith, u.top, u.empty);
}

-- The table after set-up: in order, with no file in it.
pub record SetUp (c : Strings) (page : ℕ → ℕ) (sb : SuperBlock) : Type 0 where
  pub order : TableInOrder sb
  pub no_files : sb.num_files ≡ 0
  pub nothing : (name : List ℕ) → flat_lookup_inode c sb name ≡ none
  pub unused : (i : ℕ) → i < num_inodes → Unused (page i) i (sb.inode i)

module _ (c : Strings) (page : ℕ → ℕ) (pages : Pages page) (sb : SuperBlock)
    (no_files : sb.num_files ≡ 0)
    (unused : (i : ℕ) → i < num_inodes → Unused (page i) i (sb.inode i)) where
  Unused-apart :
      (i j : ℕ)
      → i < num_inodes
      → j < num_inodes
      → i ≢ j
      → ((sb.inode i).e_pos ≤ (sb.inode j).s_pos) ⊎ ((sb.inode j).e_pos ≤ (sb.inode i).s_pos)
  Unused-apart i j a b ne =
      let u = unused i a in
      let w = unused j b in
      ground (
        arith,
        u.start,
        u.end,
        w.start,
        w.end,
        pages.region i a,
        pages.region j b,
        pages.apart i j a b ne,
      )

  Unused-nothing : (name : List ℕ) (o : Option ℕ) → Lookup c sb name o → o ≡ none
  Unused-nothing name o (missing m) = refl
  Unused-nothing name o (found i l h) =
      let free = (unused i l).free in let used = h.valid in absurd (ground (arith, free, used))

  Unused-SetUp : SetUp c page sb
  Unused-SetUp = record {
    order = record {
      unique = λ i j a b v h. let free = (unused i a).free in absurd (ground (arith, free, v));
      count =
          no_files
          ∙ sym (valid_count-none num_inodes 0 sb.inode (λ k a b. (unused k (omega arith)).free));
      files = λ i l. Unused-FileInOrder (page i) i (sb.inode i) (pages.region i l) (unused i l);
      apart = Unused-apart;
    };
    no_files = no_files;
    nothing = λ name. Unused-nothing name _ (flat_lookup_inode-Lookup c sb name);
    unused = unused;
  }

-- Where the pages that it gets lie below END and do not overlap, init_file_system leaves a table
-- in order with no file, in which no name finds anything and every inode is unused, empty and on
-- its own pages.
pub init_file_system-SetUp :
    (c : Strings) (page : ℕ → ℕ) (sb : SuperBlock)
    → Pages page
    → SetUp c page (init_file_system page sb)
unfolding init_file_system
init_file_system-SetUp c page sb pages =
    Unused-SetUp c page pages _ refl
      (λ i l. alloc_loop-Unused num_inodes 0 i page sb.inode (omega arith) (omega arith))
