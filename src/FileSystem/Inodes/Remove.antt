-- ===== src/FileSystem/Inodes/Remove.antt =====
-- `flat_remove_inode` of Assignment2/fs.c.
use cs330_assignments.Base.{
  minus_one, ℕ, suc, ◌<◌, ◌≡◌, ◌≢◌, inl, inr, refl, sym, ap, ◌∙◌, arith, true, false, Option, none,
  List, ◌==◌, Bool-cases, update, ℤ, pos, [],
}
use cs330_assignments.FileSystem.State.{Inode, SuperBlock, Strings, num_inodes}
use cs330_assignments.FileSystem.Inodes.{
  is_valid_inode, flat_lookup_inode, flat_remove_inode, flat_get_inode_no,
}
use cs330_assignments.FileSystem.Inodes.Lookup.{Named, has_name, has_name-Named, lookup_loop-ext}
use cs330_assignments.FileSystem.Inodes.Table.{
  valid_count, valid_count-bound, valid_count-one_more, TableInOrder, Lookup, found, missing,
  flat_lookup_inode-Lookup, flat_get_inode_no-none,
}
use cs330_assignments.FileSystem.Inodes.Create.{set_inode_files, set_inode_apart}

-- What the removal of the file at an index leaves behind.
pub record Removes (c : Strings) (sb : SuperBlock) (i : ℕ) (r : ℤ × SuperBlock) : Type 0 where
  pub result : r.0 ≡ pos 0
  pub order : TableInOrder r.1
  pub gone : flat_lookup_inode c r.1 (sb.inode i).filename ≡ none
  pub number : flat_get_inode_no c r.1 (sb.inode i).filename ≡ minus_one
  pub others :
      (other : List ℕ)
      → other ≢ (sb.inode i).filename
      → flat_lookup_inode c r.1 other ≡ flat_lookup_inode c sb other
  pub one_less : suc r.1.num_files ≡ sb.num_files
  pub kept : (k : ℕ) → k ≢ i → r.1.inode k ≡ sb.inode k

module _ (c : Strings) (sb : SuperBlock) (i : ℕ) (t : TableInOrder sb) (l : i < num_inodes)
    (used : is_valid_inode (sb.inode i) ≡ true) where
  old_inode : Inode
  old_inode = record (sb.inode i) {
    is_valid = 0;
    filename = [];
    max_pos = (sb.inode i).s_pos;
    file_size = 0;
    mode = 0;
  }

  -- The inodes in use afterwards are others, and are what they were.
  in_use :
      (j : ℕ)
      → is_valid_inode (update sb.inode i old_inode j) ≡ true
      → (i ≢ j) × (update sb.inode i old_inode j ≡ sb.inode j)
  unfolding old_inode
  in_use j h = elim (Bool-cases (i == j)) [
    | inl e ↦ let bad : false ≡ true = (rw e at h) in absurd (ground (arith, bad))
    | inr f ↦ (ground arith, rw f refl)
  ]

  Removes-unique :
      (j k : ℕ)
      → j < num_inodes
      → k < num_inodes
      → is_valid_inode (update sb.inode i old_inode j) ≡ true
      → Named (update sb.inode i old_inode j).filename (update sb.inode i old_inode k)
      → j ≡ k
  Removes-unique j k a b v h =
      let p = (in_use j v).1 in
      let q = (in_use k h.valid).1 in
      t.unique j k a b (rw p at v) (record { valid = rw q at h.valid; same = rw (p, q) at h.same })

  old_count :
      valid_count num_inodes 0 sb.inode
      ≡ suc (valid_count num_inodes 0 (update sb.inode i old_inode))
  unfolding old_inode
  old_count =
      valid_count-one_more num_inodes 0 i (update sb.inode i old_inode) sb.inode (omega arith)
        (omega arith) (ground arith) used (λ k ne. ground arith)

  Removes-order : TableInOrder (flat_remove_inode sb i).1
  unfolding flat_remove_inode old_inode
  Removes-order =
      let v = t.files i l in
      record {
        unique = Removes-unique;
        count = omega (arith, t.count, old_count, valid_count-bound num_inodes 0 sb.inode);
        files = set_inode_files sb t i _ refl refl (record {
          capacity = v.capacity;
          region = v.region;
          fits = omega (arith, v.capacity);
          size = omega arith;
        });
        apart = set_inode_apart sb t i _ refl refl;
      }

  other_name :
      (other : List ℕ)
      → other ≢ (sb.inode i).filename
      → (k : ℕ) → has_name c other (update sb.inode i old_inode k) ≡ has_name c other (sb.inode k)
  unfolding old_inode
  other_name other ne k = elim (Bool-cases (i == k)) [
    | inr f ↦ rw f refl
    | inl e ↦
        let e' : i ≡ k = ground arith in
        elim (Bool-cases (has_name c other (sb.inode k))) [
          | inl h ↦ absurd (
              ne (
                sym (has_name-Named c other (sb.inode k) h).same
                ∙ ap (λ x. (sb.inode x).filename) (sym e')))
          | inr f ↦ rw (e, f) refl
        ]
  ]

  gone_Lookup :
      (o : Option ℕ) → Lookup c (flat_remove_inode sb i).1 (sb.inode i).filename o → o ≡ none
  unfolding flat_remove_inode old_inode
  gone_Lookup o (missing m) = refl
  gone_Lookup o (found j a h) =
      let p = in_use j h.valid in
      absurd (
        p.0 (t.unique i j l a used (record { valid = rw p.1 at h.valid; same = rw p.1 at h.same })))

  -- For a table in order and an inode in use, flat_remove_inode returns 0; the table is then
  -- in order with one file less, the name of the file finds nothing, every other name finds
  -- what it found, and no other inode changes.
  pub flat_remove_inode-Removes : Removes c sb i (flat_remove_inode sb i)
  unfolding flat_remove_inode old_inode flat_lookup_inode
  flat_remove_inode-Removes =
      let gone =
        gone_Lookup _
          (flat_lookup_inode-Lookup c (flat_remove_inode sb i).1 (sb.inode i).filename) in
      record {
        result = refl;
        order = Removes-order;
        gone = gone;
        number = flat_get_inode_no-none c (flat_remove_inode sb i).1 _ gone;
        others = λ other ne.
            lookup_loop-ext c num_inodes 0 other _ sb.inode (λ k a b. other_name other ne k);
        one_less = omega (arith, t.count, old_count, valid_count-bound num_inodes 0 sb.inode);
        kept = λ k ne. ground arith;
      }
