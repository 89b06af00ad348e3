-- ===== src/FileSystem/Inodes/Create.antt =====
-- `flat_create_inode` of Assignment2/fs.c.
use cs330_assignments.Base.{
  ℕ, suc, ◌+◌, ◌%◌, ◌^◌, ◌≤◌, ◌<◌, ◌≡◌, ◌≢◌, ◌⊎◌, inl, inr, refl, sym, ap, ◌∙◌, arith, Bool, true,
  false, not, Option, none, some, List, ◌==◌, Bool-cases, Option-cases, update, ℤ, pos, minus_one,
  length, ltb,
}
use cs330_assignments.FileSystem.State.{
  Inode, SuperBlock, Strings, num_inodes, set_inode, name_length,
}
use cs330_assignments.FileSystem.Inodes.{
  is_valid_inode, flat_lookup_inode, flat_create_inode, flat_get_inode_no, free_inode_loop, created,
}
use cs330_assignments.FileSystem.Inodes.Lookup.{
  Named, has_name, has_name-Named, Named-has_name, lookup_loop-ext, free_inode_loop-First,
  First-some, First-none,
}
use cs330_assignments.FileSystem.Inodes.Table.{
  valid_count, valid_count-bound, valid_count-one_more, valid_count-all, flat_lookup_inode-none,
  TableInOrder, flat_lookup_inode-some, flat_get_inode_no-some,
}
use cs330_assignments.FileSystem.Bytes.File.{FileInOrder}

-- An inode with the same pages at one index leaves the pages in order.
module _ (sb : SuperBlock) (t : TableInOrder sb) (i : ℕ) (n : Inode)
    (s : n.s_pos ≡ (sb.inode i).s_pos) (e : n.e_pos ≡ (sb.inode i).e_pos) where
  set_inode_same :
      (k : ℕ)
      → ((update sb.inode i n k).s_pos ≡ (sb.inode k).s_pos)
        × ((update sb.inode i n k).e_pos ≡ (sb.inode k).e_pos)
  set_inode_same k = elim (Bool-cases (i == k)) [
    | inl h ↦
        let h' : i ≡ k = ground arith in
        rw h (s ∙ ap (λ x. (sb.inode x).s_pos) h', e ∙ ap (λ x. (sb.inode x).e_pos) h')
    | inr f ↦ rw f (refl, refl)
  ]

  pub set_inode_files :
      FileInOrder n → (k : ℕ) → k < num_inodes → FileInOrder (update sb.inode i n k)
  set_inode_files v k l = elim (Bool-cases (i == k)) [ inl h ↦ rw h v | inr f ↦ rw f (t.files k l) ]

  pub set_inode_apart :
      (j k : ℕ)
      → j < num_inodes
      → k < num_inodes
      → j ≢ k
      → ((update sb.inode i n j).e_pos ≤ (update sb.inode i n k).s_pos)
        ⊎ ((update sb.inode i n k).e_pos ≤ (update sb.inode i n j).s_pos)
  set_inode_apart j k a b ne =
      let p = set_inode_same j in
      let q = set_inode_same k in rw (p.0, p.1, q.0, q.1) (t.apart j k a b ne)

-- What a new file at an index leaves behind.
pub record Creates (c : Strings) (sb : SuperBlock) (name : List ℕ) (i : ℕ) (sb' : SuperBlock)
    : Type 0 where
  pub order : TableInOrder sb'
  pub finds : flat_lookup_inode c sb' name ≡ some i
  pub number : flat_get_inode_no c sb' name ≡ pos i
  pub others :
      (other : List ℕ) → other ≢ name → flat_lookup_inode c sb' other ≡ flat_lookup_inode c sb other
  pub one_more : sb'.num_files ≡ suc sb.num_files
  pub empty : (sb'.inode i).file_size ≡ 0
  pub kept : (k : ℕ) → k ≢ i → sb'.inode k ≡ sb.inode k

-- How the call ends.
pub data Creation (c : Strings) (sb : SuperBlock) (name : List ℕ)
    : Option (ℤ × SuperBlock) → Type 0 where
  exists :
      (i : ℕ) → flat_lookup_inode c sb name ≡ some i → Creation c sb name (some (minus_one, sb))
  full :
      flat_lookup_inode c sb name ≡ none
      → sb.num_files ≡ num_inodes
      → Creation c sb name (some (minus_one, sb))
  too_long :
      flat_lookup_inode c sb name ≡ none → name_length ≤ length name → Creation c sb name none
  made :
      {sb' : SuperBlock} (i : ℕ)
      → i < num_inodes
      → is_valid_inode (sb.inode i) ≡ false
      → length name < name_length
      → Creates c sb name i sb'
      → Creation c sb name (some (pos i, sb'))

abbrev with_file : SuperBlock → List ℕ → ℕ → ℕ → SuperBlock
with_file sb name mode i = record (set_inode sb i (created name (mode % 2 ^ 32) (sb.inode i))) {
  num_files = (sb.num_files + 1) % 2 ^ 32;
}

module _ (c : Strings) (sb : SuperBlock) (name : List ℕ) (mode i : ℕ) (t : TableInOrder sb)
    (l : i < num_inodes) (free : is_valid_inode (sb.inode i) ≡ false)
    (new : (k : ℕ) → k < num_inodes → has_name c name (sb.inode k) ≡ false) where
  new_inode : Inode
  new_inode = created name (mode % 2 ^ 32) (sb.inode i)

  absent : (k : ℕ) → k < num_inodes → Named name (sb.inode k) → ⊥
  absent k a h =
      let p : has_name c name (sb.inode k) ≡ true = Named-has_name c name (sb.inode k) h in
      let q : has_name c name (sb.inode k) ≡ false = new k a in absurd cc

  Creates-unique :
      (j k : ℕ)
      → j < num_inodes
      → k < num_inodes
      → is_valid_inode (update sb.inode i new_inode j) ≡ true
      → Named (update sb.inode i new_inode j).filename (update sb.inode i new_inode k)
      → j ≡ k
  unfolding new_inode
  Creates-unique j k a b v h = elim (Bool-cases (i == j)) [
    | inl x ↦ elim (Bool-cases (i == k)) [
      | inl y ↦ ground arith
      | inr y ↦
          absurd
            (absent k b (record { valid = rw y at h.valid; same = (rw y at h.same) ∙ (rw x refl) }))
    ]
    | inr x ↦ elim (Bool-cases (i == k)) [
      | inl y ↦
          absurd (absent j a (record { valid = rw x at v; same = sym ((rw (x, y) at h.same)) }))
      | inr y ↦
          t.unique j k a b (rw x at v)
            (record { valid = rw y at h.valid; same = rw (x, y) at h.same })
    ]
  ]

  with_file-order : TableInOrder (with_file sb name mode i)
  unfolding new_inode
  with_file-order =
      let v = t.files i l in
      let more : valid_count num_inodes 0 (update sb.inode i new_inode)
          ≡ suc (valid_count num_inodes 0 sb.inode) =
        valid_count-one_more num_inodes 0 i sb.inode (update sb.inode i new_inode) (omega arith)
          (omega arith) free (ground arith) (λ k ne. ground arith) in
      record {
        unique = Creates-unique;
        count = omega (arith, t.count, more, valid_count-bound num_inodes 0 sb.inode);
        files = set_inode_files sb t i _ refl refl (record {
          capacity = v.capacity;
          region = v.region;
          fits = omega (arith, v.capacity);
          size = omega arith;
        });
        apart = set_inode_apart sb t i _ refl refl;
      }

  other_name :
      (other : List ℕ)
      → other ≢ name
      → (k : ℕ) → has_name c other (update sb.inode i new_inode k) ≡ has_name c other (sb.inode k)
  unfolding new_inode
  other_name other ne k = elim (Bool-cases (i == k)) [
    | inr f ↦ rw f refl
    | inl e ↦
        let e' : i ≡ k = ground arith in
        let old : has_name c other (sb.inode k) ≡ false = rw (← e') (rw free refl) in
        elim (Bool-cases (has_name c other new_inode)) [
          | inl t ↦ absurd (ne (sym (has_name-Named c other new_inode t).same))
          | inr f ↦ rw (e, old) f
        ]
  ]

  with_file-Creates : Creates c sb name i (with_file sb name mode i)
  unfolding new_inode flat_lookup_inode
  with_file-Creates =
      let here : Named name (update sb.inode i new_inode i) = record {
        valid = ground arith;
        same = ground arith;
      } in
      let finds =
        flat_lookup_inode-some c (with_file sb name mode i) name i with_file-order l here in
      record {
        order = with_file-order;
        finds = finds;
        number = flat_get_inode_no-some c (with_file sb name mode i) name i finds;
        others = λ other ne.
            lookup_loop-ext c num_inodes 0 other _ sb.inode (λ k a b. other_name other ne k);
        one_more = omega (arith, t.count, valid_count-bound num_inodes 0 sb.inode);
        empty = ground arith;
        kept = λ k ne. ground arith;
      }

module _ (c : Strings) (sb : SuperBlock) (name : List ℕ) (mode : ℕ) (t : TableInOrder sb) where
  pub flat_create_inode-Creation : Creation c sb name (flat_create_inode c sb name mode)
  unfolding flat_create_inode
  flat_create_inode-Creation = elim (Option-cases (flat_lookup_inode c sb name)) [
    | inr (i, e) ↦ rw (flat_create_inode, e) (exists i e)
    | inl e ↦
        let loop = free_inode_loop-First num_inodes 0 sb.inode in
        let p : ℕ → Bool = λ k. not (is_valid_inode (sb.inode k)) in
        elim (Option-cases (free_inode_loop num_inodes 0 sb.inode)) [
          | inl f ↦
              let none_free = First-none p 0 num_inodes (rw f at loop) in
              let all : valid_count num_inodes 0 sb.inode ≡ num_inodes =
                valid_count-all num_inodes 0 sb.inode (λ k a b. ground (arith, none_free k a b)) in
              rw (flat_create_inode, e, f) (full e (omega (arith, t.count, all)))
          | inr (i, f) ↦
              let free = First-some p 0 num_inodes i (rw f at loop) in
              let l : i < num_inodes = omega (arith, free.1) in
              let unused : is_valid_inode (sb.inode i) ≡ false = ground (arith, free.2) in
              elim (Bool-cases (ltb (length name) name_length)) [
                | inl room ↦
                    rw (flat_create_inode, e, f, room)
                      (made i l unused (ground arith) (
                        with_file-Creates c sb name mode i t l unused
                          (flat_lookup_inode-none c sb name e)))
                | inr long ↦ rw (flat_create_inode, e, f, long) (too_long e (ground arith))
              ]
        ]
  ]
