-- ===== src/FileSystem/Inodes.antt =====
-- The table of inodes of Assignment2/fs.c: set-up, lookup, creation and removal.
pub mod Lookup
pub mod Table
pub mod Init
pub mod Create
pub mod Remove
use cs330_assignments.Base.{
  ℕ, zero, suc, ◌+◌, ◌%◌, ◌^◌, Bool, true, false, not, ◌&&◌, Option, none, some, List, [], ℤ, pos,
  negsuc, minus_one, ltb, ◌==◌, if◌then◌else◌, update, dec32, length,
}
use cs330_assignments.FileSystem.State.{
  Inode, SuperBlock, set_inode, num_inodes, file_capacity, name_length, regular, Strings,
}

-- An inode as `alloc_inodes` sets it, for the pages at an address.
abbrev pub allocated : ℕ → ℕ → Inode → Inode
allocated page i n = record n {
  is_valid = 0;
  filename = [];
  mode = 0;
  kind = regular;
  inode_no = i;
  ref_count = 0;
  s_pos = page % 2 ^ 32;
  e_pos = (page + file_capacity) % 2 ^ 32;
  max_pos = page % 2 ^ 32;
  file_size = 0;
}

-- The loop of `alloc_inodes`, with `rounds` inodes left from `i` on: `page` is the address of the
-- pages that `get_contigous_pages` hands out for an inode.
unfoldable pub alloc_loop : ℕ → ℕ → (ℕ → ℕ) → (ℕ → Inode) → ℕ → Inode
alloc_loop zero i page inode = inode
alloc_loop (suc rounds) i page inode =
    alloc_loop rounds (suc i) page (update inode i (allocated (page i) i (inode i)))

unfoldable pub init_file_system : (ℕ → ℕ) → SuperBlock → SuperBlock
init_file_system page sb = record sb {
  num_files = 0;
  inode = alloc_loop num_inodes 0 page sb.inode;
}

abbrev pub is_valid_inode : Inode → Bool
is_valid_inode n = not (n.is_valid == 0)

-- The first inode that is not valid, with `rounds` inodes left from `i` on.
unfoldable pub free_inode_loop : ℕ → ℕ → (ℕ → Inode) → Option ℕ
free_inode_loop zero i inode = none
free_inode_loop (suc rounds) i inode =
    let rest = free_inode_loop rounds (suc i) inode in
    if not (is_valid_inode (inode i)) then some i else rest

abbrev pub is_zero : ℤ → Bool
is_zero (pos n) = n == 0
is_zero (negsuc n) = false

-- The new inode at an index.
abbrev pub created : List ℕ → ℕ → Inode → Inode
created name mode n = record n {
  is_valid = 1;
  mode = mode;
  filename = name;
  max_pos = n.s_pos;
  file_size = 0;
  ref_count = 0;
}

module _ (c : Strings) where
  -- The first valid inode with a name, with `rounds` inodes left from `i` on.
  unfoldable pub lookup_loop : ℕ → ℕ → List ℕ → (ℕ → Inode) → Option ℕ
  lookup_loop zero i name inode = none
  lookup_loop (suc rounds) i name inode =
      let rest = lookup_loop rounds (suc i) name inode in
      if is_valid_inode (inode i) && is_zero (c.strcmp (inode i).filename name)
      then some i
      else rest

  -- The index of the inode; `none` is the null pointer.
  unfoldable pub flat_lookup_inode : SuperBlock → List ℕ → Option ℕ
  flat_lookup_inode sb name = lookup_loop num_inodes 0 name sb.inode

  unfoldable pub flat_get_inode_no : SuperBlock → List ℕ → ℤ
  flat_get_inode_no sb name = elim (lookup_loop num_inodes 0 name sb.inode) [
    | none ↦ minus_one
    | some i ↦ pos i
  ]

  -- `none` where the name does not fit into its array.
  unfoldable pub flat_create_inode : SuperBlock → List ℕ → ℕ → Option (ℤ × SuperBlock)
  flat_create_inode sb name mode = elim (flat_lookup_inode sb name) [
    | some _ ↦ some (minus_one, sb)
    | none ↦ elim (free_inode_loop num_inodes 0 sb.inode) [
      | none ↦ some (minus_one, sb)
      | some i ↦
          if ltb (length name) name_length
          then some (
            pos i,
            record (set_inode sb i (created name (mode % 2 ^ 32) (sb.inode i))) {
              num_files = (sb.num_files + 1) % 2 ^ 32;
            },
          )
          else none
    ]
  ]

-- The inode is given by its index; the guard of the source is passed by every inode that is not
-- null.
unfoldable pub flat_remove_inode : SuperBlock → ℕ → ℤ × SuperBlock
flat_remove_inode sb i =
    let n = sb.inode i in
    (
      pos 0,
      record (set_inode sb i
          (record n { is_valid = 0; filename = []; max_pos = n.s_pos; file_size = 0; mode = 0 })) {
            num_files = dec32 sb.num_files;
          },
    )

unfoldable pub flat_get_num_files : SuperBlock → ℕ
flat_get_num_files sb = sb.num_files

-- `flat_open` and `flat_close`.
unfoldable pub flat_open : Inode → ℤ × Inode
flat_open n = (pos 0, record n { ref_count = (n.ref_count + 1) % 2 ^ 32 })

unfoldable pub flat_close : Inode → ℤ × Inode
flat_close n = (pos 0, record n { ref_count = dec32 n.ref_count })
