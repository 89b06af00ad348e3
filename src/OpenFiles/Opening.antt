-- ===== src/OpenFiles/Opening.antt =====
-- `do_regular_file_open` of Assignment2/file.c, with `create_inode` of Assignment2/fs.c. `page` is
-- the address that `os_page_alloc` hands out; `none` is a name that leaves its array.
pub mod Outcome
pub mod Files
use cs330_assignments.Base.{
  ℕ, zero, suc, ◌+◌, ◌%◌, ◌^◌, Bool, true, false, Option, none, some, List, ℤ, pos, negsuc, ltb_ℤ,
  ◌==◌, if◌then◌else◌, update, bit_and, bit_xor,
}
use cs330_assignments.FileSystem.State.{Inode, SuperBlock, Strings, regular}
use cs330_assignments.FileSystem.Inodes.{flat_lookup_inode, flat_create_inode}
use cs330_assignments.OpenFiles.State.{
  File, FileOps, on_inode, no_ops, Store, einval, max_open_files,
}

-- -ENOMEM
abbrev pub enomem : ℤ
enomem = negsuc 4

abbrev pub o_rdwr : ℕ
o_rdwr = 3

abbrev pub o_creat : ℕ
o_creat = 8

-- The handlers of a regular file.
abbrev pub regular_ops : FileOps
regular_ops = record { read = on_inode; write = on_inode; lseek = on_inode; close = on_inode }

unfoldable pub alloc_file : ℕ → Store → Store
alloc_file page s = record s {
  object = update s.object page (record (s.object page) { fops = no_ops; ref_count = 1; offp = 0 });
  live = update s.live page true;
  file_objects = (s.file_objects + 1) % 2 ^ 64;
}

-- The first free descriptor, with `rounds` descriptors left from `fd` on.
unfoldable pub fd_loop : ℕ → ℕ → (ℕ → ℕ) → Option ℕ
fd_loop zero fd files = none
fd_loop (suc rounds) fd files =
    let rest = fd_loop rounds (suc fd) files in if files fd == 0 then some fd else rest

-- The object that the call sets up for an inode.
abbrev pub set_file : ℕ → ℕ → ℕ → Store → Store
set_file page i flags s =
    let s' = alloc_file page s in
    record s' {
      object = update s'.object page (record (s'.object page) {
        inode = some i;
        mode = flags % 2 ^ 32;
        fops = regular_ops;
        kind = regular;
      });
    }

-- The end of the call, for the inode at an index. The check of the permissions masks the mode with
-- `flags != flags`, which is 0, and passes.
unfoldable pub open_inode : ℕ → ℕ → ℕ → (ℕ → ℕ) → Store → ℤ × (ℕ → ℕ) × Store
open_inode i flags page files s =
    let s' = set_file page i (bit_xor flags o_creat) s in
    elim (fd_loop 13 3 files) [
      | none ↦ (enomem, files, s')
      | some fd ↦ (pos fd, update files fd page, s')
    ]

module _ (c : Strings) where
  -- The index of the new inode, or `none` for the null pointer.
  unfoldable pub create_inode : SuperBlock → List ℕ → ℕ → Option (Option ℕ × SuperBlock)
  create_inode sb name mode = elim (flat_create_inode c sb name (mode % 2 ^ 32)) [
    | none ↦ none
    | some (negsuc n, sb') ↦ some (none, sb')
    | some (pos i, sb') ↦ some (some i, sb')
  ]

  -- The result, the table, the objects and the super block.
  unfoldable pub do_regular_file_open :
      List ℕ
      → ℕ
      → ℕ
      → ℕ
      → (ℕ → ℕ)
      → Store
      → SuperBlock
      → Option ((ℤ × (ℕ → ℕ) × Store) × SuperBlock)
  do_regular_file_open name flags mode page files s sb =
      if bit_and flags o_rdwr == 0
      then some ((einval, files, s), sb)
      else elim (flat_lookup_inode c sb name) [
        | some i ↦ some (open_inode i flags page files s, sb)
        | none ↦
            if bit_and flags o_creat == 0
            then some ((einval, files, s), sb)
            else elim (create_inode sb name mode) [
              | none ↦ none
              | some (none, sb') ↦ some ((enomem, files, s), sb')
              | some (some i, sb') ↦ some (open_inode i flags page files s, sb')
            ]
      ]
