-- ===== src/OpenFiles/Opening/Files.antt =====
-- `do_regular_file_open` of Assignment2/file.c on a table of inodes in order.
use cs330_assignments.Base.{ℕ, ◌≤◌, ◌≡◌, Option, none, some, List, ℤ, bit_and, length}
use cs330_assignments.FileSystem.State.{SuperBlock, Strings, num_inodes, name_length}
use cs330_assignments.FileSystem.Inodes.{flat_lookup_inode}
use cs330_assignments.FileSystem.Inodes.Create.{Creates}
use cs330_assignments.OpenFiles.State.{Store, einval}
use cs330_assignments.OpenFiles.Opening.{enomem, o_rdwr, o_creat}
use cs330_assignments.OpenFiles.Opening.Outcome.{Opens}

-- How the call ends.
pub data Opening (c : Strings) (name : List ℕ) (flags page : ℕ) (files elsewhere : ℕ → ℕ)
    (s : Store) (sb : SuperBlock) : Option ((ℤ × (ℕ → ℕ) × Store) × SuperBlock) → Type 0 where
  not_readable :
      bit_and flags o_rdwr ≡ 0
      → Opening c name flags page files elsewhere s sb (some ((einval, files, s), sb))
  absent :
      flat_lookup_inode c sb name ≡ none
      → bit_and flags o_creat ≡ 0
      → Opening c name flags page files elsewhere s sb (some ((einval, files, s), sb))
  no_inode :
      flat_lookup_inode c sb name ≡ none
      → sb.num_files ≡ num_inodes
      → Opening c name flags page files elsewhere s sb (some ((enomem, files, s), sb))
  long_name :
      flat_lookup_inode c sb name ≡ none
      → name_length ≤ length name
      → Opening c name flags page files elsewhere s sb none
  existing :
      {r : ℤ × (ℕ → ℕ) × Store} (i : ℕ)
      → flat_lookup_inode c sb name ≡ some i
      → Opens i flags page files elsewhere r
      → Opening c name flags page files elsewhere s sb (some (r, sb))
  new_file :
      {r : ℤ × (ℕ → ℕ) × Store} {sb' : SuperBlock} (i : ℕ)
      → Creates c sb name i sb'
      → Opens i flags page files elsewhere r
      → Opening c name flags page files elsewhere s sb (some (r, sb'))
