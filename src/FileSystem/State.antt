-- ===== src/FileSystem/State.antt =====
-- The structures of Assignment2/include/fs.h.
use cs330_assignments.Base.{ℕ, ◌-◌, ◌%◌, ◌^◌, ◌≡◌, ◌↔◌, List, ℤ, pos, negsuc, update}

abbrev pub num_inodes : ℕ
num_inodes = 32

-- `FILE_SIZE`.
abbrev pub file_capacity : ℕ
file_capacity = 0x1000

-- The length of the array that holds a file's name.
abbrev pub name_length : ℕ
name_length = 256

-- `REGULAR` of Assignment2/include/file.h.
abbrev pub regular : ℕ
regular = 3

-- A name is its characters up to the null. The operations of an inode are those of
-- Assignment2/fs.c, and its super block is the one that holds it.
pub record Inode : Type 0 where
  pub is_valid : ℕ
  pub filename : List ℕ
  pub mode : ℕ
  pub kind : ℕ
  pub inode_no : ℕ
  pub ref_count : ℕ
  pub s_pos : ℕ
  pub e_pos : ℕ
  pub max_pos : ℕ
  pub file_size : ℕ

pub record SuperBlock : Type 0 where
  pub num_files : ℕ
  pub inode : ℕ → Inode

-- `sb->inode[i] = n`.
abbrev pub set_inode : SuperBlock → ℕ → Inode → SuperBlock
set_inode sb i n = record sb { inode = update sb.inode i n }

-- `strcmp`, which is not in the repository.
pub record Strings : Type 0 where
  pub strcmp : List ℕ → List ℕ → ℤ
  pub strcmp_iff : (s t : List ℕ) → (strcmp s t ≡ pos 0) ↔ (s ≡ t)

-- An integer as the `u64` that it converts to.
abbrev pub to_u64 : ℤ → ℕ
to_u64 (pos n) = n % 2 ^ 64
to_u64 (negsuc n) = 2 ^ 64 - 1 - n % 2 ^ 64
