-- ===== src/FileSystem/Pages/Layout.antt =====
-- Where the inodes lie (`init_file_inode` of Assignment2/fs.c).
use cs330_assignments.Base.{ℕ, suc, ◌+◌, ◌*◌, ◌%◌, ◌≤◌, ◌<◌, ◌≡◌, ◌↔◌}
use cs330_assignments.FileSystem.State.{num_inodes}
use cs330_assignments.FileSystem.Pages.{page_size, inode_size, Region}

-- What the allocation of the inodes gives, for the `n`-th frame as the first one.
pub record Layout (os_pfn_alloc : ℕ → ℕ) (n : ℕ) (r : (ℕ → ℕ) × Region) : Type 0 where
  pub taken : r.1.taken ≡ n + 5
  pub errors :
      (r.1.errors ≡ 0) ↔ ((k : ℕ) → k < 4 → os_pfn_alloc (suc n + k) ≡ os_pfn_alloc n + 1 + k)
  pub lower : (i : ℕ) → i < num_inodes → os_pfn_alloc n * page_size ≤ r.0 i
  pub upper : (i : ℕ) → i < num_inodes → r.0 i + inode_size ≤ (os_pfn_alloc n + 5) * page_size
  pub apart : (i j : ℕ) → i < j → j < num_inodes → r.0 i + inode_size ≤ r.0 j
  pub aligned : (i : ℕ) → i < num_inodes → r.0 i % 8 ≡ 0
