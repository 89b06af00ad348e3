-- ===== src/FileSystem/Pages.antt =====
-- The pages of the file system (get_contigous_pages, init_file_inode and the allocations of
-- alloc_inodes in Assignment2/fs.c). `os_pfn_alloc` has the frames that the kernel hands out in a
-- region, one after the other, and `bzero` is the function of Assignment2/include/lib.h.
pub mod Layout
pub mod Files
use cs330_assignments.Base.{
  ℕ, zero, suc, ◌+◌, ◌-◌, ◌*◌, ◌/◌, ◌%◌, ◌^◌, ◌==◌, if◌then◌else◌, Memory, update,
}
use cs330_assignments.FileSystem.State.{SuperBlock, num_inodes, file_capacity}
use cs330_assignments.FileSystem.Inodes.{init_file_system}

-- `PAGE_SIZE` of Assignment2/include/memory.h.
abbrev pub page_size : ℕ
page_size = 4096

-- `sizeof(struct inode)`: 4 + 256 + 4 * 4 + 4 * 4 bytes, filled up to 296, and five pointers.
abbrev pub inode_size : ℕ
inode_size = 336

-- The address of the first page, the frames that have been handed out so far, how many errors are
-- printed, and the memory.
pub record Region : Type 0 where
  pub first_page : ℕ
  pub taken : ℕ
  pub errors : ℕ
  pub mem : Memory

-- The errors that are printed for `rounds` frames from the `n`-th on.
unfoldable pub contiguous_loop : (ℕ → ℕ) → ℕ → ℕ → ℕ → ℕ
contiguous_loop os_pfn_alloc zero n prevpfn = 0
contiguous_loop os_pfn_alloc (suc rounds) n prevpfn =
    (if os_pfn_alloc n == (prevpfn + 1) % 2 ^ 32 then 0 else 1)
    + contiguous_loop os_pfn_alloc rounds (suc n) (os_pfn_alloc n)

-- The addresses of the inodes from `index` on.
unfoldable pub inode_loop : ℕ → ℕ → ℕ → (ℕ → ℕ) → ℕ → ℕ
inode_loop zero index inode_pfn inode = inode
inode_loop (suc rounds) index inode_pfn inode =
    inode_loop rounds (suc index) ((inode_pfn + inode_size) % 2 ^ 64) (update inode index inode_pfn)

abbrev pub total_inode_page : ℕ
total_inode_page = inode_size * num_inodes / page_size + 3

abbrev pub num_pages : ℕ
num_pages = file_capacity / page_size

module _ (os_pfn_alloc : ℕ → ℕ) (bzero : ℕ → ℕ → Memory → Memory) where
  -- At least one frame is taken.
  unfoldable pub get_contigous_pages : ℕ → ℕ → Memory → Region
  get_contigous_pages n number_of_pages mem =
      let first_page = os_pfn_alloc n * 2 ^ 12 % 2 ^ 64 in
      record {
        first_page = first_page;
        taken = n + suc (number_of_pages - 1);
        errors = contiguous_loop os_pfn_alloc (number_of_pages - 1) (suc n) (os_pfn_alloc n);
        mem = bzero first_page (page_size * number_of_pages) mem;
      }

  -- The addresses of the inodes, and the pages that they are on.
  unfoldable pub init_file_inode : ℕ → (ℕ → ℕ) → Memory → (ℕ → ℕ) × Region
  init_file_inode n inode mem =
      let r = get_contigous_pages n total_inode_page mem in
      (inode_loop num_inodes 0 r.first_page inode, r)

  -- The addresses of the pages of the files from the `i`-th on, the first one on `start_reg`.
  unfoldable pub pages_loop : ℕ → ℕ → ℕ → ℕ → (ℕ → ℕ) → Memory → (ℕ → ℕ) × Memory
  pages_loop zero i n start_reg page mem = (page, mem)
  pages_loop (suc rounds) i n start_reg page mem =
      let r = get_contigous_pages n (if i == 0 then num_pages - 1 else num_pages) mem in
      pages_loop rounds (suc i) r.taken start_reg
        (update page i (if i == 0 then start_reg else r.first_page)) r.mem

  -- The allocations of `alloc_inodes`.
  unfoldable pub file_pages : Memory → (ℕ → ℕ) × Memory
  file_pages mem =
      let r = get_contigous_pages 0 1 mem in
      pages_loop num_inodes 0 r.taken r.first_page (λ i. 0) r.mem

  -- The file system on the pages that it gets.
  unfoldable pub start_file_system : SuperBlock → Memory → SuperBlock × Memory
  start_file_system sb mem = let r = file_pages mem in (init_file_system r.0 sb, r.1)
