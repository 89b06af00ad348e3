-- ===== src/FileSystem/Pages/Files.antt =====
-- The pages of the files, and the file system on them (`alloc_inodes` and `init_file_system` of
-- Assignment2/fs.c).
use cs330_assignments.Base.{
  ℕ, zero, suc, ◌+◌, ◌*◌, ◌%◌, ◌^◌, ◌<◌, ◌≡◌, ◌≢◌, refl, ap, ◌∙◌, inl, inr, arith, ◌==◌, ltb,
  if◌then◌else◌, Memory, Bool-cases,
}
use cs330_assignments.FileSystem.State.{SuperBlock, Strings, num_inodes}
use cs330_assignments.FileSystem.Inodes.Init.{Pages, SetUp, init_file_system-SetUp}
use cs330_assignments.FileSystem.Pages.{
  get_contigous_pages, pages_loop, file_pages, start_file_system, page_size,
}

-- How many frames the files take: one for each of them, and one that is lost.
abbrev pub frames : ℕ
frames = num_inodes + 1

-- The kernel hands out different frames below END.
pub record Frames (os_pfn_alloc : ℕ → ℕ) : Type 0 where
  pub below : (n : ℕ) → n < frames → (os_pfn_alloc n + 1) * page_size < 2 ^ 31
  pub different : (m n : ℕ) → m < frames → n < frames → m ≢ n → os_pfn_alloc m ≢ os_pfn_alloc n

module _ (os_pfn_alloc : ℕ → ℕ) (bzero : ℕ → ℕ → Memory → Memory) where
  pages_loop_before :
      (rounds i k n a : ℕ) (page : ℕ → ℕ) (mem : Memory)
      → k < i
      → (pages_loop os_pfn_alloc bzero rounds i n a page mem).0 k ≡ page k
  unfolding pages_loop
  pages_loop_before zero i k n a page mem l = refl
  pages_loop_before (suc rounds) i k n a page mem l =
      pages_loop_before rounds (suc i) k _ a _ _ (omega arith) ∙ ground arith

  one_frame :
      (i n : ℕ) (mem : Memory)
      → (get_contigous_pages os_pfn_alloc bzero n (if i == 0 then 0 else 1) mem).taken ≡ suc n
  unfolding get_contigous_pages
  one_frame i n mem = ground arith

  pages_loop_at :
      (rounds i k n a : ℕ) (page : ℕ → ℕ) (mem : Memory)
      → k < rounds
      → (pages_loop os_pfn_alloc bzero rounds i n a page mem).0 (i + k)
        ≡ (if i + k == 0 then a else os_pfn_alloc (n + k) * 2 ^ 12 % 2 ^ 64)
  unfolding pages_loop get_contigous_pages
  pages_loop_at zero i k n a page mem l = absurd (omega arith)
  pages_loop_at (suc rounds) i zero n a page mem l =
      let here : i + 0 ≡ i = omega arith in
      let now : n + 0 ≡ n = omega arith in
      rw (here, now) (pages_loop_before rounds (suc i) i _ a _ _ (omega arith) ∙ ground arith)
  pages_loop_at (suc rounds) i (suc k) n a page mem l =
      let next : i + suc k ≡ suc i + k = omega arith in
      let later_frame : n + suc k ≡ suc n + k = omega arith in
      rw (next, later_frame)
        (pages_loop_at rounds (suc i) k _ a _ _ (omega arith)
          ∙ ap (λ x. if suc i + k == 0 then a else os_pfn_alloc (x + k) * 2 ^ 12 % 2 ^ 64)
              (one_frame i n mem))

  -- The frame of a file: the first one, or the one after the next, since a frame is lost.
  abbrev frame_of : ℕ → ℕ
  frame_of i = if i == 0 then 0 else suc i

  file_pages_at :
      (i : ℕ) (mem : Memory)
      → Frames os_pfn_alloc
      → i < num_inodes
      → (file_pages os_pfn_alloc bzero mem).0 i ≡ os_pfn_alloc (frame_of i) * page_size
  unfolding file_pages get_contigous_pages
  file_pages_at i mem f l =
      let start : 0 + i ≡ i = omega arith in
      let next : 1 + i ≡ suc i = omega arith in
      let place =
        pages_loop_at num_inodes 0 i 1 (os_pfn_alloc 0 * 2 ^ 12 % 2 ^ 64) (λ j. 0)
          (get_contigous_pages os_pfn_alloc bzero 0 1 mem).mem l in
      (rw (start, next) at place) ∙ (elim (Bool-cases (i == 0)) [
        | inl z ↦ rw z (omega (arith, f.below 0 (omega arith)))
        | inr s ↦ rw s (omega (arith, f.below (suc i) (omega arith)))
      ])

  file_pages-Pages :
      (mem : Memory) → Frames os_pfn_alloc → Pages (file_pages os_pfn_alloc bzero mem).0
  file_pages-Pages mem f = record {
    region =
        λ i l. rw (file_pages_at i mem f l) (omega (arith, f.below (frame_of i) (ground arith)));
    apart = λ i j l m d.
        let other : os_pfn_alloc (frame_of i) ≢ os_pfn_alloc (frame_of j) =
          f.different (frame_of i) (frame_of j) (ground arith) (ground arith) (ground arith) in
        rw (file_pages_at i mem f l, file_pages_at j mem f m)
          (elim (Bool-cases (ltb (os_pfn_alloc (frame_of i)) (os_pfn_alloc (frame_of j)))) [
            | inl low ↦ inl (ground arith)
            | inr high ↦ inr (ground arith)
          ]);
  }

-- Where the kernel hands out different frames, all below END, the file system starts as a table in
-- order with no file, in which no name finds anything and every inode is unused, empty and on a
-- page of its own.
pub start_file_system-SetUp :
    (os_pfn_alloc : ℕ → ℕ) (bzero : ℕ → ℕ → Memory → Memory) (c : Strings) (sb : SuperBlock)
    (mem : Memory)
    → Frames os_pfn_alloc
    → SetUp c (file_pages os_pfn_alloc bzero mem).0 (start_file_system os_pfn_alloc bzero sb mem).0
unfolding start_file_system
start_file_system-SetUp os_pfn_alloc bzero c sb mem f =
    init_file_system-SetUp c _ sb (file_pages-Pages os_pfn_alloc bzero mem f)
