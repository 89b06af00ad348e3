-- ===== src/OpenFiles/Opening/Outcome.antt =====
-- How `do_regular_file_open` of Assignment2/file.c ends.
use cs330_assignments.Base.{
  ℕ, zero, suc, ◌+◌, ◌^◌, ◌≤◌, ◌<◌, ◌≡◌, ◌≢◌, inl, inr, refl, ap, ◌∙◌, arith, true, false, Option,
  none, some, ℤ, pos, ◌==◌, update, bit_xor, Bool-cases,
}
use cs330_assignments.OpenFiles.State.{Store, max_open_files}
use cs330_assignments.OpenFiles.Balance.{Balanced, held, refs-update, refs-bound}
use cs330_assignments.OpenFiles.Opening.{fd_loop, open_inode, alloc_file, set_file, enomem, o_creat}

-- The first free descriptor of a range.
pub data FirstFree (files : ℕ → ℕ) (i rounds : ℕ) : Option ℕ → Type 0 where
  free_at :
      (fd : ℕ)
      → i ≤ fd
      → fd < i + rounds
      → files fd ≡ 0
      → ((k : ℕ) → i ≤ k → k < fd → files k ≢ 0)
      → FirstFree files i rounds (some fd)
  all_used : ((k : ℕ) → i ≤ k → k < i + rounds → files k ≢ 0) → FirstFree files i rounds none

used_before : (files : ℕ → ℕ) (i k : ℕ) → files i ≢ 0 → (i < k → files k ≢ 0) → i ≤ k → files k ≢ 0
used_before files i k n h l e = elim (Bool-cases (i == k)) [
  | inl t ↦ let t' : i ≡ k = ground arith in n (ap files t' ∙ e)
  | inr f ↦ h (ground arith) e
]

FirstFree-later :
    (files : ℕ → ℕ) (i rounds : ℕ) (o : Option ℕ)
    → files i ≢ 0
    → FirstFree files (suc i) rounds o
    → FirstFree files i (suc rounds) o
FirstFree-later files i rounds o n (free_at fd l u e h) =
    free_at fd (omega arith) (omega arith) e
      (λ k a b. used_before files i k n (λ c. h k (omega arith) b) a)
FirstFree-later files i rounds o n (all_used h) =
    all_used (λ k a b. used_before files i k n (λ c. h k (omega arith) (omega arith)) a)

pub fd_loop-FirstFree :
    (rounds i : ℕ) (files : ℕ → ℕ) → FirstFree files i rounds (fd_loop rounds i files)
unfolding fd_loop
fd_loop-FirstFree zero i files = all_used (λ k a b. absurd (omega arith))
fd_loop-FirstFree (suc rounds) i files = elim (Bool-cases (files i == 0)) [
  | inl e ↦
      rw e (free_at i (omega arith) (omega arith) (ground arith) (λ k a b. absurd (omega arith)))
  | inr f ↦
      rw f
        (FirstFree-later files i rounds _ (ground arith) (fd_loop-FirstFree rounds (suc i) files))
]

-- What opening an inode on a fresh object does.
pub data Opens (i flags page : ℕ) (files elsewhere : ℕ → ℕ) : ℤ × (ℕ → ℕ) × Store → Type 0 where
  opened :
      {s' : Store} (fd : ℕ)
      → 3 ≤ fd
      → fd < max_open_files
      → files fd ≡ 0
      → ((k : ℕ) → 3 ≤ k → k < fd → files k ≢ 0)
      → Balanced (held max_open_files 0 (update files fd page) elsewhere) s'
      → (s'.object page).inode ≡ some i
      → (s'.object page).offp ≡ 0
      → Opens i flags page files elsewhere (pos fd, update files fd page, s')
  leaked :
      {s' : Store}
      → ((k : ℕ) → 3 ≤ k → k < max_open_files → files k ≢ 0)
      → s'.live page ≡ true
      → held max_open_files 0 files elsewhere page ≡ 0
      → Opens i flags page files elsewhere (enomem, files, s')

module _ (i flags page : ℕ) (files elsewhere : ℕ → ℕ) (s : Store)
    (h : Balanced (held max_open_files 0 files elsewhere) s) (nz : page ≢ 0)
    (fresh : s.live page ≡ false) (small : (a : ℕ) → elsewhere a < 2 ^ 30) where
  unreferenced : held max_open_files 0 files elsewhere page ≡ 0
  unreferenced = ground (arith, h.live page nz, fresh)

  set_file-Balanced :
      (fd : ℕ)
      → fd < max_open_files
      → files fd ≡ 0
      → Balanced
          (held max_open_files 0 (update files fd page) elsewhere)
          (set_file page i (bit_xor flags o_creat) s)
  unfolding alloc_file
  set_file-Balanced fd l e = record {
    live = λ a n.
        ground (arith, h.live a n, unreferenced, refs-update max_open_files 0 fd page a files);
    count = λ a n p.
        ground (arith, h.count a n, unreferenced, refs-update max_open_files 0 fd page a files);
    bound = λ a n. omega (arith, small a, refs-bound max_open_files 0 a (update files fd page));
  }

  FirstFree-Opens :
      (o : Option ℕ)
      → FirstFree files 3 13 o
      → fd_loop 13 3 files ≡ o
      → Opens i flags page files elsewhere (open_inode i flags page files s)
  unfolding open_inode alloc_file
  FirstFree-Opens o (free_at fd l u e k) q =
      rw (open_inode, q)
        (opened fd l (omega arith) e k (set_file-Balanced fd (omega arith) e) (ground arith)
          (ground arith))
  FirstFree-Opens o (all_used k) q =
      rw (open_inode, q) (leaked (λ j a b. k j a (omega arith)) (ground arith) unreferenced)

  -- Where every object in use counted its references, fewer than 2 ^ 30 of each from
  -- elsewhere, and `page` is no object in use, the end of do_regular_file_open either makes
  -- the first free descriptor from 3 on refer to a new object at `page` for the inode, with
  -- offset 0, and again exactly the objects with references are allocated and count them; or
  -- all descriptors from 3 on are used, it returns -ENOMEM, and the new object stays allocated
  -- without a reference.
  pub open_inode-Opens : Opens i flags page files elsewhere (open_inode i flags page files s)
  open_inode-Opens = FirstFree-Opens _ (fd_loop-FirstFree 13 3 files) refl
