-- ===== src/OpenFiles/Dup.antt =====
-- `fd_dup2` of Assignment2/file.c.
use cs330_assignments.Base.{
  ℕ, ◌+◌, ◌^◌, ◌<◌, ◌≡◌, ◌≢◌, inl, inr, refl, ◌∙◌, arith, true, false, ◌==◌, if◌then◌else◌, update,
  Bool-cases, ℤ, pos, Option, none, some, dec32,
}
use cs330_assignments.OpenFiles.State.{
  Store, release, retain, do_file_close, std_close, run_close, Handler, no_handler, standard,
  on_inode, is_null, einval, fd_dup2, do_close, free_file_object, max_open_files,
}
use cs330_assignments.OpenFiles.Balance.{
  Balanced, held, Balanced-skip, refs, refs-update, refs-positive, refs-bound, release-Balanced,
  retain-Balanced,
}

pub record Duplicates (oldfd newfd : ℕ) (files elsewhere : ℕ → ℕ) (r : ℤ × (ℕ → ℕ) × Store)
    : Type 0 where
  pub result : r.0 ≡ pos newfd
  pub table : r.1 ≡ update files newfd (files oldfd)
  pub counts : Balanced (held max_open_files 0 r.1 elsewhere) r.2

pub data Closes (fd : ℕ) (files elsewhere : ℕ → ℕ) (s : Store)
    : Option ℤ × (ℕ → ℕ) × Store → Type 0 where
  no_close :
      is_null (s.object (files fd)).fops.close ≡ true
      → Closes fd files elsewhere s (some einval, files, s)
  closed_fd :
      {s' : Store}
      → is_null (s.object (files fd)).fops.close ≡ false
      → Balanced (held max_open_files 0 (update files fd 0) elsewhere) s'
      → Closes fd files elsewhere s (none, update files fd 0, s')

module _ (newfd : ℕ) (files elsewhere : ℕ → ℕ) (s : Store) (j : newfd < max_open_files) where
  -- The descriptor `newfd` closed: its object has one reference less.
  close-Balanced :
      Balanced (held max_open_files 0 files elsewhere) s
      → Balanced
          (held max_open_files 0 (update files newfd 0) elsewhere)
          (if files newfd == 0 then s else (do_file_close (files newfd) s).1)
  unfolding do_file_close
  close-Balanced h = elim (Bool-cases (files newfd == 0)) [
    | inl e ↦ rw e (
        Balanced-skip _ _ s h (λ b n. ground (arith, refs-update max_open_files 0 newfd 0 b files)))
    | inr f ↦ rw f (
        release-Balanced (files newfd) _ _ s (ground arith) h
          (ground (arith, refs-update max_open_files 0 newfd 0 (files newfd) files))
          (λ b n k. ground (arith, refs-update max_open_files 0 newfd 0 b files)))
  ]

  run_close-release :
      (h : Handler)
      → files newfd ≢ 0
      → (run_close h (files newfd) s).1 ≡ (do_file_close (files newfd) s).1
  unfolding run_close std_close do_file_close
  run_close-release standard n =
      let open_fd : (files newfd == 0) ≡ false = ground arith in rw open_fd refl
  run_close-release no_handler n = refl
  run_close-release on_inode n = refl

  -- do_close of an open descriptor whose object has a close handler makes the descriptor free
  -- and no other, and exactly the objects with references are allocated afterwards, and count
  -- them; it returns no value. Without a handler it returns -EINVAL and changes nothing.
  pub do_close-Closes :
      files newfd ≢ 0
      → Balanced (held max_open_files 0 files elsewhere) s
      → Closes newfd files elsewhere s (do_close newfd files s)
  unfolding do_close
  do_close-Closes used h =
      let busy : (files newfd == 0) ≡ false = ground arith in
      elim (Bool-cases (is_null (s.object (files newfd)).fops.close)) [
        | inl null ↦ rw (busy, null) (no_close null)
        | inr some_handler ↦
            rw (busy, some_handler, run_close-release (s.object (files newfd)).fops.close used)
              (closed_fd some_handler (rw busy at close-Balanced h))
      ]

module _ (oldfd newfd : ℕ) (files elsewhere : ℕ → ℕ) (s : Store) (i : oldfd < max_open_files)
    (j : newfd < max_open_files) where
  moved :
      (b : ℕ)
      → refs max_open_files 0 (update files newfd (files oldfd)) b
          + (if files newfd == b then 1 else 0)
        ≡ refs max_open_files 0 files b + (if files oldfd == b then 1 else 0)
  moved b = refs-update max_open_files 0 newfd (files oldfd) b files (omega arith) (omega arith)

  closed :
      (b : ℕ)
      → refs max_open_files 0 (update files newfd 0) b + (if files newfd == b then 1 else 0)
        ≡ refs max_open_files 0 files b + (if 0 == b then 1 else 0)
  closed b = refs-update max_open_files 0 newfd 0 b files (omega arith) (omega arith)

  -- The object of `oldfd` survives where the descriptors differ.
  still_held :
      oldfd ≢ newfd → 0 < held max_open_files 0 (update files newfd 0) elsewhere (files oldfd)
  still_held ne =
      ground (arith, refs-positive max_open_files 0 oldfd (files oldfd) (update files newfd 0))

  fd_dup2-Balanced :
      oldfd ≢ newfd
      → files oldfd ≢ 0
      → ((a : ℕ) → elsewhere a < 2 ^ 30)
      → Balanced (held max_open_files 0 files elsewhere) s
      → Balanced
          (held max_open_files 0 (fd_dup2 oldfd newfd files s).1 elsewhere)
          (fd_dup2 oldfd newfd files s).2
  unfolding fd_dup2
  fd_dup2-Balanced ne used l h =
      let busy : (files oldfd == 0) ≡ false = ground arith in
      let same : update files newfd (files oldfd) oldfd ≡ files oldfd = ground arith in
      rw (busy, same)
        (retain-Balanced (files oldfd) _ _ _ used (close-Balanced newfd files elsewhere s j h)
          (still_held ne) (ground (arith, moved (files oldfd), closed (files oldfd)))
          (λ b n k. ground (arith, moved b, closed b))
          (λ b n.
            omega (arith, l b, refs-bound max_open_files 0 b (update files newfd (files oldfd)))))

  -- For two different descriptors of which `oldfd` is open, where every object in use counted
  -- its references and fewer than 2 ^ 30 are from elsewhere, fd_dup2 returns `newfd` and makes
  -- it, and no other descriptor, refer to the object of `oldfd`; again exactly the objects
  -- with references are allocated, and count them.
  pub fd_dup2-Duplicates :
      oldfd ≢ newfd
      → files oldfd ≢ 0
      → ((a : ℕ) → elsewhere a < 2 ^ 30)
      → Balanced (held max_open_files 0 files elsewhere) s
      → Duplicates oldfd newfd files elsewhere (fd_dup2 oldfd newfd files s)
  unfolding fd_dup2
  fd_dup2-Duplicates ne used l h =
      let busy : (files oldfd == 0) ≡ false = ground arith in
      record { result = rw busy refl; table = rw busy refl; counts = fd_dup2-Balanced ne used l h }

-- Where fd_dup2 is called with one open descriptor twice and its object, which counts its
-- references, has no other one, the object is freed and the descriptor still refers to it.
pub fd_dup2_same :
    (fd : ℕ) (files elsewhere : ℕ → ℕ) (s : Store)
    → files fd ≢ 0
    → Balanced (held max_open_files 0 files elsewhere) s
    → held max_open_files 0 files elsewhere (files fd) ≡ 1
    → ((fd_dup2 fd fd files s).1 fd ≡ files fd)
      × ((fd_dup2 fd fd files s).2.live (files fd) ≡ false)
unfolding fd_dup2 do_file_close release free_file_object retain
fd_dup2_same fd files elsewhere s used h one =
    let busy : (files fd == 0) ≡ false = ground arith in
    let count : (s.object (files fd)).ref_count ≡ 1 =
      h.count (files fd) used (omega (arith, one)) ∙ one in
    let last : (dec32 (s.object (files fd)).ref_count == 0) ≡ true = ground (arith, count) in
    rw (busy, last) (ground arith, ground arith)
