-- ===== src/OpenFiles/Regular/Offset.antt =====
-- The offset of an open file across the handlers of Assignment2/file.c.
use cs330_assignments.Base.{
  ℕ, ◌+◌, ◌-◌, ◌%◌, ◌^◌, ◌≤◌, ◌<◌, ◌≡◌, ◌≢◌, ◌⊎◌, inl, inr, refl, sym, arith, true, false, Option,
  some, ℤ, pos, minus_one, ◌==◌, ltb, leb, ◌∙◌, ltb_ℤ, s64, Memory, bit_and, ◌||◌, ◌+ℤ◌, Bool-cases,
}
use cs330_assignments.FileSystem.State.{Inode, to_u64, file_capacity}
use cs330_assignments.FileSystem.Bytes.File.{
  FileInOrder, Read, Write, flat_read-Read, flat_write-Write, at_end, moved, refused, written,
}
use cs330_assignments.OpenFiles.State.{File, einval}
use cs330_assignments.OpenFiles.Regular.{
  o_read, o_write, seek_set, seek_cur, seek_end, seek_to, advance, do_read_regular,
  do_write_regular, do_lseek_regular,
}

-- The position that a seek asks for, as an integer.
pub data Target (f : File) (n : Inode) (offset : ℕ) : ℕ → ℤ → Type 0 where
  from_start : Target f n offset seek_set (s64 offset)
  from_here : Target f n offset seek_cur (pos f.offp +ℤ s64 offset)
  from_end : Target f n offset seek_end (pos n.file_size +ℤ s64 offset)

-- How a seek to a position ends.
pub data Seek (f : File) (n : Inode) (z : ℤ) : ℤ × File → Type 0 where
  outside : (ltb_ℤ z (pos 0) ≡ true) ⊎ (ltb_ℤ (pos n.file_size) z ≡ true) → Seek f n z (einval, f)
  inside : (p : ℕ) → z ≡ pos p → p ≤ n.file_size → Seek f n z (pos p, record f { offp = p })

seek_to-Seek :
    (w : ℕ) (z : ℤ) (n : Inode) (f : File)
    → FileInOrder n
    → w < 2 ^ 64
    → (s64 w ≡ z) ⊎ ((2 ^ 63 ≤ w) × (ltb_ℤ (pos n.file_size) z ≡ true))
    → Seek f n z (seek_to w n f)
unfolding seek_to
seek_to-Seek w z n f v l (inl e) = elim (Bool-cases (leb w n.file_size)) [
  | inl ok ↦
      let small : n.file_size < 2 ^ 31 = omega (arith, v.size, v.fits, v.region) in
      let pass : (ltb_ℤ (pos n.file_size) (s64 w) || ltb_ℤ (s64 w) (pos 0)) ≡ false =
        ground arith in
      let word : w % 2 ^ 32 ≡ w = ground arith in
      let same : s64 w ≡ pos w = ground arith in
      rw (pass, word) (inside w (sym e ∙ same) (ground arith))
  | inr far ↦
      let fail : (ltb_ℤ (pos n.file_size) (s64 w) || ltb_ℤ (s64 w) (pos 0)) ≡ true = ground arith in
      rw fail (
        outside (elim (Bool-cases (ltb w (2 ^ 63))) [
          | inl up ↦ inr (rw (← e) (ground arith))
          | inr down ↦ inl (rw (← e) (ground arith))
        ]))
]
seek_to-Seek w z n f v l (inr (big, far)) =
    let fail : (ltb_ℤ (pos n.file_size) (s64 w) || ltb_ℤ (s64 w) (pos 0)) ≡ true = ground arith in
    rw fail (outside (inr far))

-- A sum that leaves the range of a `long` is beyond the end of the file in the integers.
sum_wraps :
    (k size offset : ℕ)
    → k < 2 ^ 31
    → size < 2 ^ 31
    → offset < 2 ^ 64
    → (s64 ((k + offset) % 2 ^ 64) ≡ pos k +ℤ s64 offset)
      ⊎ ((2 ^ 63 ≤ (k + offset) % 2 ^ 64) × (ltb_ℤ (pos size) (pos k +ℤ s64 offset) ≡ true))
sum_wraps k size offset a b c = elim (Bool-cases (ltb offset (2 ^ 63))) [
  | inr big ↦ inl (ground arith)
  | inl small ↦ elim (Bool-cases (ltb (k + offset) (2 ^ 63))) [
    | inl fits ↦ inl (ground arith)
    | inr over ↦ inr (ground arith, ground arith)
  ]
]

-- For an inode in order, an offset of an int and a 64-bit argument, do_lseek_regular moves the
-- offset to the position that the argument asks for from the start, the current offset or the
-- end of the file, if that lies between 0 and the size of the file, and returns it; otherwise it
-- returns -EINVAL and changes nothing.
pub do_lseek_regular-Seek :
    (f : File) (n : Inode) (offset whence : ℕ) (z : ℤ)
    → FileInOrder n
    → f.offp < 2 ^ 31
    → offset < 2 ^ 64
    → Target f n offset whence z
    → Seek f n z (do_lseek_regular f n offset whence)
unfolding do_lseek_regular
do_lseek_regular-Seek f n offset whence z v o l from_start =
    seek_to-Seek offset z n f v l (inl refl)
do_lseek_regular-Seek f n offset whence z v o l from_here =
    seek_to-Seek _ _ n f v (omega arith)
      (sum_wraps f.offp n.file_size offset o (omega (arith, v.size, v.fits, v.region)) l)
do_lseek_regular-Seek f n offset whence z v o l from_end =
    let small : n.file_size < 2 ^ 31 = omega (arith, v.size, v.fits, v.region) in
    seek_to-Seek _ _ n f v (omega arith) (sum_wraps n.file_size n.file_size offset small small l)

pub record Reads (f : File) (n : Inode) (buf : ℕ → ℕ) (count : ℕ) (mem : Memory)
    (r : ℤ × File × (ℕ → ℕ)) : Type 0 where
  pub read : Read n buf count f.offp mem (r.0, r.2)
  pub offset : pos r.1.offp ≡ pos f.offp +ℤ r.0
  pub within : f.offp ≤ n.file_size → r.1.offp ≤ n.file_size

module _ (f : File) (n : Inode) (buf : ℕ → ℕ) (count : ℕ) (mem : Memory) (v : FileInOrder n)
    (o : f.offp < 2 ^ 31) (c : count < 2 ^ 31) where
  Read-Reads :
      (r : ℤ × (ℕ → ℕ))
      → Read n buf count f.offp mem r
      → Reads f n buf count mem (r.0, advance r.0 f, r.1)
  Read-Reads r (at_end h) = record {
    read = at_end h;
    offset = ground arith;
    within = λ l. ground arith;
  }
  Read-Reads r (moved size h e g k) = record {
    read = moved size h e g k;
    offset = ground (arith, v.size, v.fits, v.region);
    within = λ l. ground (arith, v.size, v.fits, v.region);
  }

  -- For an object opened for reading at an offset below 2 ^ 31 and an inode in order,
  -- do_read_regular of fewer than 2 ^ 31 bytes reads at the offset and moves it by the number
  -- of bytes that it returns; an offset within the file stays there.
  pub do_read_regular-Reads :
      bit_and f.mode o_read ≢ 0 → Reads f n buf count mem (do_read_regular f (some n) buf count mem)
  unfolding do_read_regular
  do_read_regular-Reads m =
      let may : (bit_and f.mode o_read == 0) ≡ false = ground arith in
      rw may (Read-Reads _ (flat_read-Read n count f.offp v c o buf mem))

-- How a write by the handler ends.
pub data Writes (f : File) (n : Inode) (buf : ℕ → ℕ) (count : ℕ) (mem : Memory)
    : ℤ × File × Option Inode × Memory → Type 0 where
  refused_back :
      file_capacity < f.offp + count
      → Writes f n buf count mem
          (minus_one, record f { offp = (f.offp + (2 ^ 32 - 1)) % 2 ^ 32 }, some n, mem)
  written_on :
      {n' : Inode} {mem' : Memory}
      → Write n buf count f.offp mem (pos count, n', mem')
      → f.offp + count ≤ file_capacity
      → Writes f n buf count mem (pos count, record f { offp = f.offp + count }, some n', mem')

module _ (f : File) (n : Inode) (buf : ℕ → ℕ) (count : ℕ) (mem : Memory) (v : FileInOrder n)
    (o : f.offp < 2 ^ 31) (c : count < 2 ^ 31) where
  Write-Writes :
      (w : ℤ × Inode × Memory)
      → Write n buf count f.offp mem w
      → Writes f n buf count mem (w.0, advance w.0 f, some w.1, w.2)
  Write-Writes w (refused h) =
      let back : (f.offp + to_u64 minus_one) % 2 ^ 32 ≡ (f.offp + (2 ^ 32 - 1)) % 2 ^ 32 =
        omega arith in
      rw back (refused_back h)
  Write-Writes w (written {n' = n'} {mem' = mem'} h g s e b u) =
      let sum : (f.offp + to_u64 (pos count)) % 2 ^ 32 ≡ f.offp + count = ground arith in
      rw sum (written_on (written h g s e b u) h)

  -- For an object opened for writing at an offset below 2 ^ 31 and an inode in order,
  -- do_write_regular of fewer than 2 ^ 31 bytes writes at the offset and moves it behind the
  -- bytes that it wrote, or returns -1 if the write would pass FILE_SIZE; then no byte
  -- changes, but the offset moves back by one.
  pub do_write_regular-Writes :
      bit_and f.mode o_write ≢ 0
      → Writes f n buf count mem (do_write_regular f (some n) buf count mem)
  unfolding do_write_regular
  do_write_regular-Writes m =
      let may : (bit_and f.mode o_write == 0) ≡ false = ground arith in
      rw may (Write-Writes _ (flat_write-Write n count f.offp v c o buf mem))
