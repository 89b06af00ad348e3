-- ===== src/Kernel/Calls/RoundTrip.antt =====
-- A write through a descriptor, a seek back and a read (`do_file_write`, `do_lseek` and
-- `do_file_read` of Assignment2/entry.c).
use cs330_assignments.Base.{
  ℕ, ◌+◌, ◌≤◌, ◌<◌, ◌≡◌, refl, ap, ap₂, ◌∙◌, arith, Option, none, some, ℤ, pos, Memory,
}
use cs330_assignments.FileSystem.State.{Inode, file_capacity}
use cs330_assignments.FileSystem.Bytes.File.{Write, refused, written}
use cs330_assignments.FileSystem.Bytes.RoundTrip.{read-after_Write}
use cs330_assignments.FileSystem.Bytes.{flat_read}
use cs330_assignments.OpenFiles.Regular.{seek_set}
use cs330_assignments.Kernel.State.{Kernel}
use cs330_assignments.Kernel.Calls.{Devices, do_file_read, do_file_write, do_lseek}
use cs330_assignments.Kernel.Calls.Through.{
  OpenFile, Wrote, Sought, sought, seen, do_file_write-Wrote, do_lseek-Sought,
  do_file_read-flat_read,
}

-- The three calls, one after the other: their results, and the buffer of the read.
unfoldable pub write_seek_read :
    Devices → ℕ → ℕ → (ℕ → ℕ) → (ℕ → ℕ) → ℕ → (ℕ → ℕ) → Kernel → Option (ℤ × ℤ × ℤ × (ℕ → ℕ))
write_seek_read d fd offset buf out count files k =
    let w = do_file_write d fd buf count files k in
    elim (do_lseek fd offset seek_set files w.1) [
      | none ↦ none
      | some s ↦ let r = do_file_read d fd out count files s.1 in some (w.0, s.0, r.0, r.1)
    ]

-- All calls succeed, and the buffer starts with the bytes that were written.
pub data ReadsBack (buf : ℕ → ℕ) (count offset : ℕ) : Option (ℤ × ℤ × ℤ × (ℕ → ℕ)) → Type 0 where
  reads_back :
      {out' : ℕ → ℕ}
      → ((j : ℕ) → j < count → out' j ≡ buf j)
      → ReadsBack buf count offset (some (pos count, pos offset, pos count, out'))

Write-grows :
    {n : Inode} {buf : ℕ → ℕ} {count off : ℕ} {mem : Memory} {w : ℤ × Inode × Memory}
    → Write n buf count off mem w
    → w.0 ≡ pos count
    → off ≤ w.1.file_size
Write-grows (refused l) e = absurd (ground (arith, e))
Write-grows (written l v s z b o) e = ground (arith, z)

module _ (d : Devices) (files : ℕ → ℕ) (fd i offset : ℕ) (k : Kernel) (buf out : ℕ → ℕ) (count : ℕ)
    (h : OpenFile files fd i offset k) (lt : 0 < count)
    (fits : offset + count ≤ file_capacity) where
  Sought-ReadsBack :
      (w : ℤ × Kernel) (written_bytes : Wrote files fd i offset k h buf count fits w)
      (l : offset ≤ (w.1.sb.inode i).file_size) (o : Option (ℤ × Kernel))
      → Sought files fd i (offset + count) offset w.1 written_bytes.still (omega arith) l o
      → ReadsBack buf count offset (elim o [
        | none ↦ none
        | some s ↦ let r = do_file_read d fd out count files s.1 in some (w.0, s.0, r.0, r.1)
      ])
  Sought-ReadsBack w g l o (sought {k' = k'} open_file sbs mems) =
      let back =
        read-after_Write (k.sb.inode i) count offset buf out k.mem lt fits h.order _ g.write in
      let r = do_file_read d fd out count files k' in
      let call : seen files fd i offset k' open_file d out count (omega arith) r
          ≡ flat_read (w.1.sb.inode i) out count offset w.1.mem =
        do_file_read-flat_read files fd i offset k' open_file d out count (omega arith)
        ∙ ap₂ (λ s m. flat_read (s.inode i) out count offset m) sbs mems in
      let result : r.0 ≡ pos count = ap (λ (x : ℤ × (ℕ → ℕ)). x.0) call ∙ back.result in
      rw (g.result, result)
        (reads_back (λ j m. ap (λ (x : ℤ × (ℕ → ℕ)). x.1 j) call ∙ back.bytes j m))

  -- Through a descriptor of a regular file open for both directions, at an offset from which
  -- at least one byte fits within FILE_SIZE: a write, a seek back to the offset and a read of
  -- as many bytes all succeed, and the read returns all the bytes that were written.
  pub write_seek_read-ReadsBack :
      ReadsBack buf count offset (write_seek_read d fd offset buf out count files k)
  unfolding write_seek_read
  write_seek_read-ReadsBack =
      let g = do_file_write-Wrote files fd i offset k h buf count fits d in
      let l = Write-grows g.write refl in
      Sought-ReadsBack _ g l _
        (do_lseek-Sought files fd i (offset + count) offset _ g.still (omega arith) l)
