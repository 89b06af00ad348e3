-- ===== src/FileSystem/Bytes/RoundTrip.antt =====
-- `flat_write` followed by `flat_read`, and a `flat_write` of a negative number of bytes
-- (Assignment2/fs.c).
use cs330_assignments.Base.{
  ℕ, ◌+◌, ◌-◌, ◌%◌, ◌^◌, ◌≤◌, ◌<◌, ◌≡◌, refl, sym, ap, ◌∙◌, arith, Memory, false, ℤ, pos, ltb_ℤ,
  ltb, if◌then◌else◌, ◌-ℤ◌, s32,
}
use cs330_assignments.FileSystem.State.{Inode, file_capacity, to_u64}
use cs330_assignments.FileSystem.Bytes.{store_loop, flat_read, flat_write}
use cs330_assignments.FileSystem.Bytes.Transfer.{store_loop-in}
use cs330_assignments.FileSystem.Bytes.File.{
  FileInOrder, Write, Read, refused, written, at_end, moved, flat_write-Write, flat_read-Read,
  position-sum,
}

-- The bytes of a buffer come back, and all of them do.
pub record Returns (buf : ℕ → ℕ) (count : ℕ) (r : ℤ × (ℕ → ℕ)) : Type 0 where
  pub result : r.0 ≡ pos count
  pub bytes : (j : ℕ) → j < count → r.1 j ≡ buf j

module _ (n : Inode) (count off : ℕ) (buf out : ℕ → ℕ) (mem : Memory) (lt : 0 < count)
    (l : off + count ≤ file_capacity) where
  Read-Returns :
      (n' : Inode) (mem' : Memory) (r : ℤ × (ℕ → ℕ))
      → n'.s_pos ≡ n.s_pos
      → n'.file_size ≡ (if ltb n.file_size (off + count) then off + count else n.file_size)
      → ((j : ℕ) → j < count → mem' (n.s_pos + off + j) ≡ buf j)
      → Read n' out count off mem' r
      → Returns buf count r
  Read-Returns n' mem' r s e b (at_end p) = absurd (ground arith)
  Read-Returns n' mem' r s e b (moved size p q h k) =
      let full : size ≡ count = ground arith in
      record { result = ap pos full; bytes = λ j m. h j (omega arith) ∙ (rw s (b j m)) }

  pub read-after_Write :
      FileInOrder n
      → (w : ℤ × Inode × Memory) → Write n buf count off mem w
      → Returns buf count (flat_read w.1 out count off w.2)
  read-after_Write v w (refused p) = absurd (omega arith)
  read-after_Write v w (written {n' = n'} {mem' = mem'} p v' s e b o) =
      Read-Returns n' mem' _ s e b
        (flat_read-Read n' count off v' (omega arith) (omega arith) out mem')

-- What a write of at least one byte puts within FILE_SIZE into a file in order, a read of the
-- same count at the same offset returns in full.
pub flat_read-flat_write :
    (n : Inode) (count off : ℕ) (buf out : ℕ → ℕ) (mem : Memory)
    → FileInOrder n
    → 0 < count
    → off + count ≤ file_capacity
    → Returns buf count (
        flat_read
          (flat_write n buf count off mem).1
          out
          count
          off
          (flat_write n buf count off mem).2)
flat_read-flat_write n count off buf out mem v lt l =
    read-after_Write n count off buf out mem lt l v _
      (flat_write-Write n count off v (omega arith) (omega arith) buf mem)

-- A write with a negative count at an offset of at most FILE_SIZE to a file in order is not
-- refused: it writes the byte behind the last one of the file.
pub flat_write-negative :
    (n : Inode) (count off : ℕ) (buf : ℕ → ℕ) (mem : Memory)
    → FileInOrder n
    → 2 ^ 31 ≤ count
    → count < 2 ^ 32
    → off ≤ file_capacity
    → ((flat_write n buf count off mem).0 ≡ s32 count)
      × ((flat_write n buf count off mem).2 n.e_pos ≡ buf (file_capacity - off))
unfolding flat_write
flat_write-negative n count off buf mem v c u o =
    let pass : ltb_ℤ (pos n.e_pos -ℤ s32 off -ℤ pos n.s_pos) (s32 count) ≡ false =
      ground (arith, v.capacity, v.region) in
    let here : (n.s_pos + off + (file_capacity - off)) % 2 ^ 64 ≡ n.e_pos =
      omega (arith, v.capacity, v.region) in
    let many : file_capacity < to_u64 (s32 count) = ground arith in
    let few : to_u64 (s32 count) ≤ 2 ^ 64 = ground arith in
    rw (pass, position-sum n 0 off v (omega arith) (omega arith))
      (
        refl,
        ap (store_loop (to_u64 (s32 count)) 0 (n.s_pos + off) buf mem) (sym here)
            ∙ store_loop-in (to_u64 (s32 count)) 0 (file_capacity - off) (n.s_pos + off) buf mem
                (omega arith) (omega arith) (omega arith),
      )
