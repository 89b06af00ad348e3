-- ===== src/FileSystem/Bytes/File.antt =====
-- What `flat_read` and `flat_write` of Assignment2/fs.c do to a file that is in order.
use cs330_assignments.Base.{
  ℕ, ◌+◌, ◌-◌, ◌%◌, ◌^◌, ◌≤◌, ◌<◌, ◌≡◌, ◌⊎◌, inl, inr, refl, sym, arith, Memory, ◌∙◌, Bool-cases, ℤ,
  pos, minus_one, ltb_ℤ, ltb, if◌then◌else◌, ◌-ℤ◌, s32, ap,
}
use cs330_assignments.FileSystem.State.{Inode, file_capacity, to_u64}
use cs330_assignments.FileSystem.Bytes.{
  store_loop, flat_read, flat_write, grown, position, read_size,
}
use cs330_assignments.FileSystem.Bytes.Transfer.{
  store_loop-in, store_loop-out, load_loop-in, load_loop-out,
}

-- The pages of a file lie below the end of the region, and its data at their start.
pub record FileInOrder (n : Inode) : Type 0 where
  pub capacity : n.e_pos ≡ n.s_pos + file_capacity
  pub region : n.e_pos < 2 ^ 31
  pub fits : n.max_pos ≤ n.e_pos
  pub size : n.max_pos ≡ n.s_pos + n.file_size

-- How a write of `count` bytes at an offset ends.
pub data Write (n : Inode) (buf : ℕ → ℕ) (count off : ℕ) (mem : Memory)
    : ℤ × Inode × Memory → Type 0 where
  refused : file_capacity < off + count → Write n buf count off mem (minus_one, n, mem)
  written :
      {n' : Inode} {mem' : Memory}
      → off + count ≤ file_capacity
      → FileInOrder n'
      → n'.s_pos ≡ n.s_pos
      → n'.file_size ≡ (if ltb n.file_size (off + count) then off + count else n.file_size)
      → ((j : ℕ) → j < count → mem' (n.s_pos + off + j) ≡ buf j)
      → ((a : ℕ) → (a < n.s_pos + off) ⊎ (n.s_pos + off + count ≤ a) → mem' a ≡ mem a)
      → Write n buf count off mem (pos count, n', mem')

module _ (n : Inode) (count off : ℕ) (v : FileInOrder n) (c : count < 2 ^ 31)
    (o : off < 2 ^ 31) where
  pub position-sum : position n off ≡ n.s_pos + off
  position-sum = ground (arith, v.capacity, v.region)

  grown-FileInOrder : off + count ≤ file_capacity → FileInOrder (grown n count off)
  grown-FileInOrder l = record {
    capacity = v.capacity;
    region = v.region;
    fits = ground (arith, v.capacity, v.region, v.fits);
    size = ground (arith, v.capacity, v.region, v.fits, v.size);
  }

  grown_size :
      off + count ≤ file_capacity
      → (grown n count off).file_size
        ≡ (if ltb n.file_size (off + count) then off + count else n.file_size)
  grown_size l = ground (arith, v.capacity, v.region, v.fits, v.size)

  too_long :
      ltb_ℤ (pos n.e_pos -ℤ s32 off -ℤ pos n.s_pos) (s32 count) ≡ ltb file_capacity (off + count)
  too_long = ground (arith, v.capacity, v.region)

  -- A write of fewer than 2 ^ 31 bytes at an offset below 2 ^ 31 to a file in order returns -1
  -- and changes nothing exactly if it would pass FILE_SIZE; otherwise it returns the count,
  -- the bytes of the buffer stand at the offset and no other byte changes, the file is in
  -- order at its place, and its size is the larger of the old size and the end of the write.
  pub flat_write-Write :
      (buf : ℕ → ℕ) (mem : Memory) → Write n buf count off mem (flat_write n buf count off mem)
  unfolding flat_write
  flat_write-Write buf mem =
      let count_eq : s32 count ≡ pos count = ground arith in
      let all : to_u64 (pos count) ≡ count = ground arith in
      elim (Bool-cases (ltb file_capacity (off + count))) [
        | inl long ↦ rw (too_long, long) (refused (ground arith))
        | inr fits ↦
            let l : off + count ≤ file_capacity = ground arith in
            rw (too_long, fits, position-sum, count_eq, all)
              (written l (grown-FileInOrder l) refl (grown_size l)
                (λ j h.
                  let a : (n.s_pos + off + j) % 2 ^ 64 ≡ n.s_pos + off + j =
                    omega (arith, v.capacity, v.region) in
                  ap (store_loop count 0 (n.s_pos + off) buf mem) (sym a)
                  ∙ store_loop-in count 0 j (n.s_pos + off) buf mem (omega arith) (omega arith)
                      (omega arith))
                (λ a h.
                  store_loop-out count 0 a (n.s_pos + off) buf mem
                    (omega (arith, v.capacity, v.region)) (ground arith)))
      ]

-- How a read of at most `count` bytes at an offset ends.
pub data Read (n : Inode) (buf : ℕ → ℕ) (count off : ℕ) (mem : Memory) : ℤ × (ℕ → ℕ) → Type 0 where
  at_end : n.file_size ≤ off → Read n buf count off mem (pos 0, buf)
  moved :
      {buf' : ℕ → ℕ} (size : ℕ)
      → off < n.file_size
      → size ≡ (if ltb (n.file_size - off) count then n.file_size - off else count)
      → ((j : ℕ) → j < size → buf' j ≡ mem (n.s_pos + off + j))
      → ((j : ℕ) → size ≤ j → buf' j ≡ buf j)
      → Read n buf count off mem (pos size, buf')

module _ (n : Inode) (count off : ℕ) (v : FileInOrder n) (c : count < 2 ^ 31)
    (o : off < 2 ^ 31) where
  remain : off < n.file_size → pos n.file_size -ℤ s32 off ≡ pos (n.file_size - off)
  remain l = ground (arith, v.capacity, v.region, v.fits, v.size)

  more : ltb_ℤ (pos 0) (pos n.file_size -ℤ s32 off) ≡ ltb off n.file_size
  more = ground (arith, v.capacity, v.region, v.fits, v.size)

  read_size-min :
      off < n.file_size
      → read_size (s32 count) (pos n.file_size -ℤ s32 off)
        ≡ (if ltb (n.file_size - off) count then n.file_size - off else count)
  read_size-min l = rw (remain l) (ground (arith, v.capacity, v.region, v.fits, v.size))

  -- A read of at most `count` bytes, fewer than 2 ^ 31, at an offset below 2 ^ 31 from a file
  -- in order returns 0 and leaves the buffer alone at or behind the end of the file; otherwise
  -- it returns the smaller of the count and the bytes left, puts that many bytes from the
  -- offset on into the buffer and leaves the rest of the buffer alone.
  pub flat_read-Read :
      (buf : ℕ → ℕ) (mem : Memory) → Read n buf count off mem (flat_read n buf count off mem)
  unfolding flat_read
  flat_read-Read buf mem = elim (Bool-cases (ltb off n.file_size)) [
    | inr f ↦ rw (more, f) (at_end (ground arith))
    | inl t ↦
        let l : off < n.file_size = ground arith in
        let size = if ltb (n.file_size - off) count then n.file_size - off else count in
        let small : size ≤ n.file_size - off = ground arith in
        let result : s32 (size % 2 ^ 32) ≡ pos size =
          ground (arith, v.capacity, v.region, v.fits, v.size) in
        rw (more, t, read_size-min l, result, position-sum n count off v c o)
          (moved size l refl
            (λ j h.
              let a : (n.s_pos + off + j) % 2 ^ 64 ≡ n.s_pos + off + j =
                omega (arith, v.capacity, v.region, v.fits, v.size) in
              load_loop-in size 0 j (n.s_pos + off) mem buf (omega arith) (omega arith) ∙ ap mem a)
            (λ j h. load_loop-out size 0 j (n.s_pos + off) mem buf (inr (omega arith))))
  ]
