-- ===== src/FileSystem/Bytes.antt =====
-- Reading and writing the bytes of a file (Assignment2/fs.c). Counts and offsets are the 32-bit
-- patterns of the `int` arguments, and a buffer is a function from indices.
pub mod Transfer
pub mod File
pub mod RoundTrip
use cs330_assignments.Base.{
  ℕ, zero, suc, ◌+◌, ◌-◌, ◌%◌, ◌^◌, Bool, ℤ, pos, negsuc, minus_one, ◌-ℤ◌, ltb_ℤ, s32, ltb, ◌==◌,
  if◌then◌else◌, update, Memory,
}
use cs330_assignments.FileSystem.State.{Inode, to_u64}

-- `buf[i] = *(base + i)` for `rounds` values of `i`.
unfoldable pub load_loop : ℕ → ℕ → ℕ → Memory → (ℕ → ℕ) → ℕ → ℕ
load_loop zero i base mem buf = buf
load_loop (suc rounds) i base mem buf =
    load_loop rounds (suc i) base mem (update buf i (mem ((base + i) % 2 ^ 64)))

-- `*(base + i) = buf[i]` for `rounds` values of `i`.
unfoldable pub store_loop : ℕ → ℕ → ℕ → (ℕ → ℕ) → Memory → Memory
store_loop zero i base buf mem = mem
store_loop (suc rounds) i base buf mem =
    store_loop rounds (suc i) base buf (update mem ((base + i) % 2 ^ 64) (buf i))

-- The address of the byte at an offset.
abbrev pub position : Inode → ℕ → ℕ
position n off = (n.s_pos + to_u64 (s32 off)) % 2 ^ 64

-- How many bytes a read moves: the `u64` that the smaller of the two integers converts to.
abbrev pub read_size : ℤ → ℤ → ℕ
read_size count remain = to_u64 (if ltb_ℤ remain count then remain else count)

-- The result, and the caller's buffer.
unfoldable pub flat_read : Inode → (ℕ → ℕ) → ℕ → ℕ → Memory → ℤ × (ℕ → ℕ)
flat_read n buf count off mem =
    let remain = pos n.file_size -ℤ s32 off in
    if ltb_ℤ (pos 0) remain
    then (let size = read_size (s32 count) remain in
        (s32 (size % 2 ^ 32), load_loop size 0 (position n off) mem buf))
    else (pos 0, buf)

-- The inode after a write, its sums in 32-bit words.
abbrev pub grown : Inode → ℕ → ℕ → Inode
grown n count off =
    let end = (n.s_pos + off + count) % 2 ^ 32 in
    let top = if ltb n.max_pos end then end else n.max_pos in
    record n { max_pos = top; file_size = (top + 2 ^ 32 - n.s_pos) % 2 ^ 32 }

-- The result, the inode and the memory.
unfoldable pub flat_write : Inode → (ℕ → ℕ) → ℕ → ℕ → Memory → ℤ × Inode × Memory
flat_write n buf count off mem =
    if ltb_ℤ (pos n.e_pos -ℤ s32 off -ℤ pos n.s_pos) (s32 count)
    then (minus_one, n, mem)
    else (s32 count, grown n count off, store_loop (to_u64 (s32 count)) 0 (position n off) buf mem)
