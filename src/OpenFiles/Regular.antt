-- ===== src/OpenFiles/Regular.antt =====
-- The handlers of regular files in Assignment2/file.c, on an object with the inode that it points
-- to; `none` is the null pointer. Counts, offsets and flags are words.
pub mod Offset
use cs330_assignments.Base.{
  ℕ, zero, suc, ◌+◌, ◌%◌, ◌^◌, Bool, true, false, Option, none, some, ℤ, pos, negsuc, ◌==◌,
  if◌then◌else◌, ltb_ℤ, s64, Memory, bit_and, ◌||◌,
}
use cs330_assignments.FileSystem.State.{Inode, to_u64}
use cs330_assignments.FileSystem.Bytes.{flat_read, flat_write}
use cs330_assignments.OpenFiles.State.{File, einval}

-- -EACCES
abbrev pub eacces : ℤ
eacces = negsuc 3

abbrev pub o_read : ℕ
o_read = 1

abbrev pub o_write : ℕ
o_write = 2

abbrev pub seek_set : ℕ
seek_set = 0

abbrev pub seek_cur : ℕ
seek_cur = 1

abbrev pub seek_end : ℕ
seek_end = 2

-- `filep->offp += n`
abbrev pub advance : ℤ → File → File
advance z f = record f { offp = (f.offp + to_u64 z) % 2 ^ 32 }

-- The result, the object and the caller's buffer.
unfoldable pub do_read_regular : File → Option Inode → (ℕ → ℕ) → ℕ → Memory → ℤ × File × (ℕ → ℕ)
do_read_regular f none buf count mem = (einval, f, buf)
do_read_regular f (some n) buf count mem =
    if bit_and f.mode o_read == 0
    then (eacces, f, buf)
    else (let r = flat_read n buf count f.offp mem in (r.0, advance r.0 f, r.1))

-- The result, the object, the inode and the memory.
unfoldable pub do_write_regular :
    File → Option Inode → (ℕ → ℕ) → ℕ → Memory → ℤ × File × Option Inode × Memory
do_write_regular f none buf count mem = (einval, f, none, mem)
do_write_regular f (some n) buf count mem =
    if bit_and f.mode o_write == 0
    then (eacces, f, some n, mem)
    else (let w = flat_write n buf count f.offp mem in (w.0, advance w.0 f, some w.1, w.2))

-- The end of `do_lseek_regular`, for the new offset as a 64-bit word.
unfoldable pub seek_to : ℕ → Inode → File → ℤ × File
seek_to w n f =
    if ltb_ℤ (pos n.file_size) (s64 w) || ltb_ℤ (s64 w) (pos 0)
    then (einval, f)
    else (pos (w % 2 ^ 32), record f { offp = w % 2 ^ 32 })

unfoldable pub do_lseek_regular : File → Inode → ℕ → ℕ → ℤ × File
do_lseek_regular f n offset whence =
    if whence == seek_set
    then seek_to offset n f
    else if whence == seek_cur
    then seek_to ((f.offp + offset) % 2 ^ 64) n f
    else if whence == seek_end
    then seek_to ((n.file_size + offset) % 2 ^ 64) n f
    else (einval, f)
