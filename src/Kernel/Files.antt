-- ===== src/Kernel/Files.antt =====
-- Standard input and output, and the copy between two files (Assignment2/file.c). `none` is a walk
-- out of the table of descriptors, or a null pointer that is followed.
use cs330_assignments.Base.{
  ℕ, ◌+◌, ◌%◌, ◌^◌, Option, none, some, ℤ, pos, ◌==◌, if◌then◌else◌, update, bit_and, Memory,
}
use cs330_assignments.FileSystem.State.{Inode, set_inode, to_u64}
use cs330_assignments.FileSystem.Bytes.{flat_read}
use cs330_assignments.OpenFiles.State.{Store, File, FileOps, standard, no_ops, einval, retain}
use cs330_assignments.OpenFiles.Opening.{alloc_file, fd_loop}
use cs330_assignments.OpenFiles.Regular.{o_read, o_write, eacces, do_read_regular, do_write_regular}
use cs330_assignments.Kernel.State.{Kernel}

-- `STDIN` of Assignment2/include/file.h.
abbrev pub stdin : ℕ
stdin = 0

abbrev pub stdout : ℕ
stdout = 1

abbrev pub stderr : ℕ
stderr = 2

-- The handlers of standard input, or of the two kinds of output.
abbrev pub standard_ops : ℕ → FileOps
standard_ops kind =
    if kind == stdin
    then record no_ops { read = standard; close = standard }
    else record no_ops { write = standard; close = standard }

unfoldable pub create_standard_io : ℕ → ℕ → Store → Store
create_standard_io kind page s =
    let s' = alloc_file page s in
    record s' {
      object = update s'.object page (record (s'.object page) {
        kind = kind;
        mode = if kind == stdin then o_read else o_write;
        fops = standard_ops kind;
      });
    }

-- The result, the table and the objects.
unfoldable pub open_standard_io : ℕ → ℕ → (ℕ → ℕ) → Store → Option (ℤ × (ℕ → ℕ) × Store)
open_standard_io kind page files s =
    if files kind == 0
    then some (pos kind, update files kind page, create_standard_io kind page s)
    else elim (fd_loop 13 3 files) [
      | none ↦ none
      | some fd ↦ some (pos fd, update files fd (files kind), retain (files kind) s)
    ]

-- The inode that an object points to.
abbrev pub inode_of : Kernel → File → Option Inode
inode_of k f = elim f.inode [ none ↦ none | some i ↦ some (k.sb.inode i) ]

abbrev pub set_object : Kernel → ℕ → File → Kernel
set_object k a f = record k { store = record k.store { object = update k.store.object a f } }

-- The kernel after a write through an object: its offset, its inode and the memory of the files.
abbrev pub set_written : Kernel → ℕ → File → Option Inode → Memory → Kernel
set_written k a f n mem = record (set_object k a f) {
  mem = mem;
  sb = elim f.inode [
    | none ↦ k.sb
    | some i ↦ elim n [ none ↦ k.sb | some n' ↦ set_inode k.sb i n' ]
  ];
}

-- `do_write_regular` on the object at an address.
unfoldable pub write_object : ℕ → (ℕ → ℕ) → ℕ → Kernel → ℤ × Kernel
write_object a buf count k =
    let f = k.store.object a in
    let w = do_write_regular f (inode_of k f) buf count k.mem in (w.0, set_written k a w.1 w.2 w.3)

-- `do_read_regular` on the object at an address: the result, the buffer and the kernel.
unfoldable pub read_object : ℕ → (ℕ → ℕ) → ℕ → Kernel → ℤ × (ℕ → ℕ) × Kernel
read_object a buf count k =
    let f = k.store.object a in
    let r = do_read_regular f (inode_of k f) buf count k.mem in (r.0, r.2, set_object k a r.1)

-- The count that a result of the kernel, an `int`, is passed on as.
abbrev pub as_count : ℤ → ℕ
as_count z = to_u64 z % 2 ^ 32

-- The first half of `do_sendfile`: the bytes read into the buffer, with the caller's offset, a
-- 64-bit word whose lower half is what `flat_read` sees.
unfoldable pub send_read :
    ℕ → Option ℕ → ℕ → (ℕ → ℕ) → Kernel → Option (ℤ × (ℕ → ℕ) × Option ℕ × Kernel)
send_read a none count buf k = let r = read_object a buf count k in some (r.0, r.1, none, r.2)
send_read a (some offset) count buf k = elim (inode_of k (k.store.object a)) [
  | none ↦ none
  | some n ↦
      let r = flat_read n buf count (offset % 2 ^ 32) k.mem in
      some (r.0, r.1, some ((offset + to_u64 r.0) % 2 ^ 64), k)
]

-- The result, the caller's offset and the kernel. `buf` is what the page of the buffer holds, and
-- `offset` is `none` where its pointer is null.
unfoldable pub do_sendfile :
    ℕ → ℕ → Option ℕ → ℕ → (ℕ → ℕ) → (ℕ → ℕ) → Kernel → Option (ℤ × Option ℕ × Kernel)
do_sendfile outfd infd offset count buf files k =
    if files infd == 0
    then some (einval, offset, k)
    else if files outfd == 0
    then some (einval, offset, k)
    else if bit_and (k.store.object (files infd)).mode o_read == 0
    then some (eacces, offset, k)
    else if bit_and (k.store.object (files outfd)).mode o_write == 0
    then some (eacces, offset, k)
    else elim (send_read (files infd) offset count buf k) [
      | none ↦ none
      | some (z, buf', offset', k') ↦
          let w = write_object (files outfd) buf' (as_count z) k' in some (w.0, offset', w.1)
    ]
