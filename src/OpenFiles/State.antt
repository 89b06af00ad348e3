-- ===== src/OpenFiles/State.antt =====
-- File objects and the operations on their reference counts (Assignment2/file.c,
-- Assignment2/include/file.h). The table of a process maps descriptors to addresses of objects, and
-- the address 0 is the null pointer.
use cs330_assignments.Base.{
  ℕ, zero, suc, Bool, true, false, ◌||◌, Option, none, some, ℤ, pos, minus_one, ◌==◌, if◌then◌else◌,
  update, dec32, dec64, inc32,
}

abbrev pub max_open_files : ℕ
max_open_files = 16

-- -EINVAL
abbrev pub einval : ℤ
einval = minus_one

-- What a field of `struct fileops` points to: nothing, the handler of standard input and output for
-- the field, or the one of regular files.
pub data Handler : Type 0 where
  no_handler : Handler
  standard : Handler
  on_inode : Handler

pub record FileOps : Type 0 where
  pub read : Handler
  pub write : Handler
  pub lseek : Handler
  pub close : Handler

abbrev pub is_null : Handler → Bool
is_null no_handler = true
is_null h = false

-- All pointers null.
abbrev pub no_ops : FileOps
no_ops = record { read = no_handler; write = no_handler; lseek = no_handler; close = no_handler }

-- `struct file`, with the index of its inode; `none` is the null pointer. A message queue is its
-- address, and 0 is the null pointer.
pub record File : Type 0 where
  pub kind : ℕ
  pub mode : ℕ
  pub offp : ℕ
  pub ref_count : ℕ
  pub inode : Option ℕ
  pub fops : FileOps
  pub msg_queue : ℕ

-- The objects by address, which of them are allocated, and how many (`stats->file_objects`).
pub record Store : Type 0 where
  pub object : ℕ → File
  pub live : ℕ → Bool
  pub file_objects : ℕ

abbrev pub set_count : Store → ℕ → ℕ → Store
set_count s a n = record s { object = update s.object a (record (s.object a) { ref_count = n }) }

unfoldable pub free_file_object : ℕ → Store → Store
free_file_object a s =
    if a == 0
    then s
    else record s { live = update s.live a false; file_objects = dec64 s.file_objects }

-- One reference less, with the object freed at the last one.
unfoldable pub release : ℕ → Store → Store
release a s =
    let n = dec32 (s.object a).ref_count in
    if n == 0 then free_file_object a (set_count s a n) else set_count s a n

-- One reference more.
unfoldable pub retain : ℕ → Store → Store
retain a s = set_count s a (inc32 (s.object a).ref_count)

unfoldable pub std_close : ℕ → Store → ℤ × Store
std_close a s = (pos 0, release a s)

unfoldable pub do_file_close : ℕ → Store → ℤ × Store
do_file_close a s = if a == 0 then (einval, s) else (pos 0, release a s)

-- The loop over the descriptors of a process that exits, with `rounds` left from `i` on.
unfoldable pub exit_loop : ℕ → ℕ → (ℕ → ℕ) → Store → Store
exit_loop zero i files s = s
exit_loop (suc rounds) i files s =
    exit_loop rounds (suc i) files (if files i == 0 then s else release (files i) s)

unfoldable pub do_file_exit : (ℕ → ℕ) → Store → Store
do_file_exit files s = exit_loop max_open_files 0 files s

-- The result, the table and the objects.
unfoldable pub fd_dup2 : ℕ → ℕ → (ℕ → ℕ) → Store → ℤ × (ℕ → ℕ) × Store
fd_dup2 oldfd newfd files s =
    if files oldfd == 0
    then (einval, files, s)
    else (let s' = if files newfd == 0 then s else (do_file_close (files newfd) s).1 in
        let files' = update files newfd (files oldfd) in
        (pos newfd, files', retain (files' oldfd) s'))

-- The handler that `fops->close` points to, on an object.
unfoldable pub run_close : Handler → ℕ → Store → ℤ × Store
run_close standard a s = std_close a s
run_close h a s = do_file_close a s

-- `do_close` of Assignment2/entry.c. It returns no value where the file can be closed, which is
-- `none`.
unfoldable pub do_close : ℕ → (ℕ → ℕ) → Store → Option ℤ × (ℕ → ℕ) × Store
do_close fd files s =
    if (files fd == 0) || is_null (s.object (files fd)).fops.close
    then (some einval, files, s)
    else (none, update files fd 0, (run_close (s.object (files fd)).fops.close (files fd) s).1)
