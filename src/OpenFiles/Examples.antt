-- ===== src/OpenFiles/Examples.antt =====
-- Runs of the model of Assignment2/file.c, and its theorems at a concrete table of open files.
use cs330_assignments.Base.{
  ℕ, ◌+◌, ◌%◌, ◌^◌, ◌≡◌, ◌≢◌, refl, arith, some, [], if◌then◌else◌, ◌==◌, Memory,
}
use cs330_assignments.FileSystem.State.{Inode}
use cs330_assignments.FileSystem.Bytes.File.{FileInOrder}
use cs330_assignments.OpenFiles.State.{File, Store, do_close, do_file_exit, fd_dup2, max_open_files}
use cs330_assignments.OpenFiles.Balance.{Balanced, refs, held}
use cs330_assignments.OpenFiles.Exit.{do_file_exit-Balanced}
use cs330_assignments.OpenFiles.Dup.{Duplicates, Closes, fd_dup2-Duplicates, do_close-Closes}
use cs330_assignments.OpenFiles.Regular.{do_write_regular}
use cs330_assignments.OpenFiles.Regular.Offset.{Writes, do_write_regular-Writes}
use cs330_assignments.OpenFiles.Opening.{regular_ops}
use cs330_assignments.OpenFiles.Opening.Files.{Opening}

-- One object, at descriptor 3.
abbrev opened : File
opened = record {
  kind = 3;
  mode = 3;
  offp = 90;
  ref_count = 1;
  inode = some 0;
  fops = regular_ops;
  msg_queue = 0;
}

abbrev table : ℕ → ℕ
table i = if i == 3 then 4096 else 0

abbrev nowhere : ℕ → ℕ
nowhere a = 0

abbrev store : Store
store = record { object = λ a. opened; live = λ a. a == 4096; file_objects = 1 }

table_refs : (a : ℕ) → a ≢ 0 → refs max_open_files 0 table a ≡ (if a == 4096 then 1 else 0)
unfolding refs
table_refs a n = ground arith

store-Balanced : Balanced (held max_open_files 0 table nowhere) store
store-Balanced = record {
  live = λ a n. ground (arith, table_refs a n);
  count = λ a n p. ground (arith, table_refs a n);
  bound = λ a n. ground (arith, table_refs a n);
}

do_file_exit-Balanced_example : Balanced nowhere (do_file_exit table store)
do_file_exit-Balanced_example = do_file_exit-Balanced table nowhere store store-Balanced

fd_dup2-Duplicates_example : Duplicates 3 5 table nowhere (fd_dup2 3 5 table store)
fd_dup2-Duplicates_example =
    fd_dup2-Duplicates 3 5 table nowhere store (omega arith) (omega arith) (omega arith)
      (omega arith) (λ a. omega arith) store-Balanced

do_close-Closes_example : Closes 3 table nowhere store (do_close 3 table store)
do_close-Closes_example =
    do_close-Closes 3 table nowhere store (omega arith) (omega arith) store-Balanced

-- A file that holds 100 bytes.
abbrev hundred : Inode
hundred = record {
  is_valid = 1;
  filename = [];
  mode = 3;
  kind = 3;
  inode_no = 0;
  ref_count = 0;
  s_pos = 2 ^ 20;
  e_pos = 2 ^ 20 + 4096;
  max_pos = 2 ^ 20 + 100;
  file_size = 100;
}

hundred-FileInOrder : FileInOrder hundred
hundred-FileInOrder = record {
  capacity = refl;
  region = omega arith;
  fits = omega arith;
  size = refl;
}

abbrev bytes : Memory
bytes = λ a. a % 256

abbrev buffer : ℕ → ℕ
buffer = λ i. 1

do_write_regular-Writes_example :
    Writes opened hundred buffer 20 bytes (do_write_regular opened (some hundred) buffer 20 bytes)
do_write_regular-Writes_example =
    do_write_regular-Writes opened hundred buffer 20 bytes hundred-FileInOrder (omega arith)
      (omega arith) (omega arith)
