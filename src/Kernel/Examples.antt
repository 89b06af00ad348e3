-- ===== src/Kernel/Examples.antt =====
-- The theorems on the kernel's calls at a concrete state.
use cs330_assignments.Base.{ℕ, refl, arith, none, some, [], ◌==◌, if◌then◌else◌, pos}
use cs330_assignments.FileSystem.Examples.{empty_table, empty_table-TableInOrder}
use cs330_assignments.MsgQueue.State.{Message, MsgQueueInfo, no_pid}
use cs330_assignments.OpenFiles.State.{File, no_ops, max_open_files}
use cs330_assignments.OpenFiles.Opening.{regular_ops}
use cs330_assignments.Kernel.State.{Kernel}
use cs330_assignments.Kernel.Queues.{do_add_child_to_msg_queue}
use cs330_assignments.Kernel.Queues.Fork.{Fork, do_add_child_to_msg_queue-Fork}
use cs330_assignments.Kernel.Calls.{Devices}
use cs330_assignments.Kernel.Calls.Through.{OpenFile}
use cs330_assignments.Kernel.Calls.RoundTrip.{ReadsBack, write_seek_read, write_seek_read-ReadsBack}

-- A regular file at descriptor 3, and a queue of process 1 at descriptors 4 and 5.
abbrev regular_file : File
regular_file = record {
  kind = 3;
  mode = 3;
  offp = 0;
  ref_count = 1;
  inode = some 0;
  fops = regular_ops;
  msg_queue = 0;
}

abbrev queue_file : File
queue_file = record {
  kind = 5;
  mode = 0;
  offp = 0;
  ref_count = 2;
  inode = none;
  fops = no_ops;
  msg_queue = 9000;
}

abbrev letter : Message
letter = record { from_pid = 1; to_pid = 2; msg_txt = [] }

abbrev lone_queue : MsgQueueInfo
lone_queue = record {
  member_count = 1;
  member_pid = λ i. 1;
  msg_count = 0;
  msg_buffer = λ i. letter;
  block_process = λ x. no_pid;
}

abbrev table : ℕ → ℕ
table i = if i == 3 then 4096 else if i == 4 then 8192 else if i == 5 then 8192 else 0

abbrev kernel : Kernel
kernel = record {
  store = record {
    object = λ a. if a == 4096 then regular_file else queue_file;
    live = λ a. (a == 4096);
    file_objects = 2;
  };
  queue = λ a. lone_queue;
  queue_live = λ a. (a == 9000);
  sb = empty_table;
  mem = λ a. 0;
}

-- The child becomes a member twice.
do_add_child_to_msg_queue-Fork_example :
    Fork max_open_files 0 2 table kernel (do_add_child_to_msg_queue 2 table kernel)
do_add_child_to_msg_queue-Fork_example = do_add_child_to_msg_queue-Fork 2 table kernel

abbrev devices : Devices
devices = record { kbd_read = λ b. b; do_write = λ b n. pos n }

table_3-OpenFile : OpenFile table 3 0 0 kernel
table_3-OpenFile = record {
  used = omega arith;
  ready = record {
    reads = refl;
    writes = refl;
    seeks = refl;
    may_read = refl;
    may_write = refl;
    index = refl;
    position = refl;
  };
  order = empty_table-TableInOrder.files 0 (omega arith);
}

write_seek_read-ReadsBack_example :
    ReadsBack (λ j. j) 20 0 (write_seek_read devices 3 0 (λ j. j) (λ j. 7) 20 table kernel)
write_seek_read-ReadsBack_example =
    write_seek_read-ReadsBack devices table 3 0 0 kernel (λ j. j) (λ j. 7) 20 table_3-OpenFile
      (omega arith) (omega arith)
