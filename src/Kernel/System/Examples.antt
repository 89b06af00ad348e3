-- ===== src/Kernel/System/Examples.antt =====
-- The theorems on the processes and their queues at a concrete run.
use cs330_assignments.Base.{false, none, some, [], ◌==◌}
use cs330_assignments.FileSystem.Examples.{empty_table}
use cs330_assignments.MsgQueue.State.{no_pid}
use cs330_assignments.OpenFiles.State.{File, no_ops}
use cs330_assignments.Kernel.Queues.{do_create_msg_queue}
use cs330_assignments.Kernel.System.{System, do_fork, do_exit, after_call}

abbrev plain : File
plain = record {
  kind = 3;
  mode = 3;
  offp = 0;
  ref_count = 1;
  inode = none;
  fops = no_ops;
  msg_queue = 0;
}

-- Process 1 runs, and nothing is open.
abbrev boot : System
boot = record {
  running = λ p. p == 1;
  table = λ p fd. 0;
  num_processes = 1;
  kernel = record {
    store = record { object = λ a. plain; live = λ a. false; file_objects = 0 };
    queue = λ a. record {
      member_count = 0;
      member_pid = λ i. no_pid;
      msg_count = 0;
      msg_buffer = λ i. record { from_pid = 0; to_pid = 0; msg_txt = [] };
      block_process = λ x. no_pid;
    };
    queue_live = λ a. false;
    sb = empty_table;
    mem = λ a. 0;
  };
}

-- Process 1 creates a queue at 9000 with a file object at 8192.
abbrev with_queue : System
with_queue =
    let r = do_create_msg_queue 1 9000 8192 (boot.table 1) boot.kernel in after_call boot 1 r.1 r.2

-- It forks process 2.
abbrev with_child : System
with_child = elim (do_fork (λ o. o) 1 2 with_queue) [ none ↦ with_queue | some s ↦ s ]

-- The parent exits, and then the child.
abbrev orphan : System
orphan = (do_exit 1 with_child).1

abbrev after_exits : System
after_exits = (do_exit 2 orphan).1
