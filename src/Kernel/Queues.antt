-- ===== src/Kernel/Queues.antt =====
-- The calls of Assignment2/msg_queue.c that work on the table of open files. `info` and `page` are
-- the addresses that `os_page_alloc` hands out for the queue and for the file object; the page of
-- the messages is taken to exist, as the source does.
pub mod Fork
pub mod Create
use cs330_assignments.Base.{
  ℕ, zero, suc, ◌^◌, Bool, true, false, ◌||◌, Option, none, some, ℤ, pos, leb, ◌==◌, if◌then◌else◌,
  update,
}
use cs330_assignments.MsgQueue.State.{MsgQueueInfo, einval, enomem, max_members}
use cs330_assignments.MsgQueue.Members.{add_member, clear_row, close_queue}
use cs330_assignments.OpenFiles.State.{
  Store, File, FileOps, no_ops, no_handler, free_file_object, max_open_files,
}
use cs330_assignments.OpenFiles.Opening.{alloc_file, fd_loop}
use cs330_assignments.Kernel.State.{Kernel, queue_of, set_queue}

-- `MSG_QUEUE` of Assignment2/include/file.h.
abbrev pub msg_queue_file : ℕ
msg_queue_file = 5

-- The rows of the matrix from `i` on are cleared.
unfoldable pub clear_rows : ℕ → ℕ → (ℕ → ℕ) → ℕ → ℕ
clear_rows zero i block = block
clear_rows (suc rounds) i block = clear_rows rounds (suc i) (clear_row max_members i 0 block)

-- A queue whose one member is the caller.
unfoldable pub new_queue : ℕ → MsgQueueInfo → MsgQueueInfo
new_queue pid q = record q {
  member_count = 1;
  member_pid = update q.member_pid 0 pid;
  msg_count = 0;
  block_process = clear_rows max_members 0 q.block_process;
}

-- The file object of a queue.
abbrev pub set_queue_file : ℕ → ℕ → Store → Store
set_queue_file page info s =
    let s' = alloc_file page s in
    record s' {
      object =
          update s'.object page
            (record (s'.object page) { fops = no_ops; msg_queue = info; kind = msg_queue_file });
    }

-- The result, the table and the kernel.
unfoldable pub do_create_msg_queue : ℕ → ℕ → ℕ → (ℕ → ℕ) → Kernel → ℤ × (ℕ → ℕ) × Kernel
do_create_msg_queue pid info page files k = elim (fd_loop 13 3 files) [
  | none ↦ (enomem, files, k)
  | some fd ↦
      if info == 0
      then (enomem, files, k)
      else (let k' = set_queue k info (new_queue pid (k.queue info)) in
          if page == 0 then (enomem, files, record k' { store = alloc_file page k.store }) else (
            pos fd,
            update files fd page,
            record k' {
              queue_live = update k.queue_live info true;
              store = set_queue_file page info k.store;
            },
          ))
]

-- The loop of `do_add_child_to_msg_queue` over the descriptors of the child, with `rounds` left
-- from `fd` on; `none` where the write would leave the array of members.
unfoldable pub add_child_loop : ℕ → ℕ → ℕ → (ℕ → ℕ) → Kernel → Option Kernel
add_child_loop zero fd pid files k = some k
add_child_loop (suc rounds) fd pid files k =
    let skip = add_child_loop rounds (suc fd) pid files k in
    let a = queue_of k (files fd) in
    if (files fd == 0) || (a == 0) then skip else elim (add_member pid (k.queue a)) [
      | none ↦ none
      | some q ↦ add_child_loop rounds (suc fd) pid files (set_queue k a q)
    ]

unfoldable pub do_add_child_to_msg_queue : ℕ → (ℕ → ℕ) → Kernel → Option Kernel
do_add_child_to_msg_queue pid files k = add_child_loop max_open_files 0 pid files k

-- The kernel after a member has left the queue at an address; `empty` says that it was the last
-- one, and the queue and the file object at `page` are freed.
abbrev pub left_queue : ℕ → ℕ → MsgQueueInfo → Bool → Kernel → Kernel
left_queue page a q empty k =
    let k' = set_queue k a q in
    if empty
    then record k' {
      queue_live = update k.queue_live a false;
      store = free_file_object page k.store;
    }
    else k'

-- `fd` is the 32-bit pattern of the `int` argument.
unfoldable pub do_msg_queue_close : ℕ → ℕ → (ℕ → ℕ) → Kernel → ℤ × (ℕ → ℕ) × Kernel
do_msg_queue_close pid fd files k =
    if leb (2 ^ 31) fd
    then (einval, files, k)
    else if files fd == 0
    then (einval, files, k)
    else (let a = queue_of k (files fd) in
        if a == 0 then (einval, files, k) else elim (close_queue pid (k.queue a)) [
          | none ↦ (einval, files, k)
          | some (q, empty) ↦ (pos 0, update files fd 0, left_queue (files fd) a q empty k)
        ])

-- The loop of `do_msg_queue_cleanup`: the table and the kernel.
unfoldable pub cleanup_loop : ℕ → ℕ → ℕ → (ℕ → ℕ) → Kernel → (ℕ → ℕ) × Kernel
cleanup_loop zero i pid files k = (files, k)
cleanup_loop (suc rounds) i pid files k =
    let skip = cleanup_loop rounds (suc i) pid files k in
    if (files i == 0) || (queue_of k (files i) == 0)
    then skip
    else (let r = do_msg_queue_close pid i files k in cleanup_loop rounds (suc i) pid r.1 r.2)

unfoldable pub do_msg_queue_cleanup : ℕ → (ℕ → ℕ) → Kernel → (ℕ → ℕ) × Kernel
do_msg_queue_cleanup pid files k = cleanup_loop max_open_files 0 pid files k
