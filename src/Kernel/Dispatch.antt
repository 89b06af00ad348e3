-- ===== src/Kernel/Dispatch.antt =====
-- The switch of `do_syscall` (Assignment2/entry.c): which handler a system call reaches, and with
-- which arguments. A parameter that the handler takes as an `int` or a `u32` loses its upper half.
mod Numbers
pub use Numbers.*
use cs330_assignments.Base.{ℕ, ◌%◌, ◌^◌, ◌==◌, if◌then◌else◌}

-- The handlers, and the cases that the switch serves itself. The code of an exit is only printed.
pub data Call : Type 0 where
  exit_call : Call
  getpid_call : Call
  expand_call : ℕ → ℕ → Call
  shrink_call : ℕ → ℕ → Call
  alarm_call : ℕ → Call
  sleep_call : ℕ → Call
  signal_call : ℕ → ℕ → Call
  clone_call : ℕ → ℕ → Call
  fork_call : Call
  cfork_call : Call
  vfork_call : Call
  stats_call : Call
  user_pages_call : Call
  cow_faults_call : Call
  configure_call : ℕ → Call
  phys_info_call : Call
  dump_call : ℕ → Call
  mmap_call : ℕ → ℕ → ℕ → ℕ → Call
  munmap_call : ℕ → ℕ → Call
  mprotect_call : ℕ → ℕ → ℕ → Call
  pmap_call : ℕ → Call
  open_call : ℕ → ℕ → ℕ → Call
  read_call : ℕ → ℕ → ℕ → Call
  write_call : ℕ → ℕ → ℕ → Call
  pipe_call : ℕ → Call
  dup2_call : ℕ → ℕ → Call
  close_call : ℕ → Call
  lseek_call : ℕ → ℕ → ℕ → Call
  create_msg_queue_call : Call
  member_info_call : ℕ → ℕ → Call
  send_call : ℕ → ℕ → Call
  msg_count_call : ℕ → Call
  receive_call : ℕ → ℕ → Call
  block_call : ℕ → ℕ → Call
  queue_close_call : ℕ → Call
  sendfile_call : ℕ → ℕ → ℕ → ℕ → Call
  unknown_call : Call

abbrev low : ℕ → ℕ
low w = w % 2 ^ 32

-- `param i` is the i-th parameter, a 64-bit word.
unfoldable pub dispatch : ℕ → (ℕ → ℕ) → Call
dispatch syscall param =
    if syscall == sys_exit
    then exit_call
    else if syscall == sys_getpid
    then getpid_call
    else if syscall == sys_expand
    then expand_call (param 1) (low (param 2))
    else if syscall == sys_shrink
    then shrink_call (param 1) (low (param 2))
    else if syscall == sys_alarm
    then alarm_call (low (param 1))
    else if syscall == sys_sleep
    then sleep_call (low (param 1))
    else if syscall == sys_signal
    then signal_call (low (param 1)) (param 2)
    else if syscall == sys_clone
    then clone_call (param 1) (param 2)
    else if syscall == sys_fork
    then fork_call
    else if syscall == sys_cfork
    then cfork_call
    else if syscall == sys_vfork
    then vfork_call
    else if syscall == sys_stats
    then stats_call
    else if syscall == sys_get_user_p
    then user_pages_call
    else if syscall == sys_get_cow_f
    then cow_faults_call
    else if syscall == sys_configure
    then configure_call (param 1)
    else if syscall == sys_phys_info
    then phys_info_call
    else if syscall == sys_dump_ptt
    then dump_call (param 1)
    else if syscall == sys_mmap
    then mmap_call (param 1) (low (param 2)) (low (param 3)) (low (param 4))
    else if syscall == sys_munmap
    then munmap_call (param 1) (low (param 2))
    else if syscall == sys_mprotect
    then mprotect_call (param 1) (low (param 2)) (low (param 3))
    else if syscall == sys_pmap
    then pmap_call (low (param 1))
    else if syscall == sys_open
    then open_call (param 1) (param 2) (param 3)
    else if syscall == sys_read
    then read_call (param 1) (param 2) (param 3)
    else if syscall == sys_write
    then write_call (param 1) (param 2) (param 3)
    else if syscall == sys_pipe
    then pipe_call (param 1)
    else if syscall == sys_dup2
    then dup2_call (low (param 1)) (low (param 2))
    else if syscall == sys_close
    then close_call (low (param 1))
    else if syscall == sys_lseek
    then lseek_call (low (param 1)) (param 2) (low (param 3))
    else if syscall == sys_create_msg_queue
    then create_msg_queue_call
    else if syscall == sys_get_member_info
    then member_info_call (param 1) (param 2)
    else if syscall == sys_msg_queue_send
    then send_call (param 1) (param 2)
    else if syscall == sys_get_msg_count
    then msg_count_call (param 1)
    else if syscall == sys_msg_queue_rcv
    then receive_call (param 1) (param 2)
    else if syscall == sys_msg_queue_block
    then block_call (param 1) (low (param 2))
    else if syscall == sys_msg_queue_close
    then queue_close_call (low (param 1))
    else if syscall == sys_sendfile
    then sendfile_call (low (param 1)) (low (param 2)) (param 3) (low (param 4))
    else unknown_call
