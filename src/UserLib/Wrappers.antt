-- ===== src/UserLib/Wrappers.antt =====
-- The system calls of the user library (Assignment2/user/lib.c). `rest` is what the registers of
-- the parameters hold otherwise; an `int` is its 32-bit pattern.
use cs330_assignments.Base.{ℕ, ◌+◌, ◌-◌, ◌^◌, ◌==◌, if◌then◌else◌, update, ltb, bit_and}
use cs330_assignments.UserLib.Numbers.{
  sys_exit, sys_getpid, sys_expand, sys_sleep, sys_signal, sys_clone, sys_fork, sys_stats,
  sys_configure, sys_phys_info, sys_dump_ptt, sys_cfork, sys_mmap, sys_munmap, sys_mprotect,
  sys_pmap, sys_vfork, sys_get_user_p, sys_get_cow_f, sys_open, sys_read, sys_write, sys_pipe,
  sys_dup, sys_dup2, sys_close, sys_lseek, sys_sendfile, sys_create_msg_queue, sys_get_member_info,
  sys_get_msg_count, sys_msg_queue_block, sys_msg_queue_rcv, sys_msg_queue_send,
  sys_msg_queue_close,
}

-- What the trap hands to the kernel: the number, and the i-th parameter.
pub record Request : Type 0 where
  pub number : ℕ
  pub param : ℕ → ℕ

-- An `int` as the 64-bit word that it is passed as.
abbrev pub sign_extend : ℕ → ℕ
sign_extend w = if ltb w (2 ^ 31) then w else 2 ^ 64 - 2 ^ 32 + w

abbrev pub o_creat : ℕ
o_creat = 8

module _ (rest : ℕ → ℕ) where
  abbrev pub syscall0 : ℕ → Request
  syscall0 n = record { number = n; param = rest }

  abbrev pub syscall1 : ℕ → ℕ → Request
  syscall1 n a = record { number = n; param = update rest 1 a }

  abbrev pub syscall2 : ℕ → ℕ → ℕ → Request
  syscall2 n a b = record { number = n; param = update (update rest 1 a) 2 b }

  abbrev pub syscall3 : ℕ → ℕ → ℕ → ℕ → Request
  syscall3 n a b c = record { number = n; param = update (update (update rest 1 a) 2 b) 3 c }

  abbrev pub syscall4 : ℕ → ℕ → ℕ → ℕ → ℕ → Request
  syscall4 n a b c d = record {
    number = n;
    param = update (update (update (update rest 1 a) 2 b) 3 c) 4 d;
  }

  unfoldable pub exit : ℕ → Request
  exit code = syscall1 sys_exit (sign_extend code)

  unfoldable pub getpid : Request
  getpid = syscall0 sys_getpid

  unfoldable pub fork : Request
  fork = syscall0 sys_fork

  unfoldable pub cfork : Request
  cfork = syscall0 sys_cfork

  unfoldable pub vfork : Request
  vfork = syscall0 sys_vfork

  unfoldable pub physinfo : Request
  physinfo = syscall0 sys_phys_info

  unfoldable pub get_stats : Request
  get_stats = syscall0 sys_stats

  unfoldable pub get_user_page_stats : Request
  get_user_page_stats = syscall0 sys_get_user_p

  unfoldable pub get_cow_fault_stats : Request
  get_cow_fault_stats = syscall0 sys_get_cow_f

  unfoldable pub configure : ℕ → Request
  configure new_config = syscall1 sys_configure new_config

  unfoldable pub dump_page_table : ℕ → Request
  dump_page_table address = syscall1 sys_dump_ptt address

  unfoldable pub signal : ℕ → ℕ → Request
  signal num handler = syscall2 sys_signal (sign_extend num) handler

  unfoldable pub sleep : ℕ → Request
  sleep ticks = syscall1 sys_sleep (sign_extend ticks)

  unfoldable pub expand : ℕ → ℕ → Request
  expand size flags = syscall2 sys_expand size (sign_extend flags)

  unfoldable pub clone : ℕ → ℕ → Request
  clone func stack_addr = syscall2 sys_clone func stack_addr

  unfoldable pub mmap : ℕ → ℕ → ℕ → ℕ → Request
  mmap addr length prot flags =
      syscall4 sys_mmap addr (sign_extend length) (sign_extend prot) (sign_extend flags)

  unfoldable pub munmap : ℕ → ℕ → Request
  munmap addr length = syscall2 sys_munmap addr (sign_extend length)

  unfoldable pub mprotect : ℕ → ℕ → ℕ → Request
  mprotect addr length prot = syscall3 sys_mprotect addr (sign_extend length) (sign_extend prot)

  unfoldable pub pmap : ℕ → Request
  pmap details = syscall1 sys_pmap (sign_extend details)

  -- `open`; the mode is passed on only with O_CREAT.
  unfoldable pub open_file : ℕ → ℕ → ℕ → Request
  open_file filename flags mode =
      if bit_and flags o_creat == o_creat
      then syscall3 sys_open filename (sign_extend flags) mode
      else syscall2 sys_open filename (sign_extend flags)

  unfoldable pub read : ℕ → ℕ → ℕ → Request
  read fd buf count = syscall3 sys_read (sign_extend fd) buf (sign_extend count)

  unfoldable pub write : ℕ → ℕ → ℕ → Request
  write fd buf count = syscall3 sys_write (sign_extend fd) buf (sign_extend count)

  unfoldable pub pipe : ℕ → Request
  pipe fd = syscall1 sys_pipe fd

  unfoldable pub dup : ℕ → Request
  dup oldfd = syscall1 sys_dup (sign_extend oldfd)

  unfoldable pub dup2 : ℕ → ℕ → Request
  dup2 oldfd newfd = syscall2 sys_dup2 (sign_extend oldfd) (sign_extend newfd)

  unfoldable pub close : ℕ → Request
  close fd = syscall1 sys_close (sign_extend fd)

  unfoldable pub lseek : ℕ → ℕ → ℕ → Request
  lseek fd offset whence = syscall3 sys_lseek (sign_extend fd) offset (sign_extend whence)

  unfoldable pub sendfile : ℕ → ℕ → ℕ → ℕ → Request
  sendfile outfd infd offset count =
      syscall4 sys_sendfile (sign_extend outfd) (sign_extend infd) offset (sign_extend count)

  unfoldable pub create_msg_queue : Request
  create_msg_queue = syscall0 sys_create_msg_queue

  unfoldable pub get_member_info : ℕ → ℕ → Request
  get_member_info fd info = syscall2 sys_get_member_info (sign_extend fd) info

  unfoldable pub msg_queue_send : ℕ → ℕ → Request
  msg_queue_send fd msg = syscall2 sys_msg_queue_send (sign_extend fd) msg

  unfoldable pub msg_queue_rcv : ℕ → ℕ → Request
  msg_queue_rcv fd msg = syscall2 sys_msg_queue_rcv (sign_extend fd) msg

  unfoldable pub get_msg_count : ℕ → Request
  get_msg_count fd = syscall1 sys_get_msg_count (sign_extend fd)

  unfoldable pub msg_queue_block : ℕ → ℕ → Request
  msg_queue_block fd pid = syscall2 sys_msg_queue_block (sign_extend fd) (sign_extend pid)

  unfoldable pub msg_queue_close : ℕ → Request
  msg_queue_close fd = syscall1 sys_msg_queue_close (sign_extend fd)
