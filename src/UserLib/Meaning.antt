-- ===== src/UserLib/Meaning.antt =====
-- Which handler of the kernel (Assignment2/entry.c) a call of the user library
-- (Assignment2/user/lib.c) reaches, and with which arguments.
use cs330_assignments.Base.{ℕ, ◌%◌, ◌^◌, ◌<◌, ◌≡◌, refl, arith, bit_and, ◌==◌, true, false}
use cs330_assignments.Kernel.Dispatch.{
  Call, dispatch, exit_call, getpid_call, expand_call, sleep_call, signal_call, clone_call,
  fork_call, cfork_call, vfork_call, stats_call, user_pages_call, cow_faults_call, configure_call,
  phys_info_call, dump_call, mmap_call, munmap_call, mprotect_call, pmap_call, open_call, read_call,
  write_call, pipe_call, dup2_call, close_call, lseek_call, create_msg_queue_call, member_info_call,
  send_call, msg_count_call, receive_call, block_call, queue_close_call, sendfile_call,
  unknown_call,
}
use cs330_assignments.UserLib.Wrappers.{
  Request, sign_extend, o_creat, open_file, exit, getpid, fork, cfork, vfork, physinfo, get_stats,
  get_user_page_stats, get_cow_fault_stats, configure, dump_page_table, signal, sleep, expand,
  clone, mmap, munmap, mprotect, pmap, read, write, pipe, dup, dup2, close, lseek, sendfile,
  create_msg_queue, get_member_info, msg_queue_send, msg_queue_rcv, get_msg_count, msg_queue_block,
  msg_queue_close,
}

-- What a request of the library is meant to reach. A descriptor that the handler takes as a `u64`
-- arrives with its sign extended.
pub data Meant (rest : ℕ → ℕ) : Request → Call → Type 0 where
  for_exit : (code : ℕ) → Meant rest (exit rest code) (exit_call)
  for_getpid : Meant rest (getpid rest) (getpid_call)
  for_fork : Meant rest (fork rest) (fork_call)
  for_cfork : Meant rest (cfork rest) (cfork_call)
  for_vfork : Meant rest (vfork rest) (vfork_call)
  for_physinfo : Meant rest (physinfo rest) (phys_info_call)
  for_get_stats : Meant rest (get_stats rest) (stats_call)
  for_get_user_page_stats : Meant rest (get_user_page_stats rest) (user_pages_call)
  for_get_cow_fault_stats : Meant rest (get_cow_fault_stats rest) (cow_faults_call)
  for_configure :
      (new_config : ℕ) → Meant rest (configure rest new_config) (configure_call new_config)
  for_dump_page_table :
      (address : ℕ) → Meant rest (dump_page_table rest address) (dump_call address)
  for_signal :
      (num : ℕ) (handler : ℕ)
      → num < 2 ^ 32
      → Meant rest (signal rest num handler) (signal_call num handler)
  for_sleep : (ticks : ℕ) → ticks < 2 ^ 32 → Meant rest (sleep rest ticks) (sleep_call ticks)
  for_expand :
      (size : ℕ) (flags : ℕ)
      → flags < 2 ^ 32
      → Meant rest (expand rest size flags) (expand_call size flags)
  for_clone :
      (func : ℕ) (stack_addr : ℕ)
      → Meant rest (clone rest func stack_addr) (clone_call func stack_addr)
  for_mmap :
      (addr : ℕ) (length : ℕ) (prot : ℕ) (flags : ℕ)
      → length < 2 ^ 32
      → prot < 2 ^ 32
      → flags < 2 ^ 32
      → Meant rest (mmap rest addr length prot flags) (mmap_call addr length prot flags)
  for_munmap :
      (addr : ℕ) (length : ℕ)
      → length < 2 ^ 32
      → Meant rest (munmap rest addr length) (munmap_call addr length)
  for_mprotect :
      (addr : ℕ) (length : ℕ) (prot : ℕ)
      → length < 2 ^ 32
      → prot < 2 ^ 32
      → Meant rest (mprotect rest addr length prot) (mprotect_call addr length prot)
  for_pmap : (details : ℕ) → details < 2 ^ 32 → Meant rest (pmap rest details) (pmap_call details)
  for_read :
      (fd : ℕ) (buf : ℕ) (count : ℕ)
      → Meant rest (read rest fd buf count) (read_call (sign_extend fd) buf (sign_extend count))
  for_write :
      (fd : ℕ) (buf : ℕ) (count : ℕ)
      → Meant rest (write rest fd buf count) (write_call (sign_extend fd) buf (sign_extend count))
  for_pipe : (fd : ℕ) → Meant rest (pipe rest fd) (pipe_call fd)
  for_dup : (oldfd : ℕ) → Meant rest (dup rest oldfd) (unknown_call)
  for_dup2 :
      (oldfd : ℕ) (newfd : ℕ)
      → oldfd < 2 ^ 32
      → newfd < 2 ^ 32
      → Meant rest (dup2 rest oldfd newfd) (dup2_call oldfd newfd)
  for_close : (fd : ℕ) → fd < 2 ^ 32 → Meant rest (close rest fd) (close_call fd)
  for_lseek :
      (fd : ℕ) (offset : ℕ) (whence : ℕ)
      → fd < 2 ^ 32
      → whence < 2 ^ 32
      → Meant rest (lseek rest fd offset whence) (lseek_call fd offset whence)
  for_sendfile :
      (outfd : ℕ) (infd : ℕ) (offset : ℕ) (count : ℕ)
      → outfd < 2 ^ 32
      → infd < 2 ^ 32
      → count < 2 ^ 32
      → Meant rest (sendfile rest outfd infd offset count) (sendfile_call outfd infd offset count)
  for_create_msg_queue : Meant rest (create_msg_queue rest) (create_msg_queue_call)
  for_get_member_info :
      (fd : ℕ) (info : ℕ)
      → Meant rest (get_member_info rest fd info) (member_info_call (sign_extend fd) info)
  for_msg_queue_send :
      (fd : ℕ) (msg : ℕ) → Meant rest (msg_queue_send rest fd msg) (send_call (sign_extend fd) msg)
  for_msg_queue_rcv :
      (fd : ℕ) (msg : ℕ)
      → Meant rest (msg_queue_rcv rest fd msg) (receive_call (sign_extend fd) msg)
  for_get_msg_count :
      (fd : ℕ) → Meant rest (get_msg_count rest fd) (msg_count_call (sign_extend fd))
  for_msg_queue_block :
      (fd : ℕ) (pid : ℕ)
      → pid < 2 ^ 32
      → Meant rest (msg_queue_block rest fd pid) (block_call (sign_extend fd) pid)
  for_msg_queue_close :
      (fd : ℕ) → fd < 2 ^ 32 → Meant rest (msg_queue_close rest fd) (queue_close_call fd)
  for_open_new :
      (filename flags mode : ℕ)
      → bit_and flags o_creat ≡ o_creat
      → Meant rest
          (open_file rest filename flags mode)
          (open_call filename (sign_extend flags) mode)
  for_open :
      (filename flags mode : ℕ)
      → (bit_and flags o_creat == o_creat) ≡ false
      → Meant rest
          (open_file rest filename flags mode)
          (open_call filename (sign_extend flags) (rest 3))

low-sign_extend : (w : ℕ) → w < 2 ^ 32 → sign_extend w % 2 ^ 32 ≡ w
low-sign_extend w h = ground arith

-- The switch of do_syscall takes each request of the user library to the handler of the same
-- name with the arguments of the call: an int arrives as it was, or sign-extended where the
-- handler takes a u64, and the mode of open is passed on with O_CREAT. A request of dup reaches
-- no handler.
pub dispatch-Meant :
    (rest : ℕ → ℕ) (r : Request) (c : Call) → Meant rest r c → dispatch r.number r.param ≡ c
unfolding dispatch open_file exit getpid fork cfork vfork physinfo get_stats get_user_page_stats
    get_cow_fault_stats configure dump_page_table signal sleep expand clone mmap munmap mprotect
    pmap read write pipe dup dup2 close lseek sendfile create_msg_queue get_member_info
    msg_queue_send msg_queue_rcv get_msg_count msg_queue_block msg_queue_close
dispatch-Meant rest _ _ (for_exit code) = refl
dispatch-Meant rest _ _ (for_getpid) = refl
dispatch-Meant rest _ _ (for_fork) = refl
dispatch-Meant rest _ _ (for_cfork) = refl
dispatch-Meant rest _ _ (for_vfork) = refl
dispatch-Meant rest _ _ (for_physinfo) = refl
dispatch-Meant rest _ _ (for_get_stats) = refl
dispatch-Meant rest _ _ (for_get_user_page_stats) = refl
dispatch-Meant rest _ _ (for_get_cow_fault_stats) = refl
dispatch-Meant rest _ _ (for_configure new_config) = refl
dispatch-Meant rest _ _ (for_dump_page_table address) = refl
dispatch-Meant rest _ _ (for_signal num handler h0) = rw (low-sign_extend num h0) refl
dispatch-Meant rest _ _ (for_sleep ticks h0) = rw (low-sign_extend ticks h0) refl
dispatch-Meant rest _ _ (for_expand size flags h0) = rw (low-sign_extend flags h0) refl
dispatch-Meant rest _ _ (for_clone func stack_addr) = refl
dispatch-Meant rest _ _ (for_mmap addr length prot flags h0 h1 h2) =
    rw (low-sign_extend length h0, low-sign_extend prot h1, low-sign_extend flags h2) refl
dispatch-Meant rest _ _ (for_munmap addr length h0) = rw (low-sign_extend length h0) refl
dispatch-Meant rest _ _ (for_mprotect addr length prot h0 h1) =
    rw (low-sign_extend length h0, low-sign_extend prot h1) refl
dispatch-Meant rest _ _ (for_pmap details h0) = rw (low-sign_extend details h0) refl
dispatch-Meant rest _ _ (for_read fd buf count) = refl
dispatch-Meant rest _ _ (for_write fd buf count) = refl
dispatch-Meant rest _ _ (for_pipe fd) = refl
dispatch-Meant rest _ _ (for_dup oldfd) = refl
dispatch-Meant rest _ _ (for_dup2 oldfd newfd h0 h1) =
    rw (low-sign_extend oldfd h0, low-sign_extend newfd h1) refl
dispatch-Meant rest _ _ (for_close fd h0) = rw (low-sign_extend fd h0) refl
dispatch-Meant rest _ _ (for_lseek fd offset whence h0 h1) =
    rw (low-sign_extend fd h0, low-sign_extend whence h1) refl
dispatch-Meant rest _ _ (for_sendfile outfd infd offset count h0 h1 h2) =
    rw (low-sign_extend outfd h0, low-sign_extend infd h1, low-sign_extend count h2) refl
dispatch-Meant rest _ _ (for_create_msg_queue) = refl
dispatch-Meant rest _ _ (for_get_member_info fd info) = refl
dispatch-Meant rest _ _ (for_msg_queue_send fd msg) = refl
dispatch-Meant rest _ _ (for_msg_queue_rcv fd msg) = refl
dispatch-Meant rest _ _ (for_get_msg_count fd) = refl
dispatch-Meant rest _ _ (for_msg_queue_block fd pid h0) = rw (low-sign_extend pid h0) refl
dispatch-Meant rest _ _ (for_msg_queue_close fd h0) = rw (low-sign_extend fd h0) refl
dispatch-Meant rest _ _ (for_open_new filename flags mode e) =
    let creates : (bit_and flags o_creat == o_creat) ≡ true = ground (arith, e) in rw creates refl
dispatch-Meant rest _ _ (for_open filename flags mode e) = rw e refl
