-- ===== src/UserLib/Numbers.antt =====
-- The numbers of the system calls in Assignment2/user/ulib.h.
use cs330_assignments.Base.{ℕ}

abbrev pub sys_exit : ℕ
sys_exit = 1

abbrev pub sys_getpid : ℕ
sys_getpid = 2

abbrev pub sys_expand : ℕ
sys_expand = 4

abbrev pub sys_sleep : ℕ
sys_sleep = 7

abbrev pub sys_signal : ℕ
sys_signal = 8

abbrev pub sys_clone : ℕ
sys_clone = 9

abbrev pub sys_fork : ℕ
sys_fork = 10

abbrev pub sys_stats : ℕ
sys_stats = 11

abbrev pub sys_configure : ℕ
sys_configure = 12

abbrev pub sys_phys_info : ℕ
sys_phys_info = 13

abbrev pub sys_dump_ptt : ℕ
sys_dump_ptt = 14

abbrev pub sys_cfork : ℕ
sys_cfork = 15

abbrev pub sys_mmap : ℕ
sys_mmap = 16

abbrev pub sys_munmap : ℕ
sys_munmap = 17

abbrev pub sys_mprotect : ℕ
sys_mprotect = 18

abbrev pub sys_pmap : ℕ
sys_pmap = 19

abbrev pub sys_vfork : ℕ
sys_vfork = 20

abbrev pub sys_get_user_p : ℕ
sys_get_user_p = 21

abbrev pub sys_get_cow_f : ℕ
sys_get_cow_f = 22

abbrev pub sys_open : ℕ
sys_open = 23

abbrev pub sys_read : ℕ
sys_read = 24

abbrev pub sys_write : ℕ
sys_write = 25

abbrev pub sys_pipe : ℕ
sys_pipe = 26

abbrev pub sys_dup : ℕ
sys_dup = 27

abbrev pub sys_dup2 : ℕ
sys_dup2 = 28

abbrev pub sys_close : ℕ
sys_close = 29

abbrev pub sys_lseek : ℕ
sys_lseek = 30

abbrev pub sys_sendfile : ℕ
sys_sendfile = 38

abbrev pub sys_create_msg_queue : ℕ
sys_create_msg_queue = 31

abbrev pub sys_get_member_info : ℕ
sys_get_member_info = 32

abbrev pub sys_get_msg_count : ℕ
sys_get_msg_count = 33

abbrev pub sys_msg_queue_block : ℕ
sys_msg_queue_block = 34

abbrev pub sys_msg_queue_rcv : ℕ
sys_msg_queue_rcv = 35

abbrev pub sys_msg_queue_send : ℕ
sys_msg_queue_send = 36

abbrev pub sys_msg_queue_close : ℕ
sys_msg_queue_close = 37
