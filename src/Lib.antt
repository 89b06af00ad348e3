-- ===== src/Lib.antt =====
-- Verification of the C programs of this repository: the message queues, the flat file system,
-- the open files and the system calls of the GemOS kernel (Assignment2), its debugger
-- (Assignment4; Assignment3/mmap.c has the same text as Assignment4/debug.c), the library of
-- its user programs, and the umpires of Assignment1 and the words of its launchers.
--
-- * Debugger (Assignment4/debug.c, Assignment4/debug.h). Debugger.State has the structures and
--   the machine: contexts by address, byte memory, the nodes of breakpoints that are
--   allocated, by their addresses, and the count of the structures of debuggers.
--   Debugger.Breakpoints has do_become_debugger, do_set_breakpoint, do_remove_breakpoint,
--   do_enable_breakpoint, do_disable_breakpoint and do_info_breakpoints, with its proofs below
--   it; Debugger.Trap has int3_handler and do_backtrace; Debugger.Processes has
--   debugger_on_fork, debugger_on_exit, do_info_registers and do_wait_and_continue. The linked
--   list of breakpoints is a list of nodes, each with its address, since no other pointer
--   leads into it.
-- * MsgQueue (Assignment2/msg_queue.c, Assignment2/include/msg_queue.h). MsgQueue.State has
--   the structures and shared loops, MsgQueue.Messages the calls that send, receive and count,
--   MsgQueue.Members those that join, block and leave. A queue is a value; arrays are
--   functions from indices, so that they also say what lies behind their end where the code
--   reads it. A write outside an array of the queue or behind the page of its messages is
--   `none`; four messages have room, since each is put 1024 bytes behind the one before.
-- * FileSystem (Assignment2/fs.c, Assignment2/include/fs.h). FileSystem.State has the
--   structures, FileSystem.Pages the pages (get_contigous_pages, init_file_inode, the
--   allocations of alloc_inodes), FileSystem.Inodes the table of inodes (init_file_system,
--   flat_lookup_inode, flat_create_inode, flat_remove_inode) and FileSystem.Bytes the calls
--   flat_read and flat_write, each with its proofs below it. An inode is its index in the
--   super block, the bytes of the files are byte memory, and the buffer of a caller, which
--   does not overlap them, is a function from indices.
-- * OpenFiles (Assignment2/file.c, Assignment2/include/file.h, and do_close of
--   Assignment2/entry.c). OpenFiles.State has the file objects in a store by address, the
--   table of descriptors of a process, and close, exit and dup2; what other processes hold is
--   a count per object. OpenFiles.Opening has do_regular_file_open on top of
--   FileSystem.Inodes, OpenFiles.Regular has do_read_regular, do_write_regular and
--   do_lseek_regular on top of FileSystem.Bytes; signed overflow in a seek is taken to wrap
--   around.
-- * Kernel (Assignment2/entry.c, the parts of Assignment2/msg_queue.c and Assignment2/file.c
--   that use the table of open files, Assignment2/include/entry.h). Kernel.State puts the file
--   objects, the queues by address, the super block and the memory of the files together;
--   Kernel.Queues has do_create_msg_queue, do_msg_queue_close and what fork and exit do to
--   queues; Kernel.Files has standard input and output and do_sendfile; Kernel.Calls has the
--   handlers do_file_open, do_file_read, do_file_write, do_lseek and those on queues, on top
--   of OpenFiles, FileSystem and MsgQueue; Kernel.Dispatch has the switch of do_syscall.
--   Kernel.System has all processes with their tables, do_fork and do_exit, and the steps by
--   which they create, send, receive, block, close, fork and exit, where a fork or a send that
--   writes outside an array leads to `none`; calls on files that are no queues, and dup2, are
--   no steps there.
-- * UserLib (Assignment2/user/lib.c, Assignment2/user/ulib.h). UserLib.Wrappers has the system
--   calls of user programs, which UserLib.Meaning puts together with Kernel.Dispatch;
--   UserLib.Printf has vuprintf and printf, and UserLib.Compare has ustrcmp.
-- * Umpire (Assignment1/Part2/2.1/umpire.c, Assignment1/Part2/2.2/umpire2.c,
--   Assignment1/Part2/2.2/gameUtils.c). Umpire has the scores of a match, the pairs of a round
--   and the rounds of a tournament, and Umpire.Input the arguments and the file of the
--   players; Umpire.Active, Umpire.Pairs, Umpire.Rounds and Umpire.Tournament have the proofs.
--   Umpire.Calls has programs that call the operating system, and Umpire.Match is umpire.c as
--   such a program: one action per call, a check of its result, and the exit or the exec that
--   ends it; Umpire.Contest is umpire2.c in the same way, with the moves that it reads handed
--   to Umpire.
-- * Launcher (Assignment1/Part1/1.1/executeCommand.c,
--   Assignment1/Part1/1.2/executeInParallel.c). Launcher has the text that strtok works on and
--   the loop that takes a command apart into words, and Launcher.Words the proofs.
--
-- Return values are integers; machine words are natural numbers with their wrap-around written
-- out. Loops over arrays recur on the rounds left, which the code bounds by a constant or a
-- count, so no fuel is needed; the rounds of a tournament and the loop of ustrcmp recur on a
-- number of rounds that their theorems bound.
--
-- Not in the repository, and so parameters: get_ctx_by_pid (`by_pid`), the outcome of os_alloc
-- (`alloc`) and the addresses that it hands out for nodes (`os_nodes`), strcmp (a record with
-- what is relied on), the drivers of the keyboard and the screen (a record of functions),
-- bzero, the frames that os_pfn_alloc hands out one after the other, what copy_mm and
-- setup_child_context do to the file objects (with what is relied on), and the answers of the
-- operating system to the calls of the umpires. schedule is recorded by the context that it
-- was called for; what the scheduler does is a step of the relation in
-- Debugger.Processes.Handover.
--
-- Not modelled: the rest of the GemOS kernel, whose objects are not in the repository, and the
-- sample players of Assignment1.
pub mod Base
pub mod Debugger
pub mod FileSystem
pub mod Kernel
pub mod Launcher
pub mod MsgQueue
pub mod OpenFiles
pub mod Umpire
pub mod UserLib
