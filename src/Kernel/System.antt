-- ===== src/Kernel/System.antt =====
-- The processes of the kernel and the calls on queues that each of them makes, with fork and exit
-- (`do_fork` and `do_exit` of Assignment2/entry.c). Descriptors lie within the table.
pub mod References
pub mod Agreement
pub mod Closing
pub mod CloseCall
pub mod Cleanup
pub mod Exit
pub mod Creation
pub mod Fork
pub mod Safety
mod Examples
use cs330_assignments.Base.{
  ℕ, zero, suc, ◌-◌, ◌<◌, ◌≡◌, ◌≢◌, Bool, true, false, not, Option, none, some, ℤ, if◌then◌else◌,
  update, dec64,
}
use cs330_assignments.MsgQueue.State.{Message, max_processes}
use cs330_assignments.OpenFiles.State.{Store, do_file_exit, max_open_files}
use cs330_assignments.Kernel.State.{Kernel}
use cs330_assignments.Kernel.Queues.{
  do_create_msg_queue, do_add_child_to_msg_queue, do_msg_queue_close, do_msg_queue_cleanup,
}
use cs330_assignments.Kernel.Calls.{call_msg_queue_send, call_msg_queue_rcv, call_msg_queue_block}

-- Which processes are in use (not UNUSED), the table of descriptors of each, and
-- `stats->num_processes`, which get_new_ctx counts up.
pub record System : Type 0 where
  pub running : ℕ → Bool
  pub table : ℕ → ℕ → ℕ
  pub num_processes : ℕ
  pub kernel : Kernel

-- A process with its table and the kernel that a call of it leaves.
abbrev pub after_call : System → ℕ → (ℕ → ℕ) → Kernel → System
after_call s pid files k = record s { table = update s.table pid files; kernel = k }

-- `child` is the process that get_new_ctx gives, and `setup` what copy_mm and setup_child_context
-- do to the file objects.
unfoldable pub do_fork : (Store → Store) → ℕ → ℕ → System → Option System
do_fork setup pid child s =
    elim (do_add_child_to_msg_queue child (s.table pid)
      (record s.kernel { store = setup s.kernel.store })) [
        | none ↦ none
        | some k ↦
            some (record (after_call s child (s.table pid) k) {
              running = update s.running child true;
            })
      ]

-- The loop that sets `proc_exist`.
unfoldable pub exist_loop : ℕ → ℕ → (ℕ → Bool) → Bool
exist_loop zero ctr running = false
exist_loop (suc rounds) ctr running =
    let rest = exist_loop rounds (suc ctr) running in if running ctr then true else rest

-- Whether do_cleanup is called, and what is left for the next process. The frame of the stack that
-- is given back and the choice of the next process are left out.
unfoldable pub do_exit : ℕ → System → Bool × System
do_exit pid s =
    let r = do_msg_queue_cleanup pid (s.table pid) s.kernel in
    let running = update s.running pid false in
    (
      not (exist_loop (max_processes - 1) 1 running),
      record (after_call s pid r.0 (record r.1 { store = do_file_exit r.0 r.1.store })) {
        running = running;
        num_processes = dec64 s.num_processes;
      },
    )

-- The processes with the kernel that a send leaves.
abbrev pub after_send : System → Option (ℤ × Kernel) → Option System
after_send s none = none
after_send s (some (z, k)) = some (record s { kernel = k })

-- What copy_mm and setup_child_context are relied on for: they keep the queues of the file objects,
-- and which objects are allocated.
pub record KeepsObjects (s s' : Store) : Type 0 where
  pub queues : (a : ℕ) → (s'.object a).msg_queue ≡ (s.object a).msg_queue
  pub live : (a : ℕ) → s'.live a ≡ s.live a

-- One call of a process that runs. Pages and contexts that are handed out are not in use. A fork
-- or a send that writes outside an array of a queue, which nothing in the source prevents, leads to
-- `none`, after which the kernel may do anything.
pub data Step (s : System) : Option System → Type 0 where
  creates :
      (pid info page : ℕ)
      → s.running pid ≡ true
      → page ≢ 0
      → ((p fd : ℕ) → s.running p ≡ true → s.table p fd ≢ page)
      → s.kernel.queue_live info ≡ false
      → Step s (
          let r = do_create_msg_queue pid info page (s.table pid) s.kernel in
          some (after_call s pid r.1 r.2))
  forks :
      (setup : Store → Store) (pid child : ℕ)
      → s.running pid ≡ true
      → s.running child ≡ false
      → KeepsObjects s.kernel.store (setup s.kernel.store)
      → Step s (do_fork setup pid child s)
  sends :
      (pid fd : ℕ) (msg : Option Message)
      → s.running pid ≡ true
      → Step s (after_send s (call_msg_queue_send pid fd msg (s.table pid) s.kernel))
  receives :
      (pid fd : ℕ) (has_msg : Bool)
      → s.running pid ≡ true
      → Step s (
          some (record s { kernel = (call_msg_queue_rcv pid fd has_msg (s.table pid) s.kernel).2 }))
  blocks :
      (pid fd other : ℕ)
      → s.running pid ≡ true
      → Step s (
          some (record s { kernel = (call_msg_queue_block pid fd other (s.table pid) s.kernel).1 }))
  closes :
      (pid fd : ℕ)
      → s.running pid ≡ true
      → fd < max_open_files
      → Step s (
          let r = do_msg_queue_close pid fd (s.table pid) s.kernel in
          some (after_call s pid r.1 r.2))
  exits : (pid : ℕ) → s.running pid ≡ true → Step s (some (do_exit pid s).1)

-- What is reached by calls in any order.
pub data Reach (s : System) : Option System → Type 0 where
  start : Reach s (some s)
  later : {t : System} {o : Option System} → Reach s (some t) → Step t o → Reach s o
