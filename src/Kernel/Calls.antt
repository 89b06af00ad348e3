-- ===== src/Kernel/Calls.antt =====
-- The handlers of system calls on files and queues (Assignment2/entry.c), for descriptors within
-- the table. `none` is undefined behaviour, as in the handlers that they call.
pub mod Through
pub mod RoundTrip
use cs330_assignments.Base.{
  ℕ, zero, suc, ◌+◌, ◌%◌, ◌^◌, Bool, true, false, not, ◌||◌, Option, none, some, List, [], ◌∷◌, ℤ,
  pos, minus_one, ◌==◌, if◌then◌else◌, update, bit_and,
}
use cs330_assignments.FileSystem.State.{Inode, SuperBlock, Strings}
use cs330_assignments.FileSystem.Inodes.{is_zero}
use cs330_assignments.MsgQueue.State.{MsgQueueInfo, Message}
use cs330_assignments.MsgQueue.Messages.{do_msg_queue_rcv, do_msg_queue_send, do_get_msg_count}
use cs330_assignments.MsgQueue.Members.{do_msg_queue_get_member_info, do_msg_queue_block}
use cs330_assignments.OpenFiles.State.{Store, File, Handler, no_handler, standard, on_inode, einval}
use cs330_assignments.OpenFiles.Opening.{do_regular_file_open}
use cs330_assignments.OpenFiles.Regular.{o_read, o_write, eacces, do_lseek_regular}
use cs330_assignments.Kernel.State.{Kernel, queue_of, set_queue}
use cs330_assignments.Kernel.Files.{
  stdin, stdout, stderr, open_standard_io, inode_of, set_object, read_object, write_object,
}

-- The drivers of the keyboard and the screen: what the keyboard puts into a buffer, and what the
-- screen returns for a text.
pub record Devices : Type 0 where
  pub kbd_read : (ℕ → ℕ) → ℕ → ℕ
  pub do_write : (ℕ → ℕ) → ℕ → ℤ

abbrev stdin_name : List ℕ
stdin_name = b's' ∷ b't' ∷ b'd' ∷ b'i' ∷ b'n' ∷ []

abbrev stdout_name : List ℕ
stdout_name = b's' ∷ b't' ∷ b'd' ∷ b'o' ∷ b'u' ∷ b't' ∷ []

abbrev stderr_name : List ℕ
stderr_name = b's' ∷ b't' ∷ b'd' ∷ b'e' ∷ b'r' ∷ b'r' ∷ []

-- The kernel with the objects of a call.
abbrev with_store : Kernel → Option (ℤ × (ℕ → ℕ) × Store) → Option (ℤ × (ℕ → ℕ) × Kernel)
with_store k none = none
with_store k (some r) = some (r.0, r.1, record k { store = r.2 })

-- The result, the table and the kernel.
unfoldable pub do_file_open :
    Strings → List ℕ → ℕ → ℕ → ℕ → (ℕ → ℕ) → Kernel → Option (ℤ × (ℕ → ℕ) × Kernel)
do_file_open c name flag mode page files k =
    if is_zero (c.strcmp name stdin_name)
    then with_store k (open_standard_io stdin page files k.store)
    else if is_zero (c.strcmp name stdout_name)
    then with_store k (open_standard_io stdout page files k.store)
    else if is_zero (c.strcmp name stderr_name)
    then with_store k (open_standard_io stderr page files k.store)
    else elim (do_regular_file_open c name flag mode page files k.store k.sb) [
      | none ↦ none
      | some (r, sb) ↦ some (r.0, r.1, record k { store = r.2; sb = sb })
    ]

-- What the read handler of an object does: the result, the buffer and the kernel.
unfoldable pub run_read : Devices → Handler → ℕ → (ℕ → ℕ) → ℕ → Kernel → ℤ × (ℕ → ℕ) × Kernel
run_read d no_handler a buff count k = (einval, buff, k)
run_read d standard a buff count k = (pos 1, d.kbd_read buff, k)
run_read d on_inode a buff count k = read_object a buff count k

-- `count` is a 64-bit word, of which the handler sees the lower half.
unfoldable pub do_file_read : Devices → ℕ → (ℕ → ℕ) → ℕ → (ℕ → ℕ) → Kernel → ℤ × (ℕ → ℕ) × Kernel
do_file_read d fd buff count files k =
    let a = files fd in
    let f = k.store.object a in
    if a == 0
    then (einval, buff, k)
    else if not (bit_and f.mode o_read == o_read)
    then (eacces, buff, k)
    else run_read d f.fops.read a buff (count % 2 ^ 32) k

unfoldable pub run_write : Devices → Handler → ℕ → (ℕ → ℕ) → ℕ → Kernel → ℤ × Kernel
run_write d no_handler a buff count k = (einval, k)
run_write d standard a buff count k = (d.do_write buff count, k)
run_write d on_inode a buff count k = write_object a buff count k

unfoldable pub do_file_write : Devices → ℕ → (ℕ → ℕ) → ℕ → (ℕ → ℕ) → Kernel → ℤ × Kernel
do_file_write d fd buff count files k =
    let a = files fd in
    let f = k.store.object a in
    if a == 0
    then (einval, k)
    else if bit_and f.mode o_write == 0
    then (eacces, k)
    else run_write d f.fops.write a buff (count % 2 ^ 32) k

-- The lseek handler of an object.
unfoldable pub run_lseek : Handler → ℕ → ℕ → ℕ → Kernel → Option (ℤ × Kernel)
run_lseek no_handler a offset whence k = some (einval, k)
run_lseek h a offset whence k =
    let f = k.store.object a in
    elim (inode_of k f) [
      | none ↦ none
      | some n ↦ let r = do_lseek_regular f n offset whence in some (r.0, set_object k a r.1)
    ]

unfoldable pub do_lseek : ℕ → ℕ → ℕ → (ℕ → ℕ) → Kernel → Option (ℤ × Kernel)
do_lseek fd offset whence files k =
    if files fd == 0
    then some (einval, k)
    else run_lseek (k.store.object (files fd)).fops.lseek (files fd) offset whence k

-- The queue of the object at an address; `none` is the null pointer.
abbrev pub queue_at : Kernel → ℕ → Option MsgQueueInfo
queue_at k a = if queue_of k a == 0 then none else some (k.queue (queue_of k a))

-- The kernel with the queue that a call has left.
abbrev pub put_queue : Kernel → ℕ → Option MsgQueueInfo → Kernel
put_queue k a none = k
put_queue k a (some q) = set_queue k (queue_of k a) q

unfoldable pub do_get_member_info : ℕ → (ℕ → ℕ) → Kernel → ℤ × Option (ℕ × (ℕ → ℕ))
do_get_member_info fd files k =
    if files fd == 0 then (einval, none) else do_msg_queue_get_member_info (queue_at k (files fd))

unfoldable pub call_msg_queue_send : ℕ → ℕ → Option Message → (ℕ → ℕ) → Kernel → Option (ℤ × Kernel)
call_msg_queue_send pid fd msg files k =
    if files fd == 0
    then some (einval, k)
    else elim (do_msg_queue_send pid msg (queue_at k (files fd))) [
      | none ↦ none
      | some (z, q) ↦ some (z, put_queue k (files fd) q)
    ]

unfoldable pub call_msg_queue_rcv : ℕ → ℕ → Bool → (ℕ → ℕ) → Kernel → ℤ × Option Message × Kernel
call_msg_queue_rcv pid fd has_msg files k =
    if files fd == 0
    then (einval, none, k)
    else (let r = do_msg_queue_rcv pid has_msg (queue_at k (files fd)) in
        (r.0, r.1, put_queue k (files fd) r.2))

unfoldable pub call_get_msg_count : ℕ → ℕ → (ℕ → ℕ) → Kernel → ℤ
call_get_msg_count pid fd files k =
    if files fd == 0 then einval else do_get_msg_count pid (queue_at k (files fd))

-- `other` is a 64-bit word, of which the call sees the lower half.
unfoldable pub call_msg_queue_block : ℕ → ℕ → ℕ → (ℕ → ℕ) → Kernel → ℤ × Kernel
call_msg_queue_block pid fd other files k =
    if files fd == 0
    then (einval, k)
    else (let r = do_msg_queue_block pid (other % 2 ^ 32) (queue_at k (files fd)) in
        (r.0, put_queue k (files fd) r.1))
