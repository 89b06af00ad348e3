-- ===== src/Kernel/System/CloseCall.antt =====
-- How a close of a queue ends (`do_msg_queue_close` of Assignment2/msg_queue.c), and that it keeps
-- members and descriptors in agreement.
use cs330_assignments.Base.{
  ℕ, suc, ◌+◌, ◌<◌, ◌≡◌, ◌≢◌, ◌⊎◌, inl, inr, refl, arith, Bool, true, false, Option, none, some, ℤ,
  pos, leb, ◌==◌, if◌then◌else◌, update, Bool-cases, ◌^◌,
}
use cs330_assignments.MsgQueue.State.{MsgQueueInfo, einval}
use cs330_assignments.MsgQueue.Members.Entries.{entries, Closed, closed, close_queue-Closed}
use cs330_assignments.OpenFiles.State.{max_open_files}
use cs330_assignments.Kernel.State.{Kernel, queue_of}
use cs330_assignments.Kernel.Queues.{do_msg_queue_close, left_queue}
use cs330_assignments.Kernel.System.{System, after_call}
use cs330_assignments.Kernel.System.Agreement.{Agrees, held_some, Agrees-live}
use cs330_assignments.Kernel.System.Closing.{after_call_same, page, here, left, closed-Agrees}

-- How do_msg_queue_close ends: it refuses where the descriptor leads to no queue, and closes it.
pub data CloseCall (s : System) (pid fd : ℕ) : ℤ × (ℕ → ℕ) × Kernel → Type 0 where
  leads_nowhere :
      (s.table pid fd ≡ 0) ⊎ (queue_of s.kernel (s.table pid fd) ≡ 0)
      → CloseCall s pid fd (einval, s.table pid, s.kernel)
  closes_queue :
      (q : MsgQueueInfo) (empty : Bool)
      → page s pid fd q empty ≢ 0
      → here s pid fd q empty ≢ 0
      → ((p : ℕ)
          → entries p (s.kernel.queue (here s pid fd q empty))
            ≡ (if pid == p then 1 else 0) + entries p q)
      → (s.kernel.queue (here s pid fd q empty)).member_count ≡ suc q.member_count
      → empty ≡ (q.member_count == 0)
      → CloseCall s pid fd (pos 0, update (s.table pid) fd 0, left s pid fd q empty)

Closed-CloseCall :
    (s : System) (pid fd : ℕ) (o : Option (MsgQueueInfo × Bool))
    → s.table pid fd ≢ 0
    → queue_of s.kernel (s.table pid fd) ≢ 0
    → Closed pid (s.kernel.queue (queue_of s.kernel (s.table pid fd))) o
    → CloseCall s pid fd (elim o [
      | none ↦ (einval, s.table pid, s.kernel)
      | some (q, empty) ↦ (
        pos 0,
        update (s.table pid) fd 0,
        left_queue (s.table pid fd) (queue_of s.kernel (s.table pid fd)) q empty s.kernel,
      )
    ])
Closed-CloseCall s pid fd _ n nq (closed {q' = q} less one) = closes_queue q _ n nq less one refl

pub do_msg_queue_close-CloseCall :
    (s : System) (pid fd : ℕ)
    → Agrees s
    → s.running pid ≡ true
    → fd < max_open_files
    → CloseCall s pid fd (do_msg_queue_close pid fd (s.table pid) s.kernel)
unfolding do_msg_queue_close
do_msg_queue_close-CloseCall s pid fd h r l =
    let small : leb (2 ^ 31) fd ≡ false = ground arith in
    elim (Bool-cases (s.table pid fd == 0)) [
      | inl e ↦ rw (do_msg_queue_close, small, e) (leads_nowhere (inl (ground arith)))
      | inr n ↦ elim (Bool-cases (queue_of s.kernel (s.table pid fd) == 0)) [
        | inl e ↦ rw (do_msg_queue_close, small, n, e) (leads_nowhere (inr (ground arith)))
        | inr m ↦
            let n' : s.table pid fd ≢ 0 = ground arith in
            let m' : queue_of s.kernel (s.table pid fd) ≢ 0 = ground arith in
            let live = Agrees-live s pid fd h r l n' m' in
            let some = held_some s pid fd r l n' in
            rw (do_msg_queue_close, small, n, m)
              (Closed-CloseCall s pid fd _ n' m' (
                close_queue-Closed pid (s.kernel.queue (queue_of s.kernel (s.table pid fd)))
                  (h.fits (queue_of s.kernel (s.table pid fd)) m' live).1
                  (omega
                    (arith, some, h.counted (queue_of s.kernel (s.table pid fd)) pid m' live))))
      ]
    ]

pub CloseCall-Agrees :
    (s : System) (pid fd : ℕ) (r : ℤ × (ℕ → ℕ) × Kernel)
    → Agrees s
    → s.running pid ≡ true
    → fd < max_open_files
    → CloseCall s pid fd r
    → Agrees (after_call s pid r.1 r.2)
CloseCall-Agrees s pid fd _ h t l (leads_nowhere why) = rw (after_call_same s pid) h
CloseCall-Agrees s pid fd _ h t l (closes_queue q empty n nq less one last) =
    closed-Agrees s pid fd q empty h t l n nq less one last
