-- ===== src/MsgQueue/Rows.antt =====
-- Which processes stand in an array of process ids, apart from the loops of
-- Assignment2/msg_queue.c, and how many messages have room.
use cs330_assignments.Base.{
  ℕ, zero, suc, ◌+◌, ◌*◌, ◌≤◌, ◌<◌, ◌≡◌, inl, inr, refl, arith, Bool, true, false, ◌||◌, none, some,
  List, [], ◌∷◌, ◌==◌, update, slice, slice-ext, Bool-cases,
}
use cs330_assignments.MsgQueue.State.{MsgQueueInfo, max_members, no_pid, block_loop}
use cs330_assignments.MsgQueue.Members.{index_loop, free_loop}

-- How many messages have room in the page: each takes 1024 bytes of its 4096.
abbrev pub max_messages : ℕ
max_messages = 4

-- Whether a process stands in a list.
abbrev pub holds : ℕ → List ℕ → Bool
holds pid [] = false
holds pid (p ∷ ps) = (p == pid) || holds pid ps

-- `n` entries of the matrix from row `i` on.
abbrev pub entries_from : ℕ → ℕ → MsgQueueInfo → List ℕ
entries_from i n q = slice q.block_process (i * max_members) n

-- The row of a member: whose messages it refuses.
abbrev pub row : ℕ → MsgQueueInfo → List ℕ
row i q = entries_from i max_members q

-- The first `v` of a list becomes `w`.
pub data Replaced (v w : ℕ) : List ℕ → List ℕ → Type 0 where
  replaced_here : {xs : List ℕ} → Replaced v w (v ∷ xs) (w ∷ xs)
  replaced_later :
      {x : ℕ} {xs ys : List ℕ}
      → (x == v) ≡ false
      → Replaced v w xs ys
      → Replaced v w (x ∷ xs) (x ∷ ys)

or_swap : (a b : Bool) → (a || b) ≡ (b || a)
or_swap true true = refl
or_swap true false = refl
or_swap false true = refl
or_swap false false = refl

block_loop-holds_at :
    (r i j pid : ℕ) (b : ℕ → ℕ)
    → block_loop r i j pid b ≡ holds pid (slice b (i * max_members + j) r)
unfolding block_loop slice
block_loop-holds_at zero i j pid b = refl
block_loop-holds_at (suc r) i j pid b =
    let next : i * 4 + suc j ≡ suc (i * 4 + j) = omega arith in
    rw (block_loop-holds_at r i (suc j) pid b, next)
      (or_swap (holds pid (slice b (suc (i * 4 + j)) r)) (b (i * max_members + j) == pid))

pub block_loop-holds :
    (r i pid : ℕ) (q : MsgQueueInfo)
    → block_loop r i 0 pid q.block_process ≡ holds pid (entries_from i r q)
block_loop-holds r i pid q =
    let start : i * 4 + 0 ≡ i * 4 = omega arith in
    rw start at (block_loop-holds_at r i 0 pid q.block_process)

free_loop-none :
    (r i j : ℕ) (b : ℕ → ℕ)
    → free_loop r i j b ≡ none
    → holds no_pid (slice b (i * max_members + j) r) ≡ false
unfolding free_loop slice
free_loop-none zero i j b e = refl
free_loop-none (suc r) i j b e =
    let next : i * 4 + suc j ≡ suc (i * 4 + j) = omega arith in
    ground (arith, rw next at (free_loop-none r i (suc j) b))

-- The entry that the loop finds is free, and in range.
free_loop_found :
    (r i j k : ℕ) (b : ℕ → ℕ)
    → free_loop r i j b ≡ some k
    → (j ≤ k) × (k < j + r) × (b (i * max_members + k) ≡ no_pid)
unfolding free_loop
free_loop_found zero i j k b e = cc
free_loop_found (suc r) i j k b e = ground (arith, free_loop_found r i (suc j) k b)

free_loop-Replaced :
    (r i j k other : ℕ) (b : ℕ → ℕ)
    → free_loop r i j b ≡ some k
    → Replaced no_pid other
        (slice b (i * max_members + j) r)
        (slice (update b (i * max_members + k) other) (i * max_members + j) r)
unfolding free_loop slice
free_loop-Replaced zero i j k other b e = absurd (ground (arith, e))
free_loop-Replaced (suc r) i j k other b e = elim (Bool-cases (b (i * max_members + j) == no_pid)) [
  | inl hit ↦
      let here : j ≡ k = ground (arith, e) in
      let free : b (i * max_members + j) ≡ no_pid = ground arith in
      let first : update b (i * max_members + k) other (i * max_members + j) ≡ other =
        ground arith in
      let rest : slice (update b (i * max_members + k) other) (suc (i * max_members + j)) r
          ≡ slice b (suc (i * max_members + j)) r =
        slice-ext (update b (i * max_members + k) other) b (suc (i * max_members + j)) r
          (λ x l u. ground arith) in
      rw (first, rest, free) replaced_here
  | inr miss ↦
      let later : free_loop r i (suc j) b ≡ some k = rw (free_loop, miss) at e in
      let range = free_loop_found r i (suc j) k b later in
      let kept : update b (i * max_members + k) other (i * max_members + j)
          ≡ b (i * max_members + j) =
        ground (arith, range.0) in
      let next : i * 4 + suc j ≡ suc (i * 4 + j) = omega arith in
      rw kept (replaced_later miss (rw next at (free_loop-Replaced r i (suc j) k other b later)))
]

pub row_free :
    (i : ℕ) (q : MsgQueueInfo)
    → (free_loop max_members i 0 q.block_process ≡ none)
    → holds no_pid (row i q) ≡ false
row_free i q e =
    let start : i * 4 + 0 ≡ i * 4 = omega arith in
    rw start at (free_loop-none max_members i 0 q.block_process e)

pub row-Replaced :
    (i j other : ℕ) (q : MsgQueueInfo)
    → free_loop max_members i 0 q.block_process ≡ some j
    → (j < max_members)
      × Replaced no_pid other
          (row i q)
          (slice (update q.block_process (i * max_members + j) other) (i * max_members) max_members)
row-Replaced i j other q e =
    let start : i * 4 + 0 ≡ i * 4 = omega arith in
    (
      omega (arith, free_loop_found max_members i 0 j q.block_process e),
      rw start at (free_loop-Replaced max_members i 0 j other q.block_process e),
    )

index_loop-some : (r i k pid : ℕ) (a : ℕ → ℕ) → index_loop r i pid (some k) a ≡ none → ⊥
unfolding index_loop
index_loop-some zero i k pid a e = absurd (ground (arith, e))
index_loop-some (suc r) i k pid a e = elim (Bool-cases (a i == pid)) [
  | inl hit ↦ index_loop-some r (suc i) i pid a (rw (index_loop, hit) at e)
  | inr miss ↦ index_loop-some r (suc i) k pid a (rw (index_loop, miss) at e)
]

pub index_loop-none :
    (r i pid : ℕ) (a : ℕ → ℕ) → index_loop r i pid none a ≡ none → holds pid (slice a i r) ≡ false
unfolding index_loop slice
index_loop-none zero i pid a e = refl
index_loop-none (suc r) i pid a e = elim (Bool-cases (a i == pid)) [
  | inl hit ↦ absurd (index_loop-some r (suc i) i pid a (rw (index_loop, hit) at e))
  | inr miss ↦ rw miss (index_loop-none r (suc i) pid a (rw (index_loop, miss) at e))
]
