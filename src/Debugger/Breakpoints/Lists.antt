-- ===== src/Debugger/Breakpoints/Lists.antt =====
-- What the two walks of the breakpoint list (Assignment4/debug.c) keep.
use cs330_assignments.Base.{
  ℕ, suc, ◌≤◌, ◌<◌, ◌≡◌, ◌≢◌, Option, none, some, List, [], ◌∷◌, arith, ◌==◌, if◌then◌else◌, length,
  Memory, update,
}
use cs330_assignments.Debugger.State.{BreakpointInfo, int3_opcode, pushrbp_opcode}
use cs330_assignments.Debugger.Breakpoints.{set_status, unlink}

-- No node stands at an address.
abbrev pub Absent : ℕ → List BreakpointInfo → Type 0
Absent a [] = Unit
Absent a (b ∷ bs) = (b.addr ≢ a) × Absent a bs

-- No two nodes stand at one address.
abbrev pub Distinct : List BreakpointInfo → Type 0
Distinct [] = Unit
Distinct (b ∷ bs) = Absent b.addr bs × Distinct bs

-- The numbers fall along the list, below a bound.
abbrev pub Below : ℕ → List BreakpointInfo → Type 0
Below n [] = Unit
Below n (b ∷ bs) = (b.num < n) × Below b.num bs

-- The opcode that a node's status calls for.
abbrev pub opcode : ℕ → ℕ
opcode status = if status == 0 then pushrbp_opcode else int3_opcode

-- The byte at each node's address is the one that its status calls for.
abbrev pub Planted : Memory → List BreakpointInfo → Type 0
Planted mem [] = Unit
Planted mem (b ∷ bs) = (mem b.addr ≡ opcode b.status) × Planted mem bs

-- A property of the list that a walk returns, if it returns one.
abbrev pub OnSome {ℓ} : {A : Type 0} → (A → Type ℓ) → Option A → Type ℓ
OnSome P none = Unit
OnSome P (some x) = P x

pub Planted-update :
    (mem : Memory) (a v : ℕ) (bs : List BreakpointInfo)
    → Absent a bs
    → Planted mem bs
    → Planted (update mem a v) bs
Planted-update mem a v [] out p = tt
Planted-update mem a v (b ∷ bs) out p = (ground arith, Planted-update mem a v bs out.1 p.1)

pub Below-mono : (m n : ℕ) (bs : List BreakpointInfo) → m ≤ n → Below m bs → Below n bs
Below-mono m n [] h p = tt
Below-mono m n (b ∷ bs) h p = (omega arith, p.1)

module _ (a status : ℕ) where
  set_status-Absent :
      (c : ℕ) (bs : List BreakpointInfo) → Absent c bs → OnSome (Absent c) (set_status a status bs)
  unfolding set_status
  set_status-Absent c [] p = tt
  set_status-Absent c (b ∷ bs) p = ground (arith, set_status-Absent c bs p.1)

  pub set_status-Distinct :
      (bs : List BreakpointInfo) → Distinct bs → OnSome Distinct (set_status a status bs)
  unfolding set_status
  set_status-Distinct [] p = tt
  set_status-Distinct (b ∷ bs) p =
      ground (arith, set_status-Distinct bs p.1, set_status-Absent b.addr bs p.0)

  pub set_status-Below :
      (n : ℕ) (bs : List BreakpointInfo) → Below n bs → OnSome (Below n) (set_status a status bs)
  unfolding set_status
  set_status-Below n [] p = tt
  set_status-Below n (b ∷ bs) p = ground (arith, set_status-Below b.num bs p.1)

  pub length-set_status :
      (bs : List BreakpointInfo) → OnSome (λ bs'. length bs' ≡ length bs) (set_status a status bs)
  unfolding set_status
  length-set_status [] = tt
  length-set_status (b ∷ bs) = ground (arith, length-set_status bs)

  -- With the opcode written at the address, the bytes still match.
  pub set_status-Planted :
      (mem : Memory) (bs : List BreakpointInfo)
      → Distinct bs
      → Planted mem bs
      → OnSome (Planted (update mem a (opcode status))) (set_status a status bs)
  unfolding set_status
  set_status-Planted mem [] d p = tt
  set_status-Planted mem (b ∷ bs) d p =
      ground (arith, set_status-Planted mem bs d.1 p.1, Planted-update mem a (opcode status) bs)

  -- The walk fails exactly where no node stands at the address.
  pub set_status-none : (bs : List BreakpointInfo) → set_status a status bs ≡ none → Absent a bs
  unfolding set_status
  set_status-none [] e = tt
  set_status-none (b ∷ bs) e = ground (arith, set_status-none bs)

module _ (a : ℕ) where
  unlink-Absent : (c : ℕ) (bs : List BreakpointInfo) → Absent c bs → OnSome (Absent c) (unlink a bs)
  unfolding unlink
  unlink-Absent c [] p = tt
  unlink-Absent c (b ∷ bs) p = ground (arith, unlink-Absent c bs p.1)

  pub unlink-Distinct : (bs : List BreakpointInfo) → Distinct bs → OnSome Distinct (unlink a bs)
  unfolding unlink
  unlink-Distinct [] p = tt
  unlink-Distinct (b ∷ bs) p = ground (arith, unlink-Distinct bs p.1, unlink-Absent b.addr bs p.0)

  pub unlink-Below :
      (n : ℕ) (bs : List BreakpointInfo) → Below n bs → OnSome (Below n) (unlink a bs)
  unfolding unlink
  unlink-Below n [] p = tt
  unlink-Below n (b ∷ bs) p = ground (arith, unlink-Below b.num bs p.1, Below-mono b.num n bs)

  pub length-unlink :
      (bs : List BreakpointInfo) → OnSome (λ bs'. length bs ≡ suc (length bs')) (unlink a bs)
  unfolding unlink
  length-unlink [] = tt
  length-unlink (b ∷ bs) = ground (arith, length-unlink bs)

  -- What is left has no node at the address, so any byte may be written there.
  pub unlink-Planted :
      (mem : Memory) (v : ℕ) (bs : List BreakpointInfo)
      → Distinct bs
      → Planted mem bs
      → OnSome (Planted (update mem a v)) (unlink a bs)
  unfolding unlink
  unlink-Planted mem v [] d p = tt
  unlink-Planted mem v (b ∷ bs) d p =
      ground (arith, unlink-Planted mem v bs d.1 p.1, Planted-update mem a v bs)
