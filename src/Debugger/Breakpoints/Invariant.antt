-- ===== src/Debugger/Breakpoints/Invariant.antt =====
-- The invariant of the breakpoint list and the code bytes that it stands for, over any sequence of
-- the calls of Assignment4/debug.c that change them.
use cs330_assignments.Base.{
  ℕ, suc, ◌+◌, ◌≤◌, ◌<◌, ◌^◌, ◌≡◌, Bool, true, false, Option, none, some, List, [], ◌∷◌, arith,
  length, Memory, update, inl, inr, Option-cases, dec32, subst, refl,
}
use cs330_assignments.Debugger.State.{DebugInfo, Machine, max_breakpoints}
use cs330_assignments.Debugger.Breakpoints.{
  set_status, unlink, do_become_debugger, add_breakpoint, do_set_breakpoint, do_remove_breakpoint,
  do_enable_breakpoint, do_disable_breakpoint,
}
use cs330_assignments.Debugger.Breakpoints.Lists.{
  opcode, Distinct, Below, Planted, OnSome, Planted-update, Below-mono, set_status-Distinct,
  set_status-Below, length-set_status, set_status-Planted, set_status-none, unlink-Distinct,
  unlink-Below, length-unlink, unlink-Planted,
}

-- `budget` more breakpoints can be numbered before the counter wraps.
pub record IsValid (budget : ℕ) (mem : Memory) (d : DebugInfo) : Type 0 where
  pub size_length : d.size ≡ length d.head
  pub bounded : length d.head ≤ max_breakpoints
  pub distinct : Distinct d.head
  pub numbered : Below (suc d.breakpt_num) d.head
  pub planted : Planted mem d.head
  pub room : d.breakpt_num + budget < 2 ^ 32

-- What holds of a process that may or may not be a debugger.
abbrev pub Holds : ℕ → Memory → Option DebugInfo → Type 0
Holds budget mem none = Unit {0}
Holds budget mem (some d) = IsValid budget mem d

-- The invariant of the process at an address.
abbrev pub Inv : ℕ → ℕ → Machine → Type 0
Inv budget ctx m = Holds budget m.mem (m.contexts ctx).dbg

module _ (n a : ℕ) (mem : Memory) (d : DebugInfo) (p : IsValid (suc n) mem d) where
  set_status-IsValid :
      (status : ℕ)
      → OnSome
          (λ bs. IsValid n (update mem a (opcode status)) (record d { head = bs }))
          (set_status a status d.head)
  set_status-IsValid status = ground (
    arith,
    set_status-Distinct a status d.head,
    set_status-Below a status (suc d.breakpt_num) d.head,
    length-set_status a status d.head,
    set_status-Planted a status mem d.head,
  )

  unlink-IsValid :
      (v : ℕ)
      → OnSome
          (λ bs. IsValid n (update mem a v) (record d { head = bs; size = dec32 d.size }))
          (unlink a d.head)
  unlink-IsValid v = ground (
    arith,
    unlink-Distinct a d.head,
    unlink-Below a (suc d.breakpt_num) d.head,
    length-unlink a d.head,
    unlink-Planted a mem v d.head,
  )

  add_breakpoint-Inv :
      (alloc : Bool) (ctx : ℕ) (m : Machine)
      → mem ≡ m.mem
      → (m.contexts ctx).dbg ≡ some d
      → set_status a 1 d.head ≡ none
      → Inv n ctx (add_breakpoint alloc ctx a d m).1
  unfolding add_breakpoint
  add_breakpoint-Inv alloc ctx m same e new = ground (
    arith,
    set_status-none a 1 d.head new,
    Planted-update mem a 0xcc d.head,
    Below-mono (suc d.breakpt_num) (suc (suc d.breakpt_num)) d.head,
  )

module _ (n ctx a : ℕ) (m : Machine) (p : Inv (suc n) ctx m) where
  do_enable_breakpoint-Inv : Inv n ctx (do_enable_breakpoint ctx a m).1
  unfolding do_enable_breakpoint
  do_enable_breakpoint-Inv = elim (Option-cases (m.contexts ctx).dbg) [
    | inl e ↦ ground arith
    | inr (d, e) ↦
        ground (arith, set_status-IsValid n a m.mem d (subst (Holds (suc n) m.mem) e p) 1)
  ]

  do_disable_breakpoint-Inv : Inv n ctx (do_disable_breakpoint ctx a m).1
  unfolding do_disable_breakpoint
  do_disable_breakpoint-Inv = elim (Option-cases (m.contexts ctx).dbg) [
    | inl e ↦ ground arith
    | inr (d, e) ↦
        ground (arith, set_status-IsValid n a m.mem d (subst (Holds (suc n) m.mem) e p) 0)
  ]

  do_remove_breakpoint-Inv : Inv n ctx (do_remove_breakpoint ctx a m).1
  unfolding do_remove_breakpoint
  do_remove_breakpoint-Inv = elim (Option-cases (m.contexts ctx).dbg) [
    | inl e ↦ ground arith
    | inr (d, e) ↦ ground (arith, unlink-IsValid n a m.mem d (subst (Holds (suc n) m.mem) e p) 0x55)
  ]

  do_set_breakpoint-Inv : (alloc : Bool) → Inv n ctx (do_set_breakpoint alloc ctx a m).1
  unfolding do_set_breakpoint
  do_set_breakpoint-Inv alloc = elim (Option-cases (m.contexts ctx).dbg) [
    | inl e ↦ ground arith
    | inr (d, e) ↦
        let q : IsValid (suc n) m.mem d = subst (Holds (suc n) m.mem) e p in
        ground (
          arith,
          set_status-IsValid n a m.mem d q 1,
          add_breakpoint-Inv n a m.mem d q alloc ctx m refl e,
        )
  ]

-- The calls of a debugger that change its breakpoints.
pub data Call : Type 0 where
  become_debugger : Bool → Call
  set_breakpoint : Bool → ℕ → Call
  remove_breakpoint enable_breakpoint disable_breakpoint : ℕ → Call

unfoldable pub step : ℕ → Machine → Call → Machine
step ctx m (become_debugger alloc) = (do_become_debugger alloc ctx m).1
step ctx m (set_breakpoint alloc a) = (do_set_breakpoint alloc ctx a m).1
step ctx m (remove_breakpoint a) = (do_remove_breakpoint ctx a m).1
step ctx m (enable_breakpoint a) = (do_enable_breakpoint ctx a m).1
step ctx m (disable_breakpoint a) = (do_disable_breakpoint ctx a m).1

unfoldable pub run : ℕ → Machine → List Call → Machine
run ctx m [] = m
run ctx m (c ∷ cs) = run ctx (step ctx m c) cs

do_become_debugger-Inv :
    (n ctx : ℕ) (alloc : Bool) (m : Machine)
    → n < 2 ^ 32
    → Inv n ctx (do_become_debugger alloc ctx m).1
unfolding do_become_debugger
do_become_debugger-Inv n ctx false m h = ground arith
do_become_debugger-Inv n ctx true m h = ground arith

step-Inv :
    (n ctx : ℕ) (m : Machine) (c : Call) → n < 2 ^ 32 → Inv (suc n) ctx m → Inv n ctx (step ctx m c)
unfolding step
step-Inv n ctx m (become_debugger alloc) h p = do_become_debugger-Inv n ctx alloc m h
step-Inv n ctx m (set_breakpoint alloc a) h p = do_set_breakpoint-Inv n ctx a m p alloc
step-Inv n ctx m (remove_breakpoint a) h p = do_remove_breakpoint-Inv n ctx a m p
step-Inv n ctx m (enable_breakpoint a) h p = do_enable_breakpoint-Inv n ctx a m p
step-Inv n ctx m (disable_breakpoint a) h p = do_disable_breakpoint-Inv n ctx a m p

run-Holds :
    (ctx : ℕ) (m : Machine) (cs : List Call)
    → length cs < 2 ^ 32
    → Inv (length cs) ctx m
    → Inv 0 ctx (run ctx m cs)
unfolding run
run-Holds ctx m [] h p = p
run-Holds ctx m (c ∷ cs) h p =
    run-Holds ctx (step ctx m c) cs (omega arith) (step-Inv (length cs) ctx m c (omega arith) p)

-- A process that is no debugger yet makes fewer than 2 ^ 32 calls of do_become_debugger,
-- do_set_breakpoint, do_remove_breakpoint, do_enable_breakpoint and do_disable_breakpoint, with any
-- addresses and with any allocation failing. If it is a debugger afterwards, then `size` is the
-- length of the breakpoint list and at most MAX_BREAKPOINTS, no two breakpoints stand at one
-- address, the numbers fall strictly from the head of the list and none exceeds `breakpt_num`, and
-- the byte at the address of each breakpoint is INT3_OPCODE if its status is not 0 and
-- PUSHRBP_OPCODE if it is.
pub run-Inv :
    (ctx : ℕ) (m : Machine) (cs : List Call)
    → (m.contexts ctx).dbg ≡ none
    → length cs < 2 ^ 32
    → Inv 0 ctx (run ctx m cs)
run-Inv ctx m cs e h = run-Holds ctx m cs h (ground arith)
