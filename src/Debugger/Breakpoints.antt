-- ===== src/Debugger/Breakpoints.antt =====
-- The breakpoint calls of Assignment4/debug.c, as the debugger makes them. `ctx` is the address of
-- the debugger's context; `alloc` says whether `os_alloc` has memory left.

pub mod Lists
pub mod Invariant
pub mod Refinement
pub mod Changes
pub mod Info
use cs330_assignments.Base.{
  ℕ, zero, suc, ◌+◌, ◌-◌, ◌%◌, ◌^◌, Bool, true, false, Option, none, some, List, [], ◌∷◌, ℤ, pos,
  minus_one, ltb_ℤ, s32, inc32, dec32, ◌==◌, if◌then◌else◌, update,
}
use cs330_assignments.Debugger.State.{
  BreakpointInfo, DebugInfo, Breakpoint, Machine, ExecContext, max_breakpoints, int3_opcode,
  pushrbp_opcode, set_dbg, poke, free_breakpoint_info,
}

-- The walks of the list that give the first node at an address a new status: the node found, and
-- the list after the write.
unfoldable pub set_status : ℕ → ℕ → List BreakpointInfo → Option (List BreakpointInfo)
set_status addr status [] = none
set_status addr status (b ∷ bs) =
    let rest = set_status addr status bs in
    if b.addr == addr
    then some (record b { status = status } ∷ bs)
    else elim rest [ none ↦ none | some bs' ↦ some (b ∷ bs') ]

-- The walk of `do_remove_breakpoint`: unlinks the first node at an address.
unfoldable pub unlink : ℕ → List BreakpointInfo → Option (List BreakpointInfo)
unlink addr [] = none
unlink addr (b ∷ bs) =
    let rest = unlink addr bs in
    if b.addr == addr then some bs else elim rest [ none ↦ none | some bs' ↦ some (b ∷ bs') ]

-- The address of the node that the walk unlinks.
unfoldable pub node_at : ℕ → List BreakpointInfo → ℕ
node_at addr [] = 0
node_at addr (b ∷ bs) = let rest = node_at addr bs in if b.addr == addr then b.node else rest

-- What `alloc_debug_info` hands out: zeroed memory.
abbrev pub alloc_debug_info : DebugInfo
alloc_debug_info = record { head = []; size = 0; breakpt_num = 0; backtrace_info = λ _. 0 }

unfoldable pub do_become_debugger : Bool → ℕ → Machine → ℤ × Machine
do_become_debugger false ctx m = (minus_one, set_dbg m ctx none)
do_become_debugger true ctx m = (
  pos 0,
  record (set_dbg m ctx (some (record alloc_debug_info { head = []; size = 0; breakpt_num = 0 }))) {
    live_infos = m.live_infos + 1;
  },
)

-- The part of `do_set_breakpoint` behind its loop: a new node at the head of the list.
unfoldable pub add_breakpoint : Bool → ℕ → ℕ → DebugInfo → Machine → ℤ × Machine
add_breakpoint alloc ctx addr d m =
    if ltb_ℤ (s32 d.size) (pos max_breakpoints)
    then (if alloc
        then (
          pos 0,
          record (poke (set_dbg m ctx (some d')) addr int3_opcode) {
            live_nodes = update m.live_nodes (m.os_nodes m.taken_nodes) true;
            taken_nodes = m.taken_nodes + 1;
          },
        )
        else (minus_one, m))
    else (minus_one, m)
  where
    d' : DebugInfo
    d' = record d {
      head =
          record {
            node = m.os_nodes m.taken_nodes;
            num = inc32 d.breakpt_num;
            status = 1;
            addr = addr;
          }
          ∷ d.head;
      size = inc32 d.size;
      breakpt_num = inc32 d.breakpt_num;
    }

unfoldable pub do_set_breakpoint : Bool → ℕ → ℕ → Machine → ℤ × Machine
do_set_breakpoint alloc ctx addr m = elim (m.contexts ctx).dbg [
  | none ↦ (minus_one, m)
  | some d ↦ elim (set_status addr 1 d.head) [
    | none ↦ add_breakpoint alloc ctx addr d m
    | some bs ↦ (pos 0, poke (set_dbg m ctx (some (record d { head = bs }))) addr int3_opcode)
  ]
]

unfoldable pub do_remove_breakpoint : ℕ → ℕ → Machine → ℤ × Machine
do_remove_breakpoint ctx addr m = elim (m.contexts ctx).dbg [
  | none ↦ (minus_one, m)
  | some d ↦ elim (unlink addr d.head) [
    | none ↦ (minus_one, m)
    | some bs ↦ (
      pos 0,
      poke
          (free_breakpoint_info (node_at addr d.head)
            (set_dbg m ctx (some (record d { head = bs; size = dec32 d.size }))))
          addr pushrbp_opcode,
    )
  ]
]

unfoldable pub do_enable_breakpoint : ℕ → ℕ → Machine → ℤ × Machine
do_enable_breakpoint ctx addr m = elim (m.contexts ctx).dbg [
  | none ↦ (minus_one, m)
  | some d ↦ elim (set_status addr 1 d.head) [
    | none ↦ (minus_one, m)
    | some bs ↦ (pos 0, poke (set_dbg m ctx (some (record d { head = bs }))) addr int3_opcode)
  ]
]

unfoldable pub do_disable_breakpoint : ℕ → ℕ → Machine → ℤ × Machine
do_disable_breakpoint ctx addr m = elim (m.contexts ctx).dbg [
  | none ↦ (minus_one, m)
  | some d ↦ elim (set_status addr 0 d.head) [
    | none ↦ (minus_one, m)
    | some bs ↦ (pos 0, poke (set_dbg m ctx (some (record d { head = bs }))) addr pushrbp_opcode)
  ]
]

-- The loop of `do_info_breakpoints`, at `idx`: entry `size - idx - 1` of the caller's array is
-- written, an `int` index as its 32-bit pattern.
unfoldable pub info_loop : ℕ → ℕ → List BreakpointInfo → (ℕ → Breakpoint) → ℕ → Breakpoint
info_loop size idx [] ubp = ubp
info_loop size idx (b ∷ bs) ubp = info_loop size (idx + 1) bs (
    update ubp ((size + 2 ^ 32 - idx - 1) % 2 ^ 32)
      (record { num = b.num; addr = b.addr; status = b.status }))

-- The array is `none` for a null pointer.
unfoldable pub do_info_breakpoints :
    ℕ → Option (ℕ → Breakpoint) → Machine → ℤ × Option (ℕ → Breakpoint)
do_info_breakpoints ctx none m = (minus_one, none)
do_info_breakpoints ctx (some ubp) m = elim (m.contexts ctx).dbg [
  | none ↦ (minus_one, some ubp)
  | some d ↦ (s32 d.size, some (info_loop d.size 0 d.head ubp))
]
