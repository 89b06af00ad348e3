-- ===== src/Debugger/Processes.antt =====
-- The process side of Assignment4/debug.c: fork and exit of debugger and debuggee, the child's
-- registers, and the wait of the debugger. `by_pid` is `get_ctx_by_pid`, which is not in the
-- repository.
pub mod Handover
pub mod Exit
use cs330_assignments.Base.{
  ℕ, zero, suc, ◌+◌, ◌-◌, ◌%◌, ◌^◌, Bool, true, false, not, ◌&&◌, Option, none, some, List, [], ◌∷◌,
  ℤ, pos, minus_one, ◌==◌, dec64, if◌then◌else◌,
}
use cs330_assignments.Debugger.State.{
  BreakpointInfo, DebugInfo, ProcessState, Registers, unused, new, ready, running, waiting, exiting,
  ExecContext, Machine, max_processes, child_exit, put, set_dbg, set_rax, set_state,
  free_breakpoint_info, free_debug_info,
}

unfoldable pub debugger_on_fork : ℕ → Machine → Machine
debugger_on_fork child m = set_state (set_dbg m child none) child waiting

-- The loop of `debugger_on_exit`: every node of the list is freed.
unfoldable pub free_all : List BreakpointInfo → Machine → Machine
free_all [] m = m
free_all (b ∷ bs) m = free_all bs (free_breakpoint_info b.node m)

unfoldable pub drop_debugger : ℕ → Machine → Machine
drop_debugger ctx m = elim (m.contexts ctx).dbg [
  | none ↦ m
  | some d ↦ set_dbg (free_debug_info (free_all d.head m)) ctx none
]

unfoldable pub wake_parent : ℕ → Machine → Machine
wake_parent parent m = elim (m.contexts parent).dbg [
  | none ↦ m
  | some d ↦ set_rax (set_state m parent ready) parent child_exit
]

unfoldable pub debugger_on_exit : (ℕ → Option ℕ) → ℕ → Machine → Machine
debugger_on_exit by_pid ctx m =
    let m' = drop_debugger ctx m in
    elim (by_pid (m'.contexts ctx).ppid) [ none ↦ m' | some parent ↦ wake_parent parent m' ]

abbrev pub is_unused : ProcessState → Bool
is_unused unused = true
is_unused _ = false

-- The outcome of the loop for a child: one is found, none is, or a null context is read.
pub data Search : Type 0 where
  found : ℕ → Search
  missing : Search
  fault : Search

-- The loop over `ctr`, with `rounds` process ids left: the first context in use whose parent is
-- `pid`. A null context is read like any other.
unfoldable pub find_child : (ℕ → Option ℕ) → Machine → ℕ → ℕ → ℕ → Search
find_child by_pid m pid zero ctr = missing
find_child by_pid m pid (suc rounds) ctr =
    let rest = find_child by_pid m pid rounds (suc ctr) in
    elim (by_pid ctr) [
      | none ↦ fault
      | some p ↦
          if not (is_unused (m.contexts p).state) && ((m.contexts p).ppid == pid)
          then found p
          else rest
    ]

abbrev pub child_of : (ℕ → Option ℕ) → ℕ → Machine → Search
child_of by_pid ctx m = find_child by_pid m (m.contexts ctx).pid (max_processes - 1) 1

-- `none` is the fault. All registers are the child's, but for the two that undo the trap.
unfoldable pub do_info_registers : (ℕ → Option ℕ) → ℕ → Registers → Machine → Option (ℤ × Registers)
do_info_registers by_pid ctx regs m = elim (child_of by_pid ctx m) [
  | fault ↦ none
  | missing ↦ some (minus_one, regs)
  | found p ↦
      let r = (m.contexts p).regs in
      some
        (pos 0, record r { entry_rip = dec64 r.entry_rip; entry_rsp = (r.entry_rsp + 8) % 2 ^ 64 })
]

-- The debugger waits, the child runs; the debugger finds -1 in `rax` unless a later trap or exit
-- puts another value there.
unfoldable pub hand_over : ℕ → ℕ → Machine → Machine
hand_over ctx child m =
    record (set_rax (set_state (set_state m ctx waiting) child ready) ctx (2 ^ 64 - 1)) {
      scheduled = some child;
    }

unfoldable pub do_wait_and_continue : (ℕ → Option ℕ) → ℕ → Machine → Option (ℤ × Machine)
do_wait_and_continue by_pid ctx m = elim (m.contexts ctx).dbg [
  | none ↦ some (minus_one, m)
  | some d ↦ elim (child_of by_pid ctx m) [
    | fault ↦ none
    | missing ↦ some (minus_one, m)
    | found child ↦ some (minus_one, hand_over ctx child m)
  ]
]
