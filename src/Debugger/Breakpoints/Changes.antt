-- ===== src/Debugger/Breakpoints/Changes.antt =====
-- The calls of Assignment4/debug.c that change a breakpoint that exists, as one operation on the
-- map of breakpoints.
use cs330_assignments.Base.{ℕ, ◌≡◌, ◌≢◌, ◌⊎◌, Option, none, some, ℤ}
use cs330_assignments.Debugger.State.{Machine, int3_opcode, pushrbp_opcode}
use cs330_assignments.Debugger.Breakpoints.{
  do_remove_breakpoint, do_enable_breakpoint, do_disable_breakpoint,
}
use cs330_assignments.Debugger.Breakpoints.Invariant.{Inv}
use cs330_assignments.Debugger.Breakpoints.Refinement.{
  status_of, Effect, Refused, do_remove_breakpoint-Effect, do_enable_breakpoint-Effect,
  do_disable_breakpoint-Effect,
}

pub data Change : Type 0 where
  remove enable disable : Change

abbrev pub make_change : Change → ℕ → ℕ → Machine → ℤ × Machine
make_change remove = do_remove_breakpoint
make_change enable = do_enable_breakpoint
make_change disable = do_disable_breakpoint

-- What the map and the code hold at the address afterwards.
abbrev pub entry_after : Change → Option ℕ
entry_after remove = none
entry_after enable = some 1
entry_after disable = some 0

abbrev pub byte_after : Change → ℕ
byte_after remove = pushrbp_opcode
byte_after enable = int3_opcode
byte_after disable = pushrbp_opcode

-- For a process that satisfies the invariant of the breakpoint list, do_remove_breakpoint,
-- do_enable_breakpoint and do_disable_breakpoint return -1 and change nothing if the process is no
-- debugger or has no breakpoint at the address. Otherwise they return 0, and there the first takes
-- the breakpoint out of the map and writes PUSHRBP_OPCODE, the second gives it status 1 and writes
-- INT3_OPCODE, and the third gives it status 0 and writes PUSHRBP_OPCODE; no other breakpoint and
-- no other byte changes.
pub make_change-Effect :
    (ch : Change) (n ctx a : ℕ) (m : Machine)
    → Inv n ctx m
    → ((status_of ctx m a ≡ none) × Refused m (make_change ch ctx a m))
      ⊎ ((status_of ctx m a ≢ none)
          × Effect ctx a (entry_after ch) (byte_after ch) m (make_change ch ctx a m))
make_change-Effect remove n ctx a m p = do_remove_breakpoint-Effect n ctx a m p
make_change-Effect enable n ctx a m p = do_enable_breakpoint-Effect n ctx a m p
make_change-Effect disable n ctx a m p = do_disable_breakpoint-Effect n ctx a m p
