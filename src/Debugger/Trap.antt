-- ===== src/Debugger/Trap.antt =====
-- The breakpoint trap of Assignment4/debug.c and the backtrace that it leaves for the debugger.
-- `get_ctx_by_pid` is not in the repository: here it is a parameter, `by_pid`, from a process id to
-- the address of its context.
pub mod Backtrace
use cs330_assignments.Base.{
  ℕ, zero, suc, ◌+◌, ◌-◌, ◌%◌, ◌^◌, Option, none, some, ℤ, pos, minus_one, ltb, ◌==◌, dec64,
  if◌then◌else◌, update, Memory, load64, store64,
}
use cs330_assignments.Debugger.State.{
  DebugInfo, ProcessState, waiting, ready, ExecContext, Machine, max_backtrace, end_addr, put,
  set_dbg, set_rax, set_state,
}

-- The loop of `int3_handler` with `rounds` entries of the array left from `idx` on: the array and
-- the final `idx`. The address behind a saved frame pointer holds the return address.
unfoldable pub trace_loop : ℕ → ℕ → ℕ → ℕ → Memory → (ℕ → ℕ) → (ℕ → ℕ) × ℕ
trace_loop zero idx rbp_address addr mem info = (info, idx)
trace_loop (suc rounds) idx rbp_address addr mem info =
    let next = load64 mem rbp_address in
    let rest =
      trace_loop rounds (suc idx) next (load64 mem ((next + 8) % 2 ^ 64)) mem
        (update info idx addr) in
    if addr == end_addr then (info, idx) else rest

-- The array after the trap: the address of the breakpoint, the return addresses, and the end mark
-- if there is room for it.
unfoldable pub trace : Memory → ℕ → ℕ → (ℕ → ℕ) → ℕ → ℕ
trace mem rip rsp info =
    let (info', idx) =
      trace_loop (max_backtrace - 1) 1 rsp (load64 mem ((rsp + 8) % 2 ^ 64)) mem
        (update info 0 (dec64 rip)) in
    if ltb idx max_backtrace then update info' idx end_addr else info'

-- The push of `rbp` that the breakpoint replaced, and the child's new state.
unfoldable pub push_rbp : ℕ → Machine → Machine
push_rbp ctx m = record m {
  mem = store64 m.mem rsp c.regs.rbp;
  contexts =
      update m.contexts ctx
        (record c { regs = record (c.regs) { entry_rsp = rsp }; state = waiting });
}
  where
    c : ExecContext
    c = m.contexts ctx

    rsp : ℕ
    rsp = (c.regs.entry_rsp + (2 ^ 64 - 8)) % 2 ^ 64

-- The rest of the handler, for a parent that is a debugger.
unfoldable pub report : ℕ → ℕ → DebugInfo → Machine → Machine
report ctx parent d m = record (set_rax traced parent (dec64 c.regs.entry_rip)) {
  scheduled = some parent;
}
  where
    c : ExecContext
    c = m.contexts ctx

    traced : Machine
    traced = set_dbg m parent (
        some (record d {
          backtrace_info = trace m.mem c.regs.entry_rip c.regs.entry_rsp d.backtrace_info;
        }))

unfoldable pub int3_handler : (ℕ → Option ℕ) → ℕ → Machine → ℤ × Machine
int3_handler by_pid ctx m = elim (by_pid (m.contexts ctx).ppid) [
  | none ↦ (minus_one, m)
  | some parent ↦ elim (m.contexts parent).dbg [
    | none ↦ (minus_one, m)
    | some d ↦ (pos 0, report ctx parent d (set_state (push_rbp ctx m) parent ready))
  ]
]

-- The loop of `do_backtrace` with `rounds` entries left from `count` on.
unfoldable pub copy_loop : ℕ → ℕ → (ℕ → ℕ) → (ℕ → ℕ) → (ℕ → ℕ) × ℕ
copy_loop zero count info bt = (bt, count)
copy_loop (suc rounds) count info bt =
    let rest = copy_loop rounds (suc count) info (update bt count (info count)) in
    if info count == end_addr then (bt, count) else rest

-- The buffer is `none` for a null address.
unfoldable pub do_backtrace : ℕ → Option (ℕ → ℕ) → Machine → ℤ × Option (ℕ → ℕ)
do_backtrace ctx buf m = elim (m.contexts ctx).dbg [
  | none ↦ (minus_one, buf)
  | some d ↦ elim buf [
    | none ↦ (minus_one, none)
    | some bt ↦ let r = copy_loop max_backtrace 0 d.backtrace_info bt in (pos r.1, some r.0)
  ]
]
