-- ===== src/Debugger/State.antt =====
-- The state that Assignment4/debug.c works on: the structures of debug.h, the part of
-- `struct exec_context` that it reads or writes, and the machine around them.
use cs330_assignments.Base.{ℕ, ◌-◌, Bool, false, Option, List, Memory, update}

-- A node of the breakpoint list, with its address; the `next` pointers are the order of a list of
-- nodes.
pub record BreakpointInfo : Type 0 where
  pub node : ℕ
  pub num : ℕ
  pub status : ℕ
  pub addr : ℕ

-- `backtrace_info` is an array of `max_backtrace` words; the function has what lies there and
-- behind it.
pub record DebugInfo : Type 0 where
  pub head : List BreakpointInfo
  pub size : ℕ
  pub breakpt_num : ℕ
  pub backtrace_info : ℕ → ℕ

-- `struct breakpoint`, the entry that user space is given.
pub record Breakpoint : Type 0 where
  pub num : ℕ
  pub status : ℕ
  pub addr : ℕ

abbrev pub max_backtrace : ℕ
max_backtrace = 64

abbrev pub max_breakpoints : ℕ
max_breakpoints = 8

abbrev pub int3_opcode : ℕ
int3_opcode = 0xcc

abbrev pub pushrbp_opcode : ℕ
pushrbp_opcode = 0x55

abbrev pub end_addr : ℕ
end_addr = 0x1_0000_003b

abbrev pub child_exit : ℕ
child_exit = 0

abbrev pub max_processes : ℕ
max_processes = 7

-- `enum process_state`.
pub data ProcessState : Type 0 where
  unused new ready running waiting exiting : ProcessState

-- `struct user_regs`, and `struct registers` of debug.h, which has the same fields.
pub record Registers : Type 0 where
  pub r15 : ℕ
  pub r14 : ℕ
  pub r13 : ℕ
  pub r12 : ℕ
  pub r11 : ℕ
  pub r10 : ℕ
  pub r9 : ℕ
  pub r8 : ℕ
  pub rbp : ℕ
  pub rdi : ℕ
  pub rsi : ℕ
  pub rdx : ℕ
  pub rcx : ℕ
  pub rbx : ℕ
  pub rax : ℕ
  pub entry_rip : ℕ
  pub entry_cs : ℕ
  pub entry_rflags : ℕ
  pub entry_rsp : ℕ
  pub entry_ss : ℕ

pub record ExecContext : Type 0 where
  pub pid : ℕ
  pub ppid : ℕ
  pub state : ProcessState
  pub regs : Registers
  pub dbg : Option DebugInfo

-- Contexts by address, the bytes of memory, how many structures of debuggers `os_alloc` has handed
-- out and not got back, at which addresses there is a node that it has handed out and not got back,
-- the addresses that it hands out for nodes one after the other, how many of them it has handed
-- out, and the context that `schedule` was last called for.
pub record Machine : Type 0 where
  pub contexts : ℕ → ExecContext
  pub mem : Memory
  pub live_infos : ℕ
  pub live_nodes : ℕ → Bool
  pub os_nodes : ℕ → ℕ
  pub taken_nodes : ℕ
  pub scheduled : Option ℕ

-- `*ctx = c`.
abbrev pub put : Machine → ℕ → ExecContext → Machine
put m ctx c = record m { contexts = update m.contexts ctx c }

-- `ctx->dbg = d`.
abbrev pub set_dbg : Machine → ℕ → Option DebugInfo → Machine
set_dbg m ctx d = put m ctx (record (m.contexts ctx) { dbg = d })

-- `ctx->state = s`.
abbrev pub set_state : Machine → ℕ → ProcessState → Machine
set_state m ctx s = put m ctx (record (m.contexts ctx) { state = s })

-- `ctx->regs.rax = v`.
abbrev pub set_rax : Machine → ℕ → ℕ → Machine
set_rax m ctx v =
    put m ctx (record (m.contexts ctx) { regs = record ((m.contexts ctx).regs) { rax = v } })

-- `*(char*)addr = v`.
abbrev pub poke : Machine → ℕ → ℕ → Machine
poke m addr v = record m { mem = update m.mem addr v }

-- `os_free` of the node at an address, and of a debugger's structure.
abbrev pub free_breakpoint_info : ℕ → Machine → Machine
free_breakpoint_info node m = record m { live_nodes = update m.live_nodes node false }

abbrev pub free_debug_info : Machine → Machine
free_debug_info m = record m { live_infos = m.live_infos - 1 }
