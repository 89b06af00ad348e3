-- ===== src/Debugger/Examples.antt =====
-- Runs of the model of Assignment4/debug.c, and its theorems at concrete machines: a debugger at
-- address 1 with process id 1, and its child at address 2 with process id 2.
use cs330_assignments.Base.{
  ◌+◌, ◌*◌, ◌||◌, ℕ, ◌≤◌, ◌≡◌, ◌≢◌, ◌⊎◌, inl, refl, true, false, Option, none, some, List, [], ◌∷◌,
  pos, negsuc, arith, ◌==◌, if◌then◌else◌, slice, Memory, load64, store64, update,
}
use cs330_assignments.Debugger.State.{
  DebugInfo, Breakpoint, Registers, ProcessState, unused, ready, running, waiting, ExecContext,
  Machine, set_dbg, set_state, int3_opcode,
}
use cs330_assignments.Debugger.Breakpoints.{
  set_status, do_become_debugger, add_breakpoint, do_set_breakpoint, do_disable_breakpoint,
}
use cs330_assignments.Debugger.Breakpoints.Invariant.{
  IsValid, Inv, Call, become_debugger, set_breakpoint, disable_breakpoint, step, run, run-Inv,
}
use cs330_assignments.Debugger.Breakpoints.Changes.{enable, make_change, make_change-Effect}
use cs330_assignments.Debugger.Breakpoints.Refinement.{
  status_in, status_of, Effect, Refused, SetOutcome, do_set_breakpoint-Effect,
}
use cs330_assignments.Debugger.Trap.{int3_handler, do_backtrace}
use cs330_assignments.Debugger.Trap.Backtrace.{last, call, InCalls, do_backtrace-int3_handler}
use cs330_assignments.Debugger.Processes.{
  debugger_on_exit, find_child, do_wait_and_continue, hand_over,
}
use cs330_assignments.Debugger.Processes.Handover.{
  waits, traps, Reach, here, next, Turns, Reach-Turns,
}
use cs330_assignments.Debugger.Processes.Exit.{is_among, nodes_of, debugger_on_exit_frees}

abbrev no_regs : Registers
no_regs = record {
  r15 = 0;
  r14 = 0;
  r13 = 0;
  r12 = 0;
  r11 = 0;
  r10 = 0;
  r9 = 0;
  r8 = 0;
  rbp = 1100;
  rdi = 0;
  rsi = 0;
  rdx = 0;
  rcx = 0;
  rbx = 0;
  rax = 0;
  entry_rip = 5001;
  entry_cs = 0;
  entry_rflags = 0;
  entry_rsp = 1000;
  entry_ss = 0;
}

abbrev context : ℕ → ℕ → ProcessState → ExecContext
context pid ppid s = record { pid = pid; ppid = ppid; state = s; regs = no_regs; dbg = none }

abbrev contexts : ℕ → ExecContext
contexts p =
    if p == 1
    then context 1 0 running
    else if p == 2
    then context 2 1 waiting
    else context p 9 unused

-- Two calls in progress: they return to 7001 and to 7002.
abbrev stack : Memory
stack =
    store64 (store64 (store64 (store64 (λ _. 0) 1000 7001) 1100 1200) 1108 7002) 1208 0x1_0000_003b

abbrev start : Machine
start = record {
  contexts = contexts;
  mem = stack;
  live_infos = 0;
  live_nodes = λ a. false;
  os_nodes = λ i. 9000 + 32 * i;
  taken_nodes = 0;
  scheduled = none;
}

abbrev by_pid : ℕ → Option ℕ
by_pid pid = if pid == 0 then none else some pid

abbrev history : List Call
history =
    become_debugger true
    ∷ set_breakpoint true 5000
    ∷ set_breakpoint true 6000
    ∷ set_breakpoint false 6500
    ∷ disable_breakpoint 6000
    ∷ []

abbrev debugging : Machine
debugging = run 1 start history

run-Inv_example : Inv 0 1 debugging
run-Inv_example = run-Inv 1 start history refl (omega arith)

numbers : status_of 1 debugging 6000 ≡ some 0
unfolding status_of status_in run step do_become_debugger do_set_breakpoint add_breakpoint
    do_disable_breakpoint set_status
numbers = refl

do_set_breakpoint-Effect_example :
    SetOutcome 0 1 6500 debugging run-Inv_example true (do_set_breakpoint true 1 6500 debugging)
do_set_breakpoint-Effect_example = do_set_breakpoint-Effect 0 1 6500 debugging run-Inv_example true

make_change-Effect_example :
    ((status_of 1 debugging 6000 ≡ none) × Refused debugging (make_change enable 1 6000 debugging))
    ⊎ ((status_of 1 debugging 6000 ≢ none)
        × Effect 1 6000 (some 1) int3_opcode debugging (make_change enable 1 6000 debugging))
make_change-Effect_example = make_change-Effect enable 0 1 6000 debugging run-Inv_example

-- The list of `debugging`, its second breakpoint disabled.
abbrev two : DebugInfo
two = record {
  head =
      record { node = 9032; num = 2; status = 0; addr = 6000 }
      ∷ record { node = 9000; num = 1; status = 1; addr = 5000 }
      ∷ [];
  size = 2;
  breakpt_num = 2;
  backtrace_info = λ _. 0;
}

abbrev blank : ℕ → Breakpoint
blank _ = record { num = 0; status = 0; addr = 0 }

abbrev debugged : Machine
debugged = record (set_dbg start 1 (some two)) {
  mem = update (update stack 5000 0xcc) 6000 0x55;
  live_infos = 1;
  live_nodes = λ a. (a == 9000) || (a == 9032) || (a == 9500);
  taken_nodes = 2;
}

two-IsValid : IsValid 0 debugged.mem two
two-IsValid = record {
  size_length = refl;
  bounded = omega arith;
  distinct = ((omega arith, tt), (tt, tt));
  numbered = omega arith;
  planted = (refl, (refl, tt));
  room = omega arith;
}

-- The child of `debugged` runs.
abbrev child_runs : Machine
child_runs = set_state (set_state debugged 1 waiting) 2 running

in_calls : InCalls child_runs.mem (child_runs.contexts 2).regs (7001 ∷ 7002 ∷ [])
unfolding load64 store64
in_calls = record {
  low = omega arith;
  high = omega arith;
  small = omega arith;
  apart = omega arith;
  calls =
      call (omega arith) refl (omega arith) (omega arith) (omega arith) (
        call (omega arith) refl (omega arith) (omega arith) (omega arith)
          (last (omega arith) refl));
}

do_backtrace-int3_handler_example :
    (out : ℕ → ℕ) × ((int3_handler by_pid 2 child_runs).0 ≡ pos 0)
    × (do_backtrace 1 (some (λ _. 0)) (int3_handler by_pid 2 child_runs).1 ≡ (pos 3, some out))
    × (slice out 0 3 ≡ 5000 ∷ 7001 ∷ 7002 ∷ [])
    × ((j : ℕ) → 3 ≤ j → out j ≡ 0)
do_backtrace-int3_handler_example =
    do_backtrace-int3_handler by_pid 2 1 child_runs two (7001 ∷ 7002 ∷ []) refl refl (omega arith)
      in_calls (λ _. 0)

debugged-Turns : Turns by_pid 1 2 debugged
unfolding find_child
debugged-Turns = record {
  debugger = λ e. cc;
  finds_parent = refl;
  finds_child = refl;
  alive = refl;
  alive_child = refl;
  turn = inl (λ e. cc, refl);
}

waited : do_wait_and_continue by_pid 1 debugged ≡ some (negsuc 0, hand_over 1 2 debugged)
unfolding do_wait_and_continue find_child
waited = refl

child_turn : ((hand_over 1 2 debugged).contexts 2).state ≡ ready
unfolding hand_over
child_turn = refl

trapped : Machine
trapped = (int3_handler by_pid 2 (hand_over 1 2 debugged)).1

reached : Reach by_pid 1 2 debugged trapped
unfolding trapped
reached = next (next here (waits (λ e. cc) waited)) (traps (λ e. cc child_turn))

Reach-Turns_example : Turns by_pid 1 2 trapped
Reach-Turns_example = Reach-Turns by_pid 1 2 (omega arith) debugged-Turns reached

debugger_on_exit_frees_example :
    ((a : ℕ)
      → (debugger_on_exit by_pid 1 debugged).live_nodes a
        ≡ (if is_among a (nodes_of two.head) then false else debugged.live_nodes a))
    × ((debugger_on_exit by_pid 1 debugged).live_infos ≡ 0)
    × (((debugger_on_exit by_pid 1 debugged).contexts 1).dbg ≡ none)
    × ((debugger_on_exit by_pid 1 debugged).mem ≡ debugged.mem)
    × ((p : ℕ)
        → 1 ≢ p
        → by_pid 0 ≢ some p
        → (debugger_on_exit by_pid 1 debugged).contexts p ≡ debugged.contexts p)
debugger_on_exit_frees_example = debugger_on_exit_frees by_pid 1 0 debugged two refl refl
