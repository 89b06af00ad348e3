-- ===== src/Debugger/Processes/Exit.antt =====
-- The exit handler of Assignment4/debug.c: what it frees and whom it wakes.
use cs330_assignments.Base.{
  ℕ, suc, ◌≡◌, ◌≢◌, refl, Bool, false, ◌||◌, Option, none, some, List, [], ◌∷◌, map, arith, ◌==◌,
  if◌then◌else◌,
}
use cs330_assignments.Debugger.State.{
  BreakpointInfo, DebugInfo, ready, Machine, set_dbg, child_exit, free_breakpoint_info,
}
use cs330_assignments.Debugger.Processes.{free_all, drop_debugger, wake_parent, debugger_on_exit}

-- The nodes of a list: the address of each.
abbrev pub nodes_of : List BreakpointInfo → List ℕ
nodes_of bs = map (λ b. b.node) bs

-- Whether an address is in a list.
unfoldable pub is_among : ℕ → List ℕ → Bool
is_among a [] = false
is_among a (x ∷ xs) = (x == a) || is_among a xs

-- Freed are the nodes of the list and no others.
free_all_live :
    (bs : List BreakpointInfo) (m : Machine) (a : ℕ)
    → (free_all bs m).live_nodes a ≡ (if is_among a (nodes_of bs) then false else m.live_nodes a)
unfolding free_all is_among
free_all_live [] m a = refl
free_all_live (b ∷ bs) m a =
    let rest = free_all_live bs (free_breakpoint_info b.node m) a in ground (arith, rest)

-- The frees change nothing else.
free_all_frame :
    (bs : List BreakpointInfo) (m : Machine)
    → free_all bs m ≡ record m { live_nodes = (free_all bs m).live_nodes }
unfolding free_all
free_all_frame [] m = refl
free_all_frame (b ∷ bs) m = free_all_frame bs (free_breakpoint_info b.node m)

-- The exit of a debugger whose list is `d.head`, with `infos` other structures allocated, and whose
-- own parent has its context at the address that `by_pid` gives, or has none.
module _ (by_pid : ℕ → Option ℕ) (ctx infos : ℕ) (m : Machine) (d : DebugInfo)
    (debugger : (m.contexts ctx).dbg ≡ some d) (own_info : m.live_infos ≡ suc infos) where
  dropped : drop_debugger ctx m ≡ record (set_dbg m ctx none) {
    live_nodes = (free_all d.head m).live_nodes;
    live_infos = infos;
  }
  unfolding drop_debugger
  dropped = ground (arith, free_all_frame d.head m)

  -- A debugger exits. Then debugger_on_exit frees the nodes of its list and no other node, by their
  -- addresses, and one structure, leaves it without a structure, and changes no byte of memory and
  -- no context but its own and its parent's.
  pub debugger_on_exit_frees :
      ((a : ℕ)
        → (debugger_on_exit by_pid ctx m).live_nodes a
          ≡ (if is_among a (nodes_of d.head) then false else m.live_nodes a))
      × ((debugger_on_exit by_pid ctx m).live_infos ≡ infos)
      × (((debugger_on_exit by_pid ctx m).contexts ctx).dbg ≡ none)
      × ((debugger_on_exit by_pid ctx m).mem ≡ m.mem)
      × ((p : ℕ)
          → ctx ≢ p
          → by_pid (m.contexts ctx).ppid ≢ some p
          → (debugger_on_exit by_pid ctx m).contexts p ≡ m.contexts p)
  unfolding debugger_on_exit wake_parent
  debugger_on_exit_frees = (
    λ a. ground (arith, dropped, free_all_live d.head m a),
    ground (arith, dropped),
    ground (arith, dropped),
    ground (arith, dropped),
    λ p h k. ground (arith, dropped),
  )

-- A process that is no debugger exits, and its parent is a debugger. Then debugger_on_exit makes
-- the parent ready with CHILD_EXIT in `rax`, keeps its breakpoints, and changes neither memory nor
-- what is allocated nor any other context.
pub debugger_on_exit_wakes :
    (by_pid : ℕ → Option ℕ) (ctx parent : ℕ) (m : Machine) (d : DebugInfo)
    → (m.contexts ctx).dbg ≡ none
    → by_pid (m.contexts ctx).ppid ≡ some parent
    → (m.contexts parent).dbg ≡ some d
    → (((debugger_on_exit by_pid ctx m).contexts parent).state ≡ ready)
      × (((debugger_on_exit by_pid ctx m).contexts parent).regs.rax ≡ child_exit)
      × (((debugger_on_exit by_pid ctx m).contexts parent).dbg ≡ some d)
      × ((debugger_on_exit by_pid ctx m).mem ≡ m.mem)
      × ((debugger_on_exit by_pid ctx m).live_nodes ≡ m.live_nodes)
      × ((debugger_on_exit by_pid ctx m).live_infos ≡ m.live_infos)
      × ((p : ℕ) → parent ≢ p → (debugger_on_exit by_pid ctx m).contexts p ≡ m.contexts p)
unfolding debugger_on_exit wake_parent drop_debugger
debugger_on_exit_wakes by_pid ctx parent m d none_here found debugger = (
  ground arith,
  ground arith,
  ground arith,
  ground arith,
  ground arith,
  ground arith,
  λ p h. ground arith,
)
