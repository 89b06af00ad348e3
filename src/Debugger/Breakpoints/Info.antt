-- ===== src/Debugger/Breakpoints/Info.antt =====
-- `do_info_breakpoints` of Assignment4/debug.c.
use mathlib.Core.List.{reverse-cons}
use cs330_assignments.Base.{
  ℕ, suc, ◌+◌, ◌-◌, ◌%◌, ◌^◌, ◌≤◌, ◌<◌, ◌≡◌, refl, sym, some, List, [], ◌∷◌, ◌++◌, map, reverse,
  pos, arith, length, update, slice, slice-suc,
}
use cs330_assignments.Debugger.State.{BreakpointInfo, DebugInfo, Breakpoint, Machine}
use cs330_assignments.Debugger.Breakpoints.{info_loop, do_info_breakpoints}
use cs330_assignments.Debugger.Breakpoints.Lists.{Below}
use cs330_assignments.Debugger.Breakpoints.Invariant.{IsValid}

-- What user space is told of a node.
abbrev pub entry : BreakpointInfo → Breakpoint
entry b = record { num = b.num; status = b.status; addr = b.addr }

-- The numbers rise strictly along a list of entries, from a bound on and below another.
abbrev pub Ascending : ℕ → ℕ → List Breakpoint → Type 0
Ascending lo hi [] = lo ≤ hi
Ascending lo hi (b ∷ bs) = (lo ≤ b.num) × Ascending (suc b.num) hi bs

Ascending-append :
    (lo hi : ℕ) (bs : List Breakpoint) (b : Breakpoint)
    → Ascending lo b.num bs
    → b.num < hi
    → Ascending lo hi (bs ++ b ∷ [])
Ascending-append lo hi [] b p h = (p, h)
Ascending-append lo hi (c ∷ bs) b p h = (p.0, Ascending-append (suc c.num) hi bs b p.1 h)

Ascending-reverse :
    (hi : ℕ) (bs : List BreakpointInfo) → Below hi bs → Ascending 0 hi (reverse (map entry bs))
Ascending-reverse hi [] p = omega arith
Ascending-reverse hi (b ∷ bs) p =
    rw (reverse-cons (entry b) (map entry bs)) (
      Ascending-append 0 hi (reverse (map entry bs)) (entry b) (Ascending-reverse b.num bs p.1) p.0)

info_loop_rest :
    (size idx : ℕ) (bs : List BreakpointInfo) (ubp : ℕ → Breakpoint) (j : ℕ)
    → idx + length bs ≡ size
    → size ≤ 8
    → length bs ≤ j
    → info_loop size idx bs ubp j ≡ ubp j
unfolding info_loop
info_loop_rest size idx [] ubp j e h l = refl
info_loop_rest size idx (b ∷ bs) ubp j e h l = ground (
  arith,
  info_loop_rest size (idx + 1) bs (update ubp ((size + 2 ^ 32 - idx - 1) % 2 ^ 32) (entry b)) j,
)

slice-info_loop :
    (size idx : ℕ) (bs : List BreakpointInfo) (ubp : ℕ → Breakpoint)
    → idx + length bs ≡ size
    → size ≤ 8
    → slice (info_loop size idx bs ubp) 0 (length bs) ≡ reverse (map entry bs)
unfolding info_loop slice
slice-info_loop size idx [] ubp e h = refl
slice-info_loop size idx (b ∷ bs) ubp e h =
    let ubp' = update ubp ((size + 2 ^ 32 - idx - 1) % 2 ^ 32) (entry b) in
    let r = info_loop size (idx + 1) bs ubp' in
    let here : r (length bs) ≡ entry b =
      ground (arith, info_loop_rest size (idx + 1) bs ubp' (length bs)) in
    rw
      (
        slice-suc r 0 (length bs) (length bs) (omega arith),
        slice-info_loop size (idx + 1) bs ubp' (omega arith) h,
        here,
      )
      (sym (reverse-cons (entry b) (map entry bs)))

-- For a debugger that satisfies the invariant of the breakpoint list, and a caller's array that is
-- not null, do_info_breakpoints returns the number of breakpoints; the first entries of the array
-- are then the breakpoints in the order in which they were numbered, each with its number, status
-- and address, the numbers rising strictly; and the entries behind them are as they were.
pub do_info_breakpoints_lem :
    (n ctx : ℕ) (m : Machine) (d : DebugInfo) (ubp : ℕ → Breakpoint)
    → (m.contexts ctx).dbg ≡ some d
    → IsValid n m.mem d
    → (out : ℕ → Breakpoint) × (do_info_breakpoints ctx (some ubp) m
        ≡ (pos (length d.head), some out))
      × (slice out 0 (length d.head) ≡ reverse (map entry d.head))
      × Ascending 0 (suc d.breakpt_num) (slice out 0 (length d.head))
      × ((j : ℕ) → length d.head ≤ j → out j ≡ ubp j)
unfolding do_info_breakpoints
do_info_breakpoints_lem n ctx m d ubp e p =
    let out = info_loop d.size 0 d.head ubp in
    let small : d.size ≤ 8 = omega (arith, p.size_length, p.bounded) in
    let all : 0 + length d.head ≡ d.size = omega (arith, p.size_length) in
    let order = slice-info_loop d.size 0 d.head ubp all small in
    (
      out,
      ground (arith, p.size_length),
      order,
      rw order (Ascending-reverse (suc d.breakpt_num) d.head p.numbered),
      λ j h. info_loop_rest d.size 0 d.head ubp j all small h,
    )
