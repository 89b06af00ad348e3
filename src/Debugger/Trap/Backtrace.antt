-- ===== src/Debugger/Trap/Backtrace.antt =====
-- The backtrace of Assignment4/debug.c against the chain of frames on the child's stack.
use native.Mathlib.Nat.{add-zero, add-suc}
use cs330_assignments.Base.{
  ℕ, zero, suc, ◌+◌, ◌-◌, ◌%◌, ◌^◌, ◌≤◌, ◌<◌, ◌≡◌, ◌≢◌, ◌⊎◌, inl, inr, refl, ap₂, ◌∙◌, subst, true,
  false, Option, some, List, [], ◌∷◌, pos, arith, ltb, ◌==◌, if◌then◌else◌, Bool-cases, length,
  update, slice, slice-ext, take, dec64, Memory, load64, store64, load64-store64, load64-store64_ne,
}
use cs330_assignments.Debugger.State.{DebugInfo, Registers, Machine, max_backtrace, end_addr}
use cs330_assignments.Debugger.Trap.{
  trace_loop, trace, push_rbp, report, int3_handler, copy_loop, do_backtrace,
}

-- The return addresses of the calls in progress: the innermost one lies at `slot`, the frame
-- pointer of its caller is `next`, and every frame lies at `lo` or above. The chain ends at
-- END_ADDR.
pub data Calls (mem : Memory) (lo : ℕ) : ℕ → ℕ → List ℕ → Type 0 where
  last : {slot next : ℕ} → lo ≤ slot → load64 mem slot ≡ end_addr → Calls mem lo slot next []
  call :
      {slot next a : ℕ} {rs : List ℕ}
      → lo ≤ slot
      → load64 mem slot ≡ a
      → a ≢ end_addr
      → lo ≤ next
      → next + 8 < 2 ^ 64
      → Calls mem lo (next + 8) (load64 mem next) rs
      → Calls mem lo slot next (a ∷ rs)

-- What a loop that appends to the array from `idx` on leaves behind.
record Traced (idx : ℕ) (rs : List ℕ) (info : ℕ → ℕ) (r : (ℕ → ℕ) × ℕ) : Type 0 where
  count : r.1 ≡ idx + length rs
  entries : slice r.0 idx (length rs) ≡ rs
  rest : (j : ℕ) → (j < idx) ⊎ (idx + length rs ≤ j) → r.0 j ≡ info j

Traced-cons :
    {idx a : ℕ} {rs : List ℕ} {info : ℕ → ℕ} {r : (ℕ → ℕ) × ℕ}
    → Traced (suc idx) rs (update info idx a) r
    → Traced idx (a ∷ rs) info r
unfolding slice
Traced-cons {idx} {a} {rs} t = record {
  count = omega (arith, t.count);
  entries = ap₂ ◌∷◌ (ground (arith, t.rest idx)) t.entries;
  rest = λ j h. ground (arith, t.rest j);
}

module _ {mem : Memory} {lo : ℕ} where
  trace_loop-Traced :
      (rounds idx rbp_address : ℕ) {slot next : ℕ} {rs : List ℕ} (info : ℕ → ℕ)
      → Calls mem lo slot next rs
      → load64 mem rbp_address ≡ next
      → Traced idx
          (take rounds rs)
          info
          (trace_loop rounds idx rbp_address (load64 mem slot) mem info)
  unfolding trace_loop slice
  trace_loop-Traced zero idx rbp_address info c e = record {
    count = omega arith;
    entries = refl;
    rest = λ j h. refl;
  }
  trace_loop-Traced (suc rounds) idx rbp_address info (last l g) e =
      rw g (record { count = omega arith; entries = refl; rest = λ j h. refl })
  trace_loop-Traced (suc rounds) idx rbp_address info (call {slot} {next} {a} l g n l' h c) e =
      let go : (a == end_addr) ≡ false = ground arith in
      let wrap : (next + 8) % 2 ^ 64 ≡ next + 8 = omega arith in
      rw (g, go, e, wrap)
        (Traced-cons (trace_loop-Traced rounds (suc idx) next (update info idx a) c refl))

-- No address of a list is the end mark.
abbrev Unmarked : List ℕ → Type 0
Unmarked [] = Unit
Unmarked (a ∷ rs) = (a ≢ end_addr) × Unmarked rs

take-Unmarked :
    (n : ℕ) {mem : Memory} {lo slot next : ℕ} {rs : List ℕ}
    → Calls mem lo slot next rs
    → Unmarked (take n rs)
take-Unmarked zero c = tt
take-Unmarked (suc n) (last l e) = tt
take-Unmarked (suc n) (call l e ne l' h c) = (ne, take-Unmarked n c)

length-take-le : (n : ℕ) (rs : List ℕ) → length (take n rs) ≤ n
length-take-le zero rs = omega arith
length-take-le (suc n) [] = omega arith
length-take-le (suc n) (a ∷ rs) = omega (arith, length-take-le n rs)

copy_loop-Traced :
    (rounds count : ℕ) (rs : List ℕ) (info bt : ℕ → ℕ)
    → slice info count (length rs) ≡ rs
    → Unmarked rs
    → length rs ≤ rounds
    → (length rs ≡ rounds) ⊎ (info (count + length rs) ≡ end_addr)
    → Traced count rs bt (copy_loop rounds count info bt)
unfolding copy_loop slice
copy_loop-Traced zero count [] info bt e u h f = record {
  count = omega arith;
  entries = refl;
  rest = λ j h. refl;
}
copy_loop-Traced zero count (a ∷ rs) info bt e u h f = absurd (omega arith)
copy_loop-Traced (suc rounds) count [] info bt e u h f =
    let stop : (info count == end_addr) ≡ true = ground (arith, add-zero count) in
    rw stop (record { count = omega arith; entries = refl; rest = λ j h. refl })
copy_loop-Traced (suc rounds) count (a ∷ rs) info bt e u h f =
    let first : info count ≡ a = cc in
    let others : slice info (suc count) (length rs) ≡ rs = cc in
    let go : (info count == end_addr) ≡ false = ground arith in
    rw (go, first)
      (Traced-cons (
        copy_loop-Traced rounds (suc count) rs info (update bt count a) others u.1 (omega arith)
          (ground (arith, add-suc count (length rs)))))

Calls-store64 :
    {mem : Memory} {lo slot next : ℕ} {rs : List ℕ} (a v : ℕ)
    → a + 8 ≤ lo
    → Calls mem lo slot next rs
    → Calls (store64 mem a v) lo slot next rs
Calls-store64 {mem} a v h (last {slot} l e) =
    last l (load64-store64_ne mem a v slot (omega arith) ∙ e)
Calls-store64 {mem} {lo} a v h (call {slot} {next} {rs} l e ne l' b c) =
    call l (load64-store64_ne mem a v slot (omega arith) ∙ e) ne l' b
      (rw (load64-store64_ne mem a v next (omega arith)) (Calls-store64 a v h c))

-- The array that the trap leaves: the breakpoint, the return addresses, and an end mark if they do
-- not fill it.
record Recorded (bp : ℕ) (rs : List ℕ) (info : ℕ → ℕ) : Type 0 where
  entries : slice info 0 (suc (length rs)) ≡ bp ∷ rs
  mark : (suc (length rs) ≡ max_backtrace) ⊎ (info (suc (length rs)) ≡ end_addr)

Traced-Recorded :
    {bp : ℕ} {rs : List ℕ} (info : ℕ → ℕ) (r : (ℕ → ℕ) × ℕ)
    → length rs < max_backtrace
    → Traced 1 rs (update info 0 bp) r
    → Recorded bp rs (if ltb r.1 max_backtrace then update r.0 r.1 end_addr else r.0)
unfolding slice
Traced-Recorded {bp} {rs} info r h t = elim (Bool-cases (ltb r.1 max_backtrace)) [
  | inl room ↦ rw room (record {
    entries =
        ap₂ ◌∷◌ (ground (arith, t.rest 0, t.count))
          (slice-ext _ r.0 1 (length rs) (λ j l g. ground (arith, t.count)) ∙ t.entries);
    mark = inr (ground (arith, t.count));
  })
  | inr full ↦ rw full (record {
    entries = ap₂ ◌∷◌ (ground (arith, t.rest 0)) t.entries;
    mark = inl (ground (arith, t.count));
  })
]

trace-Recorded :
    (mem : Memory) (rip rsp : ℕ) {lo next : ℕ} {rs : List ℕ} (info : ℕ → ℕ)
    → Calls mem lo (rsp + 8) next rs
    → load64 mem rsp ≡ next
    → rsp + 8 < 2 ^ 64
    → Recorded (dec64 rip) (take 63 rs) (trace mem rip rsp info)
unfolding trace
trace-Recorded mem rip rsp {rs} info c e h =
    let wrap : (rsp + 8) % 2 ^ 64 ≡ rsp + 8 = omega arith in
    rw wrap (
      Traced-Recorded info _ (omega (arith, length-take-le 63 rs))
        (trace_loop-Traced 63 1 rsp (update info 0 (dec64 rip)) c e))

-- The stack of a process in calls `rs`, seen from its registers.
pub record InCalls (mem : Memory) (r : Registers) (rs : List ℕ) : Type 0 where
  pub low : 8 ≤ r.entry_rsp
  pub high : r.entry_rsp < 2 ^ 64
  pub small : r.rbp < 2 ^ 64
  pub apart : dec64 r.entry_rip ≢ end_addr
  pub calls : Calls mem r.entry_rsp r.entry_rsp r.rbp rs

InCalls-Recorded :
    (mem : Memory) (r : Registers) (rs : List ℕ) (info : ℕ → ℕ)
    → InCalls mem r rs
    → Recorded
        (dec64 r.entry_rip)
        (take 63 rs)
        (trace (store64 mem (r.entry_rsp - 8) r.rbp) r.entry_rip (r.entry_rsp - 8) info)
InCalls-Recorded mem r rs info s =
    let slot : r.entry_rsp ≡ r.entry_rsp - 8 + 8 = omega (arith, s.low) in
    let moved = Calls-store64 (r.entry_rsp - 8) r.rbp (omega (arith, s.low)) s.calls in
    trace-Recorded _ r.entry_rip (r.entry_rsp - 8) info
      (subst (λ x. Calls (store64 mem (r.entry_rsp - 8) r.rbp) r.entry_rsp x r.rbp rs) slot moved)
      (load64-store64 mem (r.entry_rsp - 8) r.rbp s.small) (omega (arith, s.low, s.high))

module _ (by_pid : ℕ → Option ℕ) (ctx parent : ℕ) (m : Machine) (d : DebugInfo) (rs : List ℕ)
    (found : by_pid (m.contexts ctx).ppid ≡ some parent)
    (debugger : (m.contexts parent).dbg ≡ some d) (ne : ctx ≢ parent)
    (stack : InCalls m.mem (m.contexts ctx).regs rs) where
  abbrev pub r : Registers
  r = (m.contexts ctx).regs

  abbrev pub info : ℕ → ℕ
  info =
      trace (store64 m.mem (r.entry_rsp - 8) r.rbp) r.entry_rip (r.entry_rsp - 8) d.backtrace_info

  dbg-int3_handler :
      ((int3_handler by_pid ctx m).0 ≡ pos 0)
      × (((int3_handler by_pid ctx m).1.contexts parent).dbg
          ≡ some (record d { backtrace_info = info }))
  unfolding int3_handler report push_rbp
  dbg-int3_handler =
      let down : (r.entry_rsp + (2 ^ 64 - 8)) % 2 ^ 64 ≡ r.entry_rsp - 8 =
        omega (arith, stack.low, stack.high) in
      (ground arith, ground arith)

  -- A process whose parent is a debugger, and is not itself, runs into a breakpoint: its stack and
  -- frame pointer lie within the address space with room for one more word on the stack, the
  -- return addresses `rs` of its calls in progress lie on the stack, innermost first and ended by
  -- END_ADDR, and the address of the breakpoint is not END_ADDR. Then int3_handler returns 0, and
  -- do_backtrace called by the parent with a buffer returns 1 and the number of the first 63 of
  -- these calls, with the address of the breakpoint and these return addresses at the front of the
  -- buffer, and the rest of the buffer as it was.
  pub do_backtrace-int3_handler :
      (bt : ℕ → ℕ)
      → (out : ℕ → ℕ) × ((int3_handler by_pid ctx m).0 ≡ pos 0)
        × (do_backtrace parent (some bt) (int3_handler by_pid ctx m).1
            ≡ (pos (suc (length (take 63 rs))), some out))
        × (slice out 0 (suc (length (take 63 rs))) ≡ dec64 r.entry_rip ∷ take 63 rs)
        × ((j : ℕ) → suc (length (take 63 rs)) ≤ j → out j ≡ bt j)
  unfolding do_backtrace
  do_backtrace-int3_handler bt =
      let recorded = InCalls-Recorded m.mem r rs d.backtrace_info stack in
      let copied =
        copy_loop-Traced max_backtrace 0 (dec64 r.entry_rip ∷ take 63 rs) info bt recorded.entries
          (stack.apart, take-Unmarked 63 stack.calls) (omega (arith, length-take-le 63 rs))
          (ground (arith, recorded.mark)) in
      (
        (copy_loop max_backtrace 0 info bt).0,
        dbg-int3_handler.0,
        rw (dbg-int3_handler.1, do_backtrace) (ground (arith, copied.count)),
        copied.entries,
        λ j h. copied.rest j (inr (omega arith)),
      )
