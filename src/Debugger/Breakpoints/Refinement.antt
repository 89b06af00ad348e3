-- ===== src/Debugger/Breakpoints/Refinement.antt =====
-- The breakpoint calls of Assignment4/debug.c against a map from addresses to statuses.
use cs330_assignments.Base.{
  ℕ, ◌<◌, ◌≡◌, ◌≢◌, ◌⊎◌, Bool, true, false, Option, none, some, List, [], ◌∷◌, ℤ, pos, minus_one,
  arith, ◌==◌, if◌then◌else◌, length, inl, inr, Option-cases, subst, refl, ltb, Bool-cases,
}
use cs330_assignments.Debugger.State.{
  BreakpointInfo, DebugInfo, Machine, max_breakpoints, int3_opcode, pushrbp_opcode,
}
use cs330_assignments.Debugger.Breakpoints.{
  set_status, unlink, add_breakpoint, do_set_breakpoint, do_remove_breakpoint, do_enable_breakpoint,
  do_disable_breakpoint,
}
use cs330_assignments.Debugger.Breakpoints.Lists.{Absent, Distinct, OnSome}
use cs330_assignments.Debugger.Breakpoints.Invariant.{IsValid, Holds, Inv}

-- The status of the breakpoint at an address.
unfoldable pub status_in : List BreakpointInfo → ℕ → Option ℕ
status_in [] c = none
status_in (b ∷ bs) c = if b.addr == c then some b.status else status_in bs c

status_in-Absent : (c : ℕ) (bs : List BreakpointInfo) → Absent c bs → status_in bs c ≡ none
unfolding status_in
status_in-Absent c [] out = refl
status_in-Absent c (b ∷ bs) out = ground (arith, status_in-Absent c bs out.1)

-- What a walk with `set_status` does to the map, or that it found no entry.
status_in-set_status :
    (a status c : ℕ) (bs : List BreakpointInfo)
    → OnSome
        (λ bs'.
          (status_in bs a ≢ none)
          × (status_in bs' c ≡ (if a == c then some status else status_in bs c)))
        (set_status a status bs)
unfolding status_in set_status
status_in-set_status a status c [] = tt
status_in-set_status a status c (b ∷ bs) = ground (arith, status_in-set_status a status c bs)

status_in-set_status-none :
    (a status : ℕ) (bs : List BreakpointInfo)
    → set_status a status bs ≡ none
    → status_in bs a ≡ none
unfolding status_in set_status
status_in-set_status-none a status [] e = refl
status_in-set_status-none a status (b ∷ bs) e =
    ground (arith, status_in-set_status-none a status bs)

status_in-unlink :
    (a c : ℕ) (bs : List BreakpointInfo)
    → Distinct bs
    → OnSome
        (λ bs'.
          (status_in bs a ≢ none) × (status_in bs' c ≡ (if a == c then none else status_in bs c)))
        (unlink a bs)
unfolding status_in unlink
status_in-unlink a c [] d = tt
status_in-unlink a c (b ∷ bs) d =
    ground (arith, status_in-unlink a c bs d.1, status_in-Absent b.addr bs d.0)

status_in-unlink-none :
    (a : ℕ) (bs : List BreakpointInfo) → unlink a bs ≡ none → status_in bs a ≡ none
unfolding status_in unlink
status_in-unlink-none a [] e = refl
status_in-unlink-none a (b ∷ bs) e = ground (arith, status_in-unlink-none a bs)

-- The map of the process at `ctx`, empty if it is no debugger.
unfoldable pub status_of : ℕ → Machine → ℕ → Option ℕ
status_of ctx m c = elim (m.contexts ctx).dbg [ none ↦ none | some d ↦ status_in d.head c ]

-- The call succeeds, and changes the map and the code at one address only.
pub record Effect (ctx a : ℕ) (entry : Option ℕ) (byte : ℕ) (m : Machine) (r : ℤ × Machine)
    : Type 0 where
  pub result : r.0 ≡ pos 0
  pub map : (c : ℕ) → status_of ctx r.1 c ≡ (if a == c then entry else status_of ctx m c)
  pub code : (c : ℕ) → r.1.mem c ≡ (if a == c then byte else m.mem c)

-- The call fails and changes nothing.
abbrev pub Refused : Machine → ℤ × Machine → Type 0
Refused m r = r ≡ (minus_one, m)

-- How many breakpoints the process has.
unfoldable pub count_of : ℕ → Machine → ℕ
count_of ctx m = elim (m.contexts ctx).dbg [ none ↦ 0 | some d ↦ length d.head ]

module _ (n ctx a : ℕ) (m : Machine) (p : Inv n ctx m) where
  -- For a process that satisfies the invariant of the breakpoint list: if there is a breakpoint at
  -- the address, do_enable_breakpoint returns 0, sets its status to 1 and the byte there to
  -- INT3_OPCODE, and no other status and no other byte changes; if there is none, or the process is
  -- no debugger, it returns -1 and changes nothing.
  pub do_enable_breakpoint-Effect :
      ((status_of ctx m a ≡ none) × Refused m (do_enable_breakpoint ctx a m))
      ⊎ ((status_of ctx m a ≢ none)
          × Effect ctx a (some 1) int3_opcode m (do_enable_breakpoint ctx a m))
  unfolding do_enable_breakpoint status_of
  do_enable_breakpoint-Effect = elim (Option-cases (m.contexts ctx).dbg) [
    | inl e ↦ inl (ground arith, ground arith)
    | inr (d, e) ↦ elim (Option-cases (set_status a 1 d.head)) [
      | inl f ↦ inl (ground (arith, status_in-set_status-none a 1 d.head f), ground arith)
      | inr (bs, f) ↦ inr (
        ground (arith, status_in-set_status a 1 a d.head),
        record {
          result = ground arith;
          map = λ c. ground (arith, status_in-set_status a 1 c d.head);
          code = λ c. ground arith;
        },
      )
    ]
  ]

  -- For a process that satisfies the invariant of the breakpoint list: if there is a breakpoint at
  -- the address, do_disable_breakpoint returns 0, sets its status to 0 and the byte there to
  -- PUSHRBP_OPCODE, and no other status and no other byte changes; if there is none, or the process
  -- is no debugger, it returns -1 and changes nothing.
  pub do_disable_breakpoint-Effect :
      ((status_of ctx m a ≡ none) × Refused m (do_disable_breakpoint ctx a m))
      ⊎ ((status_of ctx m a ≢ none)
          × Effect ctx a (some 0) pushrbp_opcode m (do_disable_breakpoint ctx a m))
  unfolding do_disable_breakpoint status_of
  do_disable_breakpoint-Effect = elim (Option-cases (m.contexts ctx).dbg) [
    | inl e ↦ inl (ground arith, ground arith)
    | inr (d, e) ↦ elim (Option-cases (set_status a 0 d.head)) [
      | inl f ↦ inl (ground (arith, status_in-set_status-none a 0 d.head f), ground arith)
      | inr (bs, f) ↦ inr (
        ground (arith, status_in-set_status a 0 a d.head),
        record {
          result = ground arith;
          map = λ c. ground (arith, status_in-set_status a 0 c d.head);
          code = λ c. ground arith;
        },
      )
    ]
  ]

  -- For a process that satisfies the invariant of the breakpoint list: if there is a breakpoint at
  -- the address, do_remove_breakpoint returns 0, takes it out of the map and sets the byte there to
  -- PUSHRBP_OPCODE, and no other entry and no other byte changes; if there is none, or the process
  -- is no debugger, it returns -1 and changes nothing.
  pub do_remove_breakpoint-Effect :
      ((status_of ctx m a ≡ none) × Refused m (do_remove_breakpoint ctx a m))
      ⊎ ((status_of ctx m a ≢ none)
          × Effect ctx a none pushrbp_opcode m (do_remove_breakpoint ctx a m))
  unfolding do_remove_breakpoint status_of
  do_remove_breakpoint-Effect = elim (Option-cases (m.contexts ctx).dbg) [
    | inl e ↦ inl (ground arith, ground arith)
    | inr (d, e) ↦
        let q : IsValid n m.mem d = subst (Holds n m.mem) e p in
        elim (Option-cases (unlink a d.head)) [
          | inl f ↦ inl (ground (arith, status_in-unlink-none a d.head f), ground arith)
          | inr (bs, f) ↦ inr (
            ground (arith, status_in-unlink a a d.head q.distinct),
            record {
              result = ground arith;
              map = λ c. ground (arith, status_in-unlink a c d.head q.distinct);
              code = λ c. ground arith;
            },
          )
        ]
  ]

  -- A new entry, for a debugger with room in its list and in memory.
  add_breakpoint-Effect :
      (d : DebugInfo)
      → (m.contexts ctx).dbg ≡ some d
      → length d.head < max_breakpoints
      → Effect ctx a (some 1) int3_opcode m (add_breakpoint true ctx a d m)
  unfolding add_breakpoint status_of status_in
  add_breakpoint-Effect d e h =
      let q : IsValid n m.mem d = subst (Holds n m.mem) e p in
      record {
        result = ground (arith, q.size_length);
        map = λ c. ground (arith, q.size_length);
        code = λ c. ground (arith, q.size_length);
      }

  -- No entry and no byte changes where the list is full or memory runs out.
  add_breakpoint-Refused :
      (alloc : Bool) (d : DebugInfo)
      → (m.contexts ctx).dbg ≡ some d
      → (alloc ≡ false) ⊎ (length d.head ≡ max_breakpoints)
      → Refused m (add_breakpoint alloc ctx a d m)
  unfolding add_breakpoint
  add_breakpoint-Refused alloc d e h =
      let q : IsValid n m.mem d = subst (Holds n m.mem) e p in ground (arith, q.size_length)

  -- The two ways in which do_set_breakpoint ends.
  abbrev pub SetOutcome : Bool → ℤ × Machine → Type 0
  SetOutcome alloc r =
      (((status_of ctx m a ≢ none)
          ⊎ (((m.contexts ctx).dbg ≢ none) × (alloc ≡ true) × (count_of ctx m < max_breakpoints)))
        × Effect ctx a (some 1) int3_opcode m r)
      ⊎ ((status_of ctx m a ≡ none)
          × (((m.contexts ctx).dbg ≡ none) ⊎ (alloc ≡ false) ⊎ (count_of ctx m ≡ max_breakpoints))
          × Refused m r)

  set_new :
      (alloc : Bool) (d : DebugInfo)
      → (m.contexts ctx).dbg ≡ some d
      → status_of ctx m a ≡ none
      → SetOutcome alloc (add_breakpoint alloc ctx a d m)
  unfolding count_of
  set_new false d e f = inr (f, inr (inl refl), add_breakpoint-Refused false d e (inl refl))
  set_new true d e f =
      let q : IsValid n m.mem d = subst (Holds n m.mem) e p in
      elim (Bool-cases (ltb (length d.head) max_breakpoints)) [
        | inl room ↦
            inl (inr (ground arith, refl, ground arith), add_breakpoint-Effect d e (ground arith))
        | inr full ↦
            let l : length d.head ≡ max_breakpoints = ground (arith, q.bounded) in
            inr (f, inr (inr (ground arith)), add_breakpoint-Refused true d e (inr l))
      ]

  -- For a process that satisfies the invariant of the breakpoint list, do_set_breakpoint either
  -- returns 0, gives the address status 1 and the byte INT3_OPCODE and changes no other entry and
  -- no other byte, and then the address had a breakpoint before, or the process is a debugger with
  -- fewer than MAX_BREAKPOINTS and the allocation succeeds; or it returns -1 and changes nothing,
  -- and then the address had none and the process is no debugger, the allocation fails, or there
  -- are MAX_BREAKPOINTS already.
  pub do_set_breakpoint-Effect : (alloc : Bool) → SetOutcome alloc (do_set_breakpoint alloc ctx a m)
  unfolding do_set_breakpoint status_of count_of
  do_set_breakpoint-Effect alloc = elim (Option-cases (m.contexts ctx).dbg) [
    | inl e ↦ inr (ground arith, inl e, ground arith)
    | inr (d, e) ↦ elim (Option-cases (set_status a 1 d.head)) [
      | inr (bs, f) ↦ inl (
        inl (ground (arith, status_in-set_status a 1 a d.head)),
        record {
          result = ground arith;
          map = λ c. ground (arith, status_in-set_status a 1 c d.head);
          code = λ c. ground arith;
        },
      )
      | inl f ↦
          let got : do_set_breakpoint alloc ctx a m ≡ add_breakpoint alloc ctx a d m =
            ground arith in
          rw got (set_new alloc d e (ground (arith, status_in-set_status-none a 1 d.head f)))
    ]
  ]
