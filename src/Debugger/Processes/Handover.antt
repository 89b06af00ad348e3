-- ===== src/Debugger/Processes/Handover.antt =====
-- Debugger and debuggee take turns: the waits and traps of Assignment4/debug.c as steps, with the
-- scheduler's changes between ready and running.
use cs330_assignments.Base.{
  ℕ, zero, suc, ◌≡◌, ◌≢◌, ◌⊎◌, inl, inr, refl, false, Option, none, some, ℤ, arith, Option-cases,
  ◌∙◌, subst,
}
use cs330_assignments.Debugger.State.{
  DebugInfo, ProcessState, ready, running, waiting, Machine, set_state,
}
use cs330_assignments.Debugger.Trap.{push_rbp, report, int3_handler}
use cs330_assignments.Debugger.Processes.{
  is_unused, found, find_child, child_of, hand_over, do_wait_and_continue,
}

-- The contexts look alike to the search for a child.
abbrev Alike : Machine → Machine → Type 0
Alike m m' =
    (p : ℕ)
    → (is_unused (m'.contexts p).state ≡ is_unused (m.contexts p).state)
      × ((m'.contexts p).ppid ≡ (m.contexts p).ppid)

find_child-Alike :
    (by_pid : ℕ → Option ℕ) (m m' : Machine) (pid rounds ctr : ℕ)
    → Alike m m'
    → find_child by_pid m' pid rounds ctr ≡ find_child by_pid m pid rounds ctr
unfolding find_child
find_child-Alike by_pid m m' pid zero ctr h = refl
find_child-Alike by_pid m m' pid (suc rounds) ctr h = elim (Option-cases (by_pid ctr)) [
  | inl e ↦ ground arith
  | inr (p, e) ↦ ground (arith, h p, find_child-Alike by_pid m m' pid rounds (suc ctr) h)
]

module _ (by_pid : ℕ → Option ℕ) (parent child : ℕ) where
  -- What may happen: the debugger waits, the debuggee runs into a breakpoint, or the scheduler
  -- starts or preempts a process. A process acts only if it does not wait.
  pub data Step (m : Machine) : Machine → Type 0 where
    waits :
        {r : ℤ} {m' : Machine}
        → (m.contexts parent).state ≢ waiting
        → do_wait_and_continue by_pid parent m ≡ some (r, m')
        → Step m m'
    traps : (m.contexts child).state ≢ waiting → Step m (int3_handler by_pid child m).1
    starts : (p : ℕ) → (m.contexts p).state ≡ ready → Step m (set_state m p running)
    preempts : (p : ℕ) → (m.contexts p).state ≡ running → Step m (set_state m p ready)

  pub data Reach (m : Machine) : Machine → Type 0 where
    here : Reach m m
    next : {u v : Machine} → Reach m u → Step u v → Reach m v

  -- Exactly one of the two waits.
  abbrev pub Turn : Machine → Type 0
  Turn m =
      (((m.contexts parent).state ≢ waiting) × ((m.contexts child).state ≡ waiting))
      ⊎ (((m.contexts parent).state ≡ waiting) × ((m.contexts child).state ≢ waiting))

  -- The debugger and its child, each of which finds the other.
  pub record Turns (m : Machine) : Type 0 where
    pub debugger : (m.contexts parent).dbg ≢ none
    pub finds_parent : by_pid (m.contexts child).ppid ≡ some parent
    pub finds_child : child_of by_pid parent m ≡ found child
    pub alive : is_unused (m.contexts parent).state ≡ false
    pub alive_child : is_unused (m.contexts child).state ≡ false
    pub turn : Turn m

  Turns-Alike :
      (m m' : Machine)
      → Turns m
      → Alike m m'
      → (m'.contexts parent).pid ≡ (m.contexts parent).pid
      → (m'.contexts parent).dbg ≢ none
      → Turn m'
      → Turns m'
  Turns-Alike m m' t alike same d turn = record {
    debugger = d;
    finds_parent = ground (arith, t.finds_parent, alike child);
    finds_child =
        rw same (find_child-Alike by_pid m m' (m.contexts parent).pid 6 1 alike ∙ t.finds_child);
    alive = ground (arith, t.alive, alike parent);
    alive_child = ground (arith, t.alive_child, alike child);
    turn = turn;
  }

  module _ (ne : parent ≢ child) where
    set_state-Turns :
        (m : Machine) (p : ℕ) (s : ProcessState)
        → Turns m
        → (m.contexts p).state ≢ waiting
        → is_unused (m.contexts p).state ≡ false
        → s ≢ waiting
        → is_unused s ≡ false
        → Turns (set_state m p s)
    set_state-Turns m p s t h a k b =
        Turns-Alike m _ t (λ q. ground arith) (ground arith) (ground (arith, t.debugger))
          (ground (arith, t.turn))

    hand_over-Turns :
        (m : Machine)
        → Turns m
        → (m.contexts parent).state ≢ waiting
        → Turns (hand_over parent child m)
    unfolding hand_over
    hand_over-Turns m t h =
        Turns-Alike m _ t (λ q. ground (arith, t.alive, t.alive_child)) (ground arith)
          (ground (arith, t.debugger)) (inr (ground arith))

    push_rbp-Alike :
        (m : Machine) → is_unused (m.contexts child).state ≡ false → Alike m (push_rbp child m)
    unfolding push_rbp
    push_rbp-Alike m h q = ground arith

    report-Alike : (d : DebugInfo) (m : Machine) → Alike m (report child parent d m)
    unfolding report
    report-Alike d m q = ground arith

    -- What the handler does to the two processes, once its guards have passed.
    int3_handler-Turn :
        (m : Machine) (d : DebugInfo)
        → let m' = report child parent d (set_state (push_rbp child m) parent ready) in
          ((m'.contexts parent).pid ≡ (m.contexts parent).pid)
          × ((m'.contexts parent).dbg ≢ none)
          × Turn m'
    unfolding report push_rbp
    int3_handler-Turn m d = (ground arith, ground arith, inl (ground arith, ground arith))

    int3_handler-Turns :
        (m : Machine)
        → Turns m
        → (m.contexts child).state ≢ waiting
        → Turns (int3_handler by_pid child m).1
    unfolding int3_handler
    int3_handler-Turns m t h = elim (Option-cases (m.contexts parent).dbg) [
      | inl e ↦ absurd (t.debugger e)
      | inr (d, e) ↦
          let u = push_rbp child m in
          let v = set_state u parent ready in
          let changed = int3_handler-Turn m d in
          let alike : Alike m (report child parent d v) = λ q. ground (
            arith,
            push_rbp-Alike m t.alive_child q,
            push_rbp-Alike m t.alive_child parent,
            report-Alike d v q,
            t.alive,
          ) in
          rw (t.finds_parent, e, int3_handler)
            (Turns-Alike m _ t alike changed.0 changed.1 changed.2)
    ]

    do_wait_and_continue-Turns :
        (m m' : Machine) (r : ℤ)
        → Turns m
        → (m.contexts parent).state ≢ waiting
        → do_wait_and_continue by_pid parent m ≡ some (r, m')
        → Turns m'
    unfolding do_wait_and_continue
    do_wait_and_continue-Turns m m' r t h e = elim (Option-cases (m.contexts parent).dbg) [
      | inl f ↦ absurd (t.debugger f)
      | inr (d, f) ↦
          let same : hand_over parent child m ≡ m' = ground (arith, t.finds_child) in
          subst Turns same (hand_over-Turns m t h)
    ]

    Step-Turns : {m m' : Machine} → Step m m' → Turns m → Turns m'
    Step-Turns (waits h e) t = do_wait_and_continue-Turns _ _ _ t h e
    Step-Turns (traps h) t = int3_handler-Turns _ t h
    Step-Turns {m} (starts p h) t =
        set_state-Turns m p running t (λ e. cc) (ground arith) (λ e. cc) refl
    Step-Turns {m} (preempts p h) t =
        set_state-Turns m p ready t (λ e. cc) (ground arith) (λ e. cc) refl

    -- A debugger and its child find each other, and one of them waits. Then in every machine that
    -- waits of the debugger, traps of the child, and starts and preemptions of any process lead to,
    -- where a process acts only while it does not wait, they still find each other, neither is
    -- unused, the debugger still is one, and exactly one of the two waits.
    pub Reach-Turns : {m m' : Machine} → Turns m → Reach m m' → Turns m'
    Reach-Turns t here = t
    Reach-Turns t (next r s) = Step-Turns s (Reach-Turns t r)
