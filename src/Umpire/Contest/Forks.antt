-- ===== src/Umpire/Contest/Forks.antt =====
-- Which parts of umpire2 never fork (Assignment1/Part2/2.2/umpire2.c).
use cs330_assignments.Base.{
  ℕ, zero, suc, ◌+◌, ◌≡◌, refl, inl, inr, Bool, true, false, Option, none, some, List, [], ◌∷◌,
  ◌++◌, length, update, ◌==◌, Bool-cases,
}
use cs330_assignments.Umpire.{Players, active_loop}
use cs330_assignments.Umpire.Calls.{
  Answer, SystemCall, write, read, fork, dup2, close, exec, pipe, is_negative, Outcome, goes_on,
  exits, becomes, Run, pure, and_then, ◌>>=◌, ◌>>◌, ask, check,
}
use cs330_assignments.Umpire.Match.{Pipe, go_signal, open_pipe, become_player, become_second}
use cs330_assignments.Umpire.Contest.{
  Pipes, when_played, pipes_loop, ask_loop, record_loop, round, contest_loop,
}

abbrev pub is_fork : SystemCall → Bool
is_fork fork = true
is_fork c = false

-- None of the calls is a fork.
pub data ForkFree : List SystemCall → Type 0 where
  no_call : ForkFree []
  other_call :
      {c : SystemCall} {cs : List SystemCall} → is_fork c ≡ false → ForkFree cs → ForkFree (c ∷ cs)

ForkFree-append : (cs ds : List SystemCall) → ForkFree cs → ForkFree ds → ForkFree (cs ++ ds)
ForkFree-append _ ds no_call g = g
ForkFree-append _ ds (other_call {cs = cs} e h) g = other_call e (ForkFree-append cs ds h g)

-- The last of some calls.
pub ForkFree-last :
    (ds : List SystemCall) (c : SystemCall) → ForkFree (ds ++ (c ∷ [])) → is_fork c ≡ false
ForkFree-last [] c (other_call e h) = e
ForkFree-last (d ∷ ds) c (other_call e h) = ForkFree-last ds c h

-- A part of a program that never forks.
abbrev pub NeverForks : {A : Type 0} → Run A → Type 0
NeverForks m = (n : ℕ) → ForkFree (m n).1

and_then-ForkFree :
    {A B : Type 0} (n : ℕ) (r : Outcome A × List SystemCall) (f : A → Run B)
    → ForkFree r.1
    → ((a : A) → NeverForks (f a))
    → ForkFree (and_then n r f).1
and_then-ForkFree n (goes_on a, made) f h g = ForkFree-append made _ h (g a (n + length made))
and_then-ForkFree n (exits status, made) f h g = h
and_then-ForkFree n (becomes path, made) f h g = h

pub then-NeverForks :
    {A B : Type 0} (m : Run A) (f : A → Run B)
    → NeverForks m
    → ((a : A) → NeverForks (f a))
    → NeverForks (m >>= f)
then-NeverForks m f h g n = and_then-ForkFree n (m n) f (h n) g

pub pure-NeverForks : {A : Type 0} (a : A) → NeverForks (pure a)
pure-NeverForks a n = no_call

module _ (os : ℕ → Answer) where
  check-NeverForks : (c : SystemCall) → is_fork c ≡ false → NeverForks (check os c)
  check-NeverForks c e n = elim (Bool-cases (is_negative (os n).result)) [
    | inl t ↦ rw t (other_call e no_call)
    | inr f ↦ rw f (other_call e no_call)
  ]

  open_pipe-NeverForks : NeverForks (open_pipe os)
  unfolding open_pipe
  open_pipe-NeverForks =
      then-NeverForks (check os pipe) _ (check-NeverForks pipe refl) (λ a n. no_call)

  pub pipes_loop-NeverForks : (rounds i : ℕ) (ps : Pipes) → NeverForks (pipes_loop os rounds i ps)
  unfolding pipes_loop
  pipes_loop-NeverForks zero i ps = pure-NeverForks ps
  pipes_loop-NeverForks (suc rounds) i ps =
      then-NeverForks (open_pipe os) _ open_pipe-NeverForks (λ a.
        then-NeverForks (open_pipe os) _ open_pipe-NeverForks (λ b.
          pipes_loop-NeverForks rounds (suc i)
            (record { std_in = update ps.std_in i a; std_out = update ps.std_out i b })))

  become_player-NeverForks :
      (std_in std_out : Pipe) (player : List ℕ)
      → NeverForks (become_player os std_in std_out player)
  unfolding become_player
  become_player-NeverForks std_in std_out player =
      then-NeverForks (check os (dup2 std_in.read_end 0)) _ (check-NeverForks _ refl) (λ a.
        then-NeverForks (check os (dup2 std_out.write_end 1)) _ (check-NeverForks _ refl) (λ b.
          then-NeverForks (check os (exec player)) _ (check-NeverForks _ refl) (λ c n. no_call)))

  pub become_second-NeverForks :
      (std_in std_out : Pipe) (player : List ℕ)
      → NeverForks (become_second os std_in std_out player)
  unfolding become_second
  become_second-NeverForks std_in std_out player =
      then-NeverForks (ask os (close std_in.write_end))
        (λ a. ask os (close std_out.read_end) >> become_player os std_in std_out player)
        (λ n. other_call refl no_call)
        (λ a.
          then-NeverForks (ask os (close std_out.read_end))
            (λ b. become_player os std_in std_out player) (λ n. other_call refl no_call)
            (λ b. become_player-NeverForks std_in std_out player))

  ask_loop-NeverForks :
      (rounds k : ℕ) (std_in std_out : Pipe) (moves : ℕ → ℕ)
      → NeverForks (ask_loop os rounds k std_in std_out moves)
  unfolding ask_loop
  ask_loop-NeverForks zero k std_in std_out moves = pure-NeverForks moves
  ask_loop-NeverForks (suc rounds) k std_in std_out moves =
      then-NeverForks (check os (write std_in.write_end go_signal)) _ (check-NeverForks _ refl)
        (λ a.
          then-NeverForks (check os (read std_out.read_end)) _ (check-NeverForks _ refl)
            (λ b. ask_loop-NeverForks rounds (suc k) std_in std_out (update moves k b.byte)))

  record_loop-NeverForks :
      (nround : ℕ) (players : List ℕ) (ps : Pipes) (record_of : ℕ → ℕ → ℕ)
      → NeverForks (record_loop os nround players ps record_of)
  unfolding record_loop
  record_loop-NeverForks nround [] ps record_of = pure-NeverForks record_of
  record_loop-NeverForks nround (i ∷ rest) ps record_of =
      then-NeverForks (ask_loop os nround 0 (ps.std_in i) (ps.std_out i) (record_of i)) _
        (ask_loop-NeverForks nround 0 (ps.std_in i) (ps.std_out i) (record_of i))
        (λ row. record_loop-NeverForks nround rest ps (update record_of i row))

  module _ (nplayers nround : ℕ) (walk_over : ℕ → ℕ) (ps : Pipes) where
    round-NeverForks : (s : Players) → NeverForks (round os nplayers nround walk_over ps s)
    unfolding round
    round-NeverForks s =
        then-NeverForks (record_loop os nround (active_loop nplayers 0 s.active) ps (λ i k. 0)) _
          (record_loop-NeverForks nround (active_loop nplayers 0 s.active) ps (λ i k. 0))
          (λ r n. no_call)

    when_played-NeverForks :
        {A : Type 0} (f : Players → Run (Option A)) (o : Option Players)
        → ((s : Players) → NeverForks (f s))
        → NeverForks (when_played f o)
    when_played-NeverForks f none h n = no_call
    when_played-NeverForks f (some s) h n = h s n

    pub contest_loop-NeverForks :
        (rounds : ℕ) (s : Players)
        → NeverForks (contest_loop os nplayers nround walk_over ps rounds s)
    unfolding contest_loop
    contest_loop-NeverForks zero s n = no_call
    contest_loop-NeverForks (suc rounds) s n = elim (Bool-cases (s.nactive == 1)) [
      | inl one ↦ rw (contest_loop, one) no_call
      | inr more ↦
          rw (contest_loop, more)
            (then-NeverForks (round os nplayers nround walk_over ps s) (when_played _)
              (round-NeverForks s)
              (λ o. when_played-NeverForks _ o (λ s'.
                then-NeverForks (contest_loop os nplayers nround walk_over ps rounds s') _
                  (contest_loop-NeverForks rounds s') (λ r k. no_call)))
              n)
    ]
