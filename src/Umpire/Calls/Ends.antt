-- ===== src/Umpire/Calls/Ends.antt =====
-- How a program that calls the operating system ends, put together from its parts.
use mathlib.Core.List.{append-nil, append_assoc}
use cs330_assignments.Base.{
  ℕ, suc, ◌+◌, ◌≡◌, refl, sym, arith, inl, inr, Bool, true, false, not, ◌||◌, List, [], ◌∷◌, ◌++◌,
  length, length-append, minus_one, Bool-cases,
}
use cs330_assignments.Umpire.Calls.{
  SystemCall, Answer, close, Outcome, goes_on, exits, becomes, is_negative, Run, after, and_then,
  ask, check, pure,
}

-- Whether the umpire looks at what a call returns.
abbrev pub is_checked : SystemCall → Bool
is_checked (close fd) = false
is_checked c = true

-- The calls from the `n`-th on, of which none that is looked at fails.
pub data Succeeded (os : ℕ → Answer) : ℕ → List SystemCall → Type 0 where
  no_calls : {n : ℕ} → Succeeded os n []
  call :
      {n : ℕ} {c : SystemCall} {cs : List SystemCall}
      → (not (is_checked c) || not (is_negative (os n).result)) ≡ true
      → Succeeded os (suc n) cs
      → Succeeded os n (c ∷ cs)

-- How a part of a program ends that goes on with the value `a` after the calls `cs`, where none
-- fails: it does so, it has become the program of which `W` holds, or a call fails and it exits.
pub data Ends {A : Type 0} (os : ℕ → Answer) (n : ℕ) (a : A) (cs : List SystemCall)
    (W : List ℕ → List SystemCall → Type 0) : Outcome A × List SystemCall → Type 0 where
  continues : Succeeded os n cs → Ends os n a cs W (goes_on a, cs)
  becomes_player :
      {path : List ℕ} {ds : List SystemCall}
      → W path ds
      → Succeeded os n ds
      → Ends os n a cs W (becomes path, ds)
  stops :
      (ds : List SystemCall) (c : SystemCall)
      → Succeeded os n ds
      → is_checked c ≡ true
      → is_negative (os (n + length ds)).result ≡ true
      → Ends os n a cs W (exits minus_one, ds ++ (c ∷ []))

-- How a part of a program ends that never goes on.
pub data Leaves {A : Type 0} (os : ℕ → Answer) (n : ℕ) (W : List ℕ → List SystemCall → Type 0)
    : Outcome A × List SystemCall → Type 0 where
  leaves_for :
      {path : List ℕ} {ds : List SystemCall}
      → W path ds
      → Succeeded os n ds
      → Leaves os n W (becomes path, ds)
  gives_up :
      (ds : List SystemCall) (c : SystemCall)
      → Succeeded os n ds
      → is_checked c ≡ true
      → is_negative (os (n + length ds)).result ≡ true
      → Leaves os n W (exits minus_one, ds ++ (c ∷ []))

pub Leaves-Ends :
    {A : Type 0} {os : ℕ → Answer} {n : ℕ} {W : List ℕ → List SystemCall → Type 0} (a : A)
    (cs : List SystemCall) (r : Outcome A × List SystemCall)
    → Leaves os n W r
    → Ends os n a cs W r
Leaves-Ends a cs _ (leaves_for w h) = becomes_player w h
Leaves-Ends a cs _ (gives_up ds c h k e) = stops ds c h k e

Succeeded-append :
    (os : ℕ → Answer) (n : ℕ) (cs ds : List SystemCall)
    → Succeeded os n cs
    → Succeeded os (n + length cs) ds
    → Succeeded os n (cs ++ ds)
Succeeded-append os n _ ds no_calls g = let here : n + 0 ≡ n = omega arith in rw here at g
Succeeded-append os n _ ds (call {cs = cs} e h) g =
    let next : n + suc (length cs) ≡ suc n + length cs = omega arith in
    call e (Succeeded-append os (suc n) cs ds h (rw next at g))

module _ (os : ℕ → Answer) where
  after-Ends :
      {B : Type 0} {W : List ℕ → List SystemCall → Type 0} (n : ℕ) (b : B) (cs ds : List SystemCall)
      (r : Outcome B × List SystemCall)
      → Succeeded os n cs
      → Ends os (n + length cs) b ds (λ p es. W p (cs ++ es)) r
      → Ends os n b (cs ++ ds) W (after cs r)
  after-Ends n b cs ds _ h (continues g) = continues (Succeeded-append os n cs ds h g)
  after-Ends n b cs ds _ h (becomes_player {ds = es} w g) =
      becomes_player w (Succeeded-append os n cs es h g)
  after-Ends n b cs ds _ h (stops es c g k e) =
      let number : n + length (cs ++ es) ≡ n + length cs + length es =
        omega (arith, length-append cs es) in
      rw (sym (append_assoc cs es (c ∷ [])))
        (stops (cs ++ es) c (Succeeded-append os n cs es h g) k (rw number e))

  -- A part of a program and the rest of it.
  pub then-Ends :
      {A B : Type 0} {W : List ℕ → List SystemCall → Type 0} (n : ℕ) (a : A) (b : B)
      (cs ds : List SystemCall) (r : Outcome A × List SystemCall) (f : A → Run B)
      → Ends os n a cs W r
      → Ends os (n + length cs) b ds (λ p es. W p (cs ++ es)) (f a (n + length cs))
      → Ends os n b (cs ++ ds) W (and_then n r f)
  then-Ends n a b cs ds _ f (continues h) g = after-Ends n b cs ds (f a (n + length cs)) h g
  then-Ends n a b cs ds _ f (becomes_player w h) g = becomes_player w h
  then-Ends n a b cs ds _ f (stops es c h k e) g = stops es c h k e

  -- A part of a program that the rest only changes the value of.
  pub then_pure-Ends :
      {A B : Type 0} {W : List ℕ → List SystemCall → Type 0} (n : ℕ) (a : A) (cs : List SystemCall)
      (r : Outcome A × List SystemCall) (g : A → B)
      → Ends os n a cs W r
      → Ends os n (g a) cs W (and_then n r (λ x. pure (g x)))
  then_pure-Ends {W = W} n a cs r g h =
      rw (append-nil cs) at
        (then-Ends {W = W} n a (g a) cs [] r (λ x. pure (g x)) h (continues no_calls))

  after-Leaves :
      {B : Type 0} {W : List ℕ → List SystemCall → Type 0} (n : ℕ) (cs : List SystemCall)
      (r : Outcome B × List SystemCall)
      → Succeeded os n cs
      → Leaves os (n + length cs) (λ p es. W p (cs ++ es)) r
      → Leaves os n W (after cs r)
  after-Leaves n cs _ h (leaves_for {ds = es} w g) = leaves_for w (Succeeded-append os n cs es h g)
  after-Leaves n cs _ h (gives_up es c g k e) =
      let number : n + length (cs ++ es) ≡ n + length cs + length es =
        omega (arith, length-append cs es) in
      rw (sym (append_assoc cs es (c ∷ [])))
        (gives_up (cs ++ es) c (Succeeded-append os n cs es h g) k (rw number e))

  pub then-Leaves :
      {A B : Type 0} {W : List ℕ → List SystemCall → Type 0} (n : ℕ) (a : A) (cs : List SystemCall)
      (r : Outcome A × List SystemCall) (f : A → Run B)
      → Ends os n a cs W r
      → Leaves os (n + length cs) (λ p es. W p (cs ++ es)) (f a (n + length cs))
      → Leaves os n W (and_then n r f)
  then-Leaves n a cs _ f (continues h) g = after-Leaves n cs (f a (n + length cs)) h g
  then-Leaves n a cs _ f (becomes_player w h) g = leaves_for w h
  then-Leaves n a cs _ f (stops es c h k e) g = gives_up es c h k e

  pub check-Ends :
      {W : List ℕ → List SystemCall → Type 0} (n : ℕ) (c : SystemCall)
      → is_checked c ≡ true
      → Ends os n (os n) (c ∷ []) W (check os c n)
  check-Ends n c k = elim (Bool-cases (is_negative (os n).result)) [
    | inl e ↦ rw e (stops [] c no_calls k (let here : n + 0 ≡ n = omega arith in rw here e))
    | inr e ↦ rw e (continues (call (ground arith) no_calls))
  ]

  pub ask_close-Ends :
      {W : List ℕ → List SystemCall → Type 0} (n fd : ℕ)
      → Ends os n (os n) (close fd ∷ []) W (ask os (close fd) n)
  ask_close-Ends n fd = continues (call refl no_calls)
