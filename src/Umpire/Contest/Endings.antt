-- ===== src/Umpire/Contest/Endings.antt =====
-- How umpire2 and its players end (Assignment1/Part2/2.2/umpire2.c), put together from its parts.
use mathlib.Core.List.{append_assoc}
use cs330_assignments.Base.{
  ℕ, zero, suc, ◌+◌, ◌≡◌, refl, sym, arith, Bool, true, false, not, ◌||◌, List, [], ◌∷◌, ◌++◌,
  length, length-append, minus_one,
}
use cs330_assignments.Umpire.Calls.{
  Answer, SystemCall, pipe, write, read, fork, dup2, close, exec, is_negative, Outcome, goes_on,
  exits, becomes, Run, after, and_then,
}
use cs330_assignments.Umpire.Calls.Ends.{
  Succeeded, no_calls, call, is_checked, Ends, continues, becomes_player, stops, Leaves, leaves_for,
  gives_up,
}
use cs330_assignments.Umpire.Match.Parts.{times}
use cs330_assignments.Umpire.Contest.Forks.{is_fork, ForkFree, ForkFree-last}

-- Whether umpire2 looks at what a call returns for a failure: it does not for a fork or a close.
abbrev pub is_watched : SystemCall → Bool
is_watched (close fd) = false
is_watched fork = false
is_watched c = true

-- The calls from the `n`-th on, of which none that is watched fails.
pub data NoneFailed (os : ℕ → Answer) : ℕ → List SystemCall → Type 0 where
  no_more : {n : ℕ} → NoneFailed os n []
  one_more :
      {n : ℕ} {c : SystemCall} {cs : List SystemCall}
      → (not (is_watched c) || not (is_negative (os n).result)) ≡ true
      → NoneFailed os (suc n) cs
      → NoneFailed os n (c ∷ cs)

-- How a program ends that makes the calls `cs` and goes on with `value`, where `G` holds and none
-- of the watched calls fails; or becomes the program of which `W` holds, with its calls, where none
-- of the watched ones fails; or has the status -1, where the last call is watched and has failed,
-- and no watched call before it has.
pub data Ended {A : Type 0} (os : ℕ → Answer) (n : ℕ) (value : A) (cs : List SystemCall)
    (G : Type 0) (W : List ℕ → List SystemCall → Type 0)
    : Outcome A × List SystemCall → Type 0 where
  prints : G → NoneFailed os n cs → Ended os n value cs G W (goes_on value, cs)
  is_player :
      {path : List ℕ} {ds : List SystemCall}
      → W path ds
      → NoneFailed os n ds
      → Ended os n value cs G W (becomes path, ds)
  failed :
      (ds : List SystemCall) (c : SystemCall)
      → NoneFailed os n ds
      → is_watched c ≡ true
      → is_negative (os (n + length ds)).result ≡ true
      → Ended os n value cs G W (exits minus_one, ds ++ (c ∷ []))

watched_call :
    (c : SystemCall) (b : Bool)
    → (not (is_checked c) || b) ≡ true
    → (not (is_watched c) || b) ≡ true
watched_call (close fd) b e = refl
watched_call fork b e = refl
watched_call pipe b e = e
watched_call (write fd text) b e = e
watched_call (read fd) b e = e
watched_call (dup2 fd target) b e = e
watched_call (exec path) b e = e

watched_other : (c : SystemCall) → is_checked c ≡ true → is_fork c ≡ false → is_watched c ≡ true
watched_other pipe e f = refl
watched_other (write fd text) e f = refl
watched_other (read fd) e f = refl
watched_other (dup2 fd target) e f = refl
watched_other (exec path) e f = refl
watched_other (close fd) e f = e
watched_other fork e f = absurd (ground (arith, f))

Succeeded-NoneFailed :
    (os : ℕ → Answer) (n : ℕ) (cs : List SystemCall) → Succeeded os n cs → NoneFailed os n cs
Succeeded-NoneFailed os n _ no_calls = no_more
Succeeded-NoneFailed os n _ (call {c = c} {cs = cs} e h) =
    one_more (watched_call c _ e) (Succeeded-NoneFailed os (suc n) cs h)

pub NoneFailed-append :
    (os : ℕ → Answer) (n : ℕ) (cs ds : List SystemCall)
    → NoneFailed os n cs
    → NoneFailed os (n + length cs) ds
    → NoneFailed os n (cs ++ ds)
NoneFailed-append os n _ ds no_more g = let here : n + 0 ≡ n = omega arith in rw here at g
NoneFailed-append os n _ ds (one_more {cs = cs} e h) g =
    let next : n + suc (length cs) ≡ suc n + length cs = omega arith in
    one_more e (NoneFailed-append os (suc n) cs ds h (rw next at g))

pub forks-NoneFailed : (os : ℕ → Answer) (rounds n : ℕ) → NoneFailed os n (times rounds fork)
unfolding times
forks-NoneFailed os zero n = no_more
forks-NoneFailed os (suc rounds) n = one_more refl (forks-NoneFailed os rounds (suc n))

length-times : (n : ℕ) (c : SystemCall) → length (times n c) ≡ n
unfolding times
length-times zero c = refl
length-times (suc n) c = omega (arith, length-times n c)

module _ (os : ℕ → Answer) where
  -- Calls that succeed, after forks.
  forks_then :
      (made n : ℕ) (ds : List SystemCall)
      → Succeeded os (n + made) ds
      → NoneFailed os n (times made fork ++ ds)
  forks_then made n ds h =
      NoneFailed-append os n (times made fork) ds (forks-NoneFailed os made n)
        (rw (length-times made fork) (Succeeded-NoneFailed os (n + made) ds h))

  after-Ended :
      {B : Type 0} {H : Type 0} {W : List ℕ → List SystemCall → Type 0} (n : ℕ) (b : B)
      (cs ds : List SystemCall) (r : Outcome B × List SystemCall)
      → NoneFailed os n cs
      → Ended os (n + length cs) b ds H (λ p es. W p (cs ++ es)) r
      → Ended os n b (cs ++ ds) H W (after cs r)
  after-Ended n b cs ds _ h (prints k g) = prints k (NoneFailed-append os n cs ds h g)
  after-Ended n b cs ds _ h (is_player {ds = es} w g) =
      is_player w (NoneFailed-append os n cs es h g)
  after-Ended n b cs ds _ h (failed es c g k e) =
      let number : n + length (cs ++ es) ≡ n + length cs + length es =
        omega (arith, length-append cs es) in
      rw (sym (append_assoc cs es (c ∷ [])))
        (failed (cs ++ es) c (NoneFailed-append os n cs es h g) k (rw number e))

  -- A part of the program and the rest of it.
  pub then-Ended :
      {A B : Type 0} {G H : Type 0} {W : List ℕ → List SystemCall → Type 0} (n : ℕ) (a : A) (b : B)
      (cs ds : List SystemCall) (r : Outcome A × List SystemCall) (f : A → Run B)
      → Ended os n a cs G W r
      → (G → Ended os (n + length cs) b ds H (λ p es. W p (cs ++ es)) (f a (n + length cs)))
      → Ended os n b (cs ++ ds) H W (and_then n r f)
  then-Ended n a b cs ds _ f (prints k h) g = after-Ended n b cs ds (f a (n + length cs)) h (g k)
  then-Ended n a b cs ds _ f (is_player w h) g = is_player w h
  then-Ended n a b cs ds _ f (failed es c h k e) g = failed es c h k e

  -- A part that ends as a part of a match does.
  pub Ends-Ended :
      {A : Type 0} {G : Type 0} {V W : List ℕ → List SystemCall → Type 0} (n : ℕ) (a : A)
      (cs : List SystemCall) (r : Outcome A × List SystemCall)
      → G
      → ((path : List ℕ) (ds : List SystemCall) → V path ds → W path ds)
      → ForkFree r.1
      → Ends os n a cs V r
      → Ended os n a cs G W r
  Ends-Ended n a cs _ k v x (continues h) = prints k (Succeeded-NoneFailed os n cs h)
  Ends-Ended n a cs _ k v x (becomes_player {path = p} {ds = ds} w h) =
      is_player (v p ds w) (Succeeded-NoneFailed os n ds h)
  Ends-Ended n a cs _ k v x (stops ds c h e f) =
      failed ds c (Succeeded-NoneFailed os n ds h) (watched_other c e (ForkFree-last ds c x)) f

  -- A process that never goes on, after forks.
  pub Leaves-Ended :
      {A : Type 0} {G : Type 0} {W : List ℕ → List SystemCall → Type 0} (made n : ℕ) (a : A)
      (cs : List SystemCall) (r : Outcome A × List SystemCall)
      → ForkFree r.1
      → Leaves os (n + made) (λ p es. W p (times made fork ++ es)) r
      → Ended os n a cs G W (after (times made fork) r)
  Leaves-Ended made n a cs _ x (leaves_for {ds = ds} w h) = is_player w (forks_then made n ds h)
  Leaves-Ended made n a cs _ x (gives_up ds c h k e) =
      let number : n + length (times made fork ++ ds) ≡ n + made + length ds =
        omega (arith, length-append (times made fork) ds, length-times made fork) in
      rw (sym (append_assoc (times made fork) ds (c ∷ []))) (
        failed (times made fork ++ ds) c (forks_then made n ds h)
          (watched_other c k (ForkFree-last ds c x)) (rw number e))

  pub weaken-Ended :
      {A : Type 0} {G : Type 0} {V W : List ℕ → List SystemCall → Type 0} (n : ℕ) (a : A)
      (cs : List SystemCall) (r : Outcome A × List SystemCall)
      → ((path : List ℕ) (ds : List SystemCall) → V path ds → W path ds)
      → Ended os n a cs G V r
      → Ended os n a cs G W r
  weaken-Ended n a cs _ v (prints k h) = prints k h
  weaken-Ended n a cs _ v (is_player {path = p} {ds = ds} w h) = is_player (v p ds w) h
  weaken-Ended n a cs _ v (failed ds c h k e) = failed ds c h k e
