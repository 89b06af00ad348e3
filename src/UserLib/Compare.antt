-- ===== src/UserLib/Compare.antt =====
-- The comparison of texts in the user library (`ustrcmp` of Assignment2/user/lib.c). A text is an
-- array of bytes that ends with 0; the loop has a number of rounds, and `none` says that they did
-- not suffice.
pub mod Equality
use cs330_assignments.Base.{
  ℕ, zero, suc, Bool, not, ◌&&◌, Option, none, some, ℤ, pos, minus_one, ◌==◌, if◌then◌else◌,
}

unfoldable pub ustrcmp_loop : ℕ → ℕ → (ℕ → ℕ) → (ℕ → ℕ) → Option ℤ
ustrcmp_loop zero ctr s d = none
ustrcmp_loop (suc rounds) ctr s d =
    let rest = ustrcmp_loop rounds (suc ctr) s d in
    if not (s ctr == 0) && not (d ctr == 0) && (s ctr == d ctr)
    then rest
    else if (s ctr == 0) && (d ctr == 0)
    then some (pos 0)
    else some minus_one

unfoldable pub ustrcmp : ℕ → (ℕ → ℕ) → (ℕ → ℕ) → Option ℤ
ustrcmp rounds s d = ustrcmp_loop rounds 0 s d
