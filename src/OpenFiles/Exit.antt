-- ===== src/OpenFiles/Exit.antt =====
-- `do_file_exit` of Assignment2/file.c.
use cs330_assignments.Base.{ℕ, zero, suc, inl, inr, arith, ◌==◌, Bool-cases}
use cs330_assignments.OpenFiles.State.{Store, release, exit_loop, do_file_exit, max_open_files}
use cs330_assignments.OpenFiles.Balance.{Balanced, held, Balanced-skip, refs, release-Balanced}

exit_loop-Balanced :
    (rounds i : ℕ) (files elsewhere : ℕ → ℕ) (s : Store)
    → Balanced (held rounds i files elsewhere) s
    → Balanced elsewhere (exit_loop rounds i files s)
unfolding exit_loop refs
exit_loop-Balanced zero i files elsewhere s h = Balanced-skip _ elsewhere s h (λ b n. omega arith)
exit_loop-Balanced (suc rounds) i files elsewhere s h = elim (Bool-cases (files i == 0)) [
  | inl null ↦ rw null (
      exit_loop-Balanced rounds (suc i) files elsewhere s
        (Balanced-skip _ (held rounds (suc i) files elsewhere) s h (λ b n. ground arith)))
  | inr some ↦ rw some (
      exit_loop-Balanced rounds (suc i) files elsewhere (release (files i) s) (
        release-Balanced (files i) _ (held rounds (suc i) files elsewhere) s (ground arith) h
          (ground arith) (λ b n k. ground arith)))
]

-- After do_file_exit, where every object in use counted its references, the descriptors of the
-- process among them, exactly the objects with references from elsewhere are still allocated,
-- and they count those.
pub do_file_exit-Balanced :
    (files elsewhere : ℕ → ℕ) (s : Store)
    → Balanced (held max_open_files 0 files elsewhere) s
    → Balanced elsewhere (do_file_exit files s)
unfolding do_file_exit
do_file_exit-Balanced files elsewhere s h = exit_loop-Balanced max_open_files 0 files elsewhere s h
