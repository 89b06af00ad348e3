-- ===== src/Launcher/Examples.antt =====
-- The words of a concrete command (Assignment1/Part1/1.1/executeCommand.c).
use cs330_assignments.Base.{ℕ, ◌≡◌, refl, arith, List, [], ◌∷◌}
use cs330_assignments.Launcher.{take_token, strtok, token_loop}
use cs330_assignments.Launcher.Words.{AllWords, token_loop-AllWords}

-- "ls  x"
abbrev command : List ℕ
command = b'l' ∷ b's' ∷ b' ' ∷ b' ' ∷ b'x' ∷ []

two_words : token_loop b' ' 6 command ≡ ((b'l' ∷ b's' ∷ []) ∷ (b'x' ∷ []) ∷ [], [])
unfolding token_loop strtok take_token
two_words = refl

token_loop-AllWords_example : AllWords b' ' command (token_loop b' ' 6 command)
token_loop-AllWords_example = token_loop-AllWords b' ' 6 command (omega arith)
