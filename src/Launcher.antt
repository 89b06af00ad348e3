-- ===== src/Launcher.antt =====
-- The words of the commands, and the loop that takes them apart (executeCommand of
-- Assignment1/Part1/1.1/executeCommand.c; execute_in_parallel of
-- Assignment1/Part1/1.2/executeInParallel.c has the same loop). A text is the list of its bytes
-- before the terminating 0.
pub mod Words
mod Examples
use cs330_assignments.Base.{ℕ, zero, suc, Option, none, some, List, [], ◌∷◌, ◌==◌, if◌then◌else◌}

abbrev pub drop_separators : ℕ → List ℕ → List ℕ
drop_separators sep [] = []
drop_separators sep (c ∷ s) = let rest = drop_separators sep s in if c == sep then rest else c ∷ s

-- The bytes before a separator, and what follows it.
unfoldable pub take_token : ℕ → List ℕ → List ℕ × List ℕ
take_token sep [] = ([], [])
take_token sep (c ∷ s) =
    let rest = take_token sep s in if c == sep then ([], s) else (c ∷ rest.0, rest.1)

-- `strtok` of the C library, on the text that it goes on with: the token, and the text for the next
-- call. There is one such text for all calls, so a call on another text replaces it.
unfoldable pub strtok : ℕ → List ℕ → Option (List ℕ) × List ℕ
strtok sep s = elim (drop_separators sep s) [
  | [] ↦ (none, [])
  | c ∷ rest ↦ let t = take_token sep (c ∷ rest) in (some t.0, t.1)
]

-- The loop over the tokens of a text: the tokens, and the text that `strtok` is left with.
unfoldable pub token_loop : ℕ → ℕ → List ℕ → List (List ℕ) × List ℕ
token_loop sep zero s = ([], s)
token_loop sep (suc rounds) s = elim (strtok sep s).0 [
  | none ↦ ([], (strtok sep s).1)
  | some arg ↦ let rest = token_loop sep rounds (strtok sep s).1 in (arg ∷ rest.0, rest.1)
]
