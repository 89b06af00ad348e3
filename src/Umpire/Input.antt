-- ===== src/Umpire/Input.antt =====
-- The input of umpire2 (Assignment1/Part2/2.2/umpire2.c): its arguments and the file of the
-- players, a list of bytes. `atoi` is the function of the C library. `none` is a refusal or a write
-- outside an array.
use cs330_assignments.Base.{
  ℕ, zero, suc, ◌<◌, ◌≡◌, ◌≢◌, refl, arith, Bool, false, ◌&&◌, Option, none, some, List, [], ◌∷◌,
  ◌++◌, length, ◌==◌, if◌then◌else◌, ℤ, pos, negsuc,
}

-- Whether a text starts with "-r".
abbrev pub is_rounds_option : List ℕ → Bool
is_rounds_option [] = false
is_rounds_option (c ∷ []) = false
is_rounds_option (c ∷ d ∷ rest) = (c == b'-') && (d == b'r')

-- The number of rounds of each match and the name of the file.
unfoldable pub arguments : (List ℕ → ℤ) → List (List ℕ) → Option (ℤ × List ℕ)
arguments atoi (program ∷ infile ∷ []) = some (pos 10, infile)
arguments atoi (program ∷ option ∷ count ∷ infile ∷ []) =
    some (if is_rounds_option option then atoi count else pos 10, infile)
arguments atoi argv = none

-- One line into an array with room for `room` bytes, and what follows in the file. At the end of
-- the file one more byte is written, which the 0 behind the text replaces.
unfoldable pub line_loop : ℕ → List ℕ → Option (List ℕ × List ℕ)
line_loop zero file = none
line_loop (suc room) [] = some ([], [])
line_loop (suc room) (c ∷ file) =
    let rest = line_loop room file in
    if c == b'\n'
    then some ([], file)
    else elim rest [ none ↦ none | some (text, left) ↦ some (c ∷ text, left) ]

-- The length of a row of `executables`.
abbrev pub name_room : ℕ
name_room = 101

unfoldable pub names_loop : ℕ → List ℕ → Option (List (List ℕ))
names_loop zero file = some []
names_loop (suc n) file = elim (line_loop name_room file) [
  | none ↦ none
  | some (name, left) ↦ elim (names_loop n left) [ none ↦ none | some names ↦ some (name ∷ names) ]
]

-- An array of no players is not allowed.
unfoldable pub read_players : (List ℕ → ℤ) → List ℕ → Option (List (List ℕ))
read_players atoi file = elim (line_loop 64 file) [
  | none ↦ none
  | some (nplay, left) ↦ elim (atoi nplay) [
    | pos zero ↦ none
    | pos (suc n) ↦ names_loop (suc n) left
    | negsuc n ↦ none
  ]
]

-- A text without a line break.
pub data Unbroken : List ℕ → Type 0 where
  ends : Unbroken []
  goes_on : {c : ℕ} {text : List ℕ} → c ≢ b'\n' → Unbroken text → Unbroken (c ∷ text)

-- Texts without a line break that fit into the rows.
pub data Names : List (List ℕ) → Type 0 where
  no_names : Names []
  one_more :
      {name : List ℕ} {names : List (List ℕ)}
      → Unbroken name
      → length name < name_room
      → Names names
      → Names (name ∷ names)

-- Texts, each with a line break behind it.
unfoldable pub lines_of : List (List ℕ) → List ℕ
lines_of [] = []
lines_of (name ∷ names) = name ++ b'\n' ∷ lines_of names

line_loop-line :
    (room : ℕ) (text left : List ℕ)
    → Unbroken text
    → length text < room
    → line_loop room (text ++ b'\n' ∷ left) ≡ some (text, left)
unfolding line_loop
line_loop-line zero text left u l = absurd (omega arith)
line_loop-line (suc room) _ left ends l = refl
line_loop-line (suc room) _ left (goes_on {c} {text} n u) l =
    let other : (c == b'\n') ≡ false = ground arith in
    rw (other, line_loop-line room text left u (omega arith)) refl

names_loop-lines_of :
    (names : List (List ℕ)) → Names names → names_loop (length names) (lines_of names) ≡ some names
unfolding names_loop lines_of
names_loop-lines_of _ no_names = refl
names_loop-lines_of _ (one_more {name} {names} u l h) =
    rw (names_loop, line_loop-line name_room name (lines_of names) u l, names_loop-lines_of names h)
      refl

-- From a file with a line for the number of players and one for the name of each, where the number
-- has fewer than 64 characters and each name fewer than 101, umpire2 gets exactly these names.
pub read_players-lines_of :
    (atoi : List ℕ → ℤ) (number name : List ℕ) (names : List (List ℕ))
    → atoi number ≡ pos (suc (length names))
    → Unbroken number
    → length number < 64
    → Names (name ∷ names)
    → read_players atoi (lines_of (number ∷ name ∷ names)) ≡ some (name ∷ names)
unfolding read_players lines_of
read_players-lines_of atoi number name names e u l h =
    rw (read_players, line_loop-line 64 number (lines_of (name ∷ names)) u l, e)
      (names_loop-lines_of (name ∷ names) h)
