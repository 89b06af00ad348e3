-- ===== src/UserLib/Printf.antt =====
-- Formatted output of the user library (`vuprintf` and `printf` of Assignment2/user/lib.c). A text
-- is the list of its bytes before the terminating 0; the buffer is the list of the bytes written so
-- far, and `none` is undefined behaviour.
pub mod Numerals
pub mod Literals
pub mod Prints
use cs330_assignments.Base.{
  ℕ, zero, suc, ◌+◌, ◌-◌, ◌/◌, ◌%◌, ◌^◌, Bool, true, false, ◌||◌, Option, none, some, List, [], ◌∷◌,
  ◌++◌, length, ltb, leb, ◌==◌, if◌then◌else◌,
}

-- What is passed behind the format: a word, or a pointer to a text, `none` for the null pointer.
pub data Arg : Type 0 where
  word : ℕ → Arg
  string : Option (List ℕ) → Arg

-- `'0' + tmp % 16`, or a letter from 'A' on.
abbrev pub hex_digit : ℕ → ℕ
hex_digit d = if ltb 9 d then b'A' + (d - 10) else b'0' + d

abbrev pub decimal_digit : ℕ → ℕ
decimal_digit d = b'0' + d

-- The digits of `tmp`, the last one first, in front of `chars`, with room for `room` more in the
-- array; `none` is a write behind its end.
unfoldable pub digit_loop : ℕ → (ℕ → ℕ) → ℕ → ℕ → List ℕ → Option (List ℕ)
digit_loop base digit zero tmp chars = if tmp == 0 then some chars else none
digit_loop base digit (suc room) tmp chars =
    let rest = digit_loop base digit room (tmp / base) (digit (tmp % base) ∷ chars) in
    if tmp == 0 then some chars else rest

-- The length of the array `chars`.
abbrev pub max_digits : ℕ
max_digits = 20

-- `text` in front of what follows.
abbrev pub before : List ℕ → Option (List ℕ) → Option (List ℕ)
before text none = none
before text (some rest) = some (text ++ rest)

-- What `%d` and `%u` print for the 32-bit pattern of an `int`; -2 ^ 31 has no negation.
unfoldable pub put_decimal : ℕ → Option (List ℕ)
put_decimal num =
    if num == 0
    then some (b'0' ∷ [])
    else if num == 2 ^ 31
    then none
    else if ltb (2 ^ 31) num
    then before (b'-' ∷ []) (digit_loop 10 decimal_digit max_digits (2 ^ 32 - num) [])
    else digit_loop 10 decimal_digit max_digits num []

-- What `%x` prints for the 64-bit pattern of a `long`.
unfoldable pub put_hex : ℕ → Option (List ℕ)
put_hex num =
    if num == 0
    then some (b'0' ∷ b'x' ∷ b'0' ∷ [])
    else if num == 2 ^ 63
    then none
    else if ltb (2 ^ 63) num
    then before (b'-' ∷ b'0' ∷ b'x' ∷ []) (digit_loop 16 hex_digit max_digits (2 ^ 64 - num) [])
    else before (b'0' ∷ b'x' ∷ []) (digit_loop 16 hex_digit max_digits num [])

-- The text with the arguments that are left.
abbrev pub with_rest : Option (List ℕ) → List Arg → Option (List ℕ × List Arg)
with_rest none args = none
with_rest (some text) args = some (text, args)

unfoldable pub next_char : List Arg → Option (List ℕ × List Arg)
next_char (word w ∷ args) = some (w % 256 ∷ [], args)
next_char args = none

unfoldable pub next_decimal : List Arg → Option (List ℕ × List Arg)
next_decimal (word w ∷ args) = with_rest (put_decimal (w % 2 ^ 32)) args
next_decimal args = none

unfoldable pub next_hex : List Arg → Option (List ℕ × List Arg)
next_hex (word w ∷ args) = with_rest (put_hex (w % 2 ^ 64)) args
next_hex args = none

unfoldable pub next_string : List Arg → Option (List ℕ × List Arg)
next_string (string none ∷ args) = some ([], args)
next_string (string (some text) ∷ args) = some (text, args)
next_string args = none

-- What one directive prints, and the arguments that are left.
unfoldable pub put_directive : ℕ → List Arg → Option (List ℕ × List Arg)
put_directive ch args =
    if ch == b'c'
    then next_char args
    else if (ch == b'd') || (ch == b'u')
    then next_decimal args
    else if ch == b'x'
    then next_hex args
    else if ch == b's'
    then next_string args
    else some (ch ∷ [], args)

-- `none` too where the format ends with a '%': the loop then runs on behind its end.
unfoldable pub vuprintf : List ℕ → List Arg → Option (List ℕ)
vuprintf [] args = some []
vuprintf (ch ∷ []) args = if ch == b'%' then none else some (ch ∷ [])
vuprintf (ch ∷ d ∷ format) args =
    if ch == b'%'
    then elim (put_directive d args) [
      | none ↦ none
      | some (text, args') ↦ before text (vuprintf format args')
    ]
    else before (ch ∷ []) (vuprintf (d ∷ format) args)

-- The length of the array `buff`.
abbrev pub max_text : ℕ
max_text = 4096

-- The result, and the text that `write` gets; `none` where the text leaves the array.
unfoldable pub printf : List ℕ → List Arg → Option (ℕ × List ℕ)
printf format args = elim (vuprintf format args) [
  | none ↦ none
  | some text ↦ if leb (length text) max_text then some (length text, text) else none
]
