-- ===== src/UserLib/Printf/Prints.antt =====
-- What `printf` prints for a format and its arguments (Assignment2/user/lib.c).
use cs330_assignments.Base.{
  ℕ, ◌%◌, ◌^◌, ◌≤◌, ◌<◌, ◌≡◌, ◌≢◌, ◌⊎◌, refl, ◌∙◌, inl, inr, arith, false, Option, none, some, List,
  [], ◌∷◌, ◌++◌, length, leb, ◌==◌, Bool-cases, s32, s64,
}
use cs330_assignments.UserLib.Printf.{
  Arg, word, string, put_directive, next_char, next_decimal, next_hex, next_string, vuprintf,
  printf, max_text,
}
use cs330_assignments.UserLib.Printf.Literals.{Literal, put_decimal-Literal, put_hex-Literal}

-- A character behind a '%' that asks for no argument.
pub record Plain (ch : ℕ) : Type 0 where
  pub not_c : ch ≢ b'c'
  pub not_d : ch ≢ b'd'
  pub not_u : ch ≢ b'u'
  pub not_x : ch ≢ b'x'
  pub not_s : ch ≢ b's'

-- The arguments are those that the format asks for, and no number is the one without a negation.
pub data Fits : List ℕ → List Arg → Type 0 where
  fits_end : {args : List Arg} → Fits [] args
  fits_text :
      {ch : ℕ} {format : List ℕ} {args : List Arg}
      → ch ≢ b'%'
      → Fits format args
      → Fits (ch ∷ format) args
  fits_char :
      {w : ℕ} {format : List ℕ} {args : List Arg}
      → Fits format args
      → Fits (b'%' ∷ b'c' ∷ format) (word w ∷ args)
  fits_decimal :
      {ch w : ℕ} {format : List ℕ} {args : List Arg}
      → (ch ≡ b'd') ⊎ (ch ≡ b'u')
      → w % 2 ^ 32 ≢ 2 ^ 31
      → Fits format args
      → Fits (b'%' ∷ ch ∷ format) (word w ∷ args)
  fits_hex :
      {w : ℕ} {format : List ℕ} {args : List Arg}
      → w % 2 ^ 64 ≢ 2 ^ 63
      → Fits format args
      → Fits (b'%' ∷ b'x' ∷ format) (word w ∷ args)
  fits_null :
      {format : List ℕ} {args : List Arg}
      → Fits format args
      → Fits (b'%' ∷ b's' ∷ format) (string none ∷ args)
  fits_string :
      {text format : List ℕ} {args : List Arg}
      → Fits format args
      → Fits (b'%' ∷ b's' ∷ format) (string (some text) ∷ args)
  fits_plain :
      {ch : ℕ} {format : List ℕ} {args : List Arg}
      → Plain ch
      → Fits format args
      → Fits (b'%' ∷ ch ∷ format) args

-- The text of a format and its arguments.
pub data Prints : List ℕ → List Arg → List ℕ → Type 0 where
  print_end : {args : List Arg} → Prints [] args []
  print_text :
      {ch : ℕ} {format text : List ℕ} {args : List Arg}
      → ch ≢ b'%'
      → Prints format args text
      → Prints (ch ∷ format) args (ch ∷ text)
  print_char :
      {w : ℕ} {format text : List ℕ} {args : List Arg}
      → Prints format args text
      → Prints (b'%' ∷ b'c' ∷ format) (word w ∷ args) (w % 256 ∷ text)
  print_decimal :
      {ch w : ℕ} {format text number : List ℕ} {args : List Arg}
      → (ch ≡ b'd') ⊎ (ch ≡ b'u')
      → Literal 10 [] (s32 (w % 2 ^ 32)) number
      → Prints format args text
      → Prints (b'%' ∷ ch ∷ format) (word w ∷ args) (number ++ text)
  print_hex :
      {w : ℕ} {format text number : List ℕ} {args : List Arg}
      → Literal 16 (b'0' ∷ b'x' ∷ []) (s64 (w % 2 ^ 64)) number
      → Prints format args text
      → Prints (b'%' ∷ b'x' ∷ format) (word w ∷ args) (number ++ text)
  print_null :
      {format text : List ℕ} {args : List Arg}
      → Prints format args text
      → Prints (b'%' ∷ b's' ∷ format) (string none ∷ args) text
  print_string :
      {format text s : List ℕ} {args : List Arg}
      → Prints format args text
      → Prints (b'%' ∷ b's' ∷ format) (string (some s) ∷ args) (s ++ text)
  print_plain :
      {ch : ℕ} {format text : List ℕ} {args : List Arg}
      → Plain ch
      → Prints format args text
      → Prints (b'%' ∷ ch ∷ format) args (ch ∷ text)

put_directive-decimal :
    (ch : ℕ) (args : List Arg)
    → (ch ≡ b'd') ⊎ (ch ≡ b'u')
    → put_directive ch args ≡ next_decimal args
unfolding put_directive
put_directive-decimal ch args (inl e) = rw e refl
put_directive-decimal ch args (inr e) = rw e refl

put_directive-Plain :
    (ch : ℕ) (args : List Arg) → Plain ch → put_directive ch args ≡ some (ch ∷ [], args)
unfolding put_directive
put_directive-Plain ch args p = ground (arith, p.not_c, p.not_d, p.not_u, p.not_x, p.not_s)

vuprintf-directive :
    (ch : ℕ) (format text rest : List ℕ) (args args' : List Arg)
    → put_directive ch args ≡ some (text, args')
    → vuprintf format args' ≡ some rest
    → vuprintf (b'%' ∷ ch ∷ format) args ≡ some (text ++ rest)
unfolding vuprintf
vuprintf-directive ch format text rest args args' d e = rw (d, e) refl

vuprintf-text :
    (ch : ℕ) (format text : List ℕ) (args : List Arg)
    → ch ≢ b'%'
    → vuprintf format args ≡ some text
    → vuprintf (ch ∷ format) args ≡ some (ch ∷ text)
unfolding vuprintf
vuprintf-text ch [] text args n e = ground arith
vuprintf-text ch (d ∷ format) text args n e =
    let other : (ch == b'%') ≡ false = ground arith in rw (other, e) refl

vuprintf-Prints :
    (format : List ℕ) (args : List Arg)
    → Fits format args
    → (text : List ℕ) × (vuprintf format args ≡ some text) × Prints format args text
unfolding vuprintf put_directive next_char next_decimal next_hex next_string
vuprintf-Prints _ _ fits_end = ([], refl, print_end)
vuprintf-Prints _ _ (fits_text {ch} {format} {args} n f) =
    let (text, e, p) = vuprintf-Prints format args f in
    (ch ∷ text, vuprintf-text ch format text args n e, print_text n p)
vuprintf-Prints _ _ (fits_char {w} {format} {args} f) =
    let (text, e, p) = vuprintf-Prints format args f in
    (
      w % 256 ∷ text,
      vuprintf-directive b'c' format (w % 256 ∷ []) text (word w ∷ args) args refl e,
      print_char p,
    )
vuprintf-Prints _ _ (fits_decimal {ch} {w} {format} {args} c n f) =
    let (text, e, p) = vuprintf-Prints format args f in
    let (number, made, l) = put_decimal-Literal (w % 2 ^ 32) (omega arith) n in
    let put : next_decimal (word w ∷ args) ≡ some (number, args) = rw made refl in
    (
      number ++ text,
      vuprintf-directive ch format number text (word w ∷ args) args
          (put_directive-decimal ch (word w ∷ args) c ∙ put) e,
      print_decimal c l p,
    )
vuprintf-Prints _ _ (fits_hex {w} {format} {args} n f) =
    let (text, e, p) = vuprintf-Prints format args f in
    let (number, made, l) = put_hex-Literal (w % 2 ^ 64) (omega arith) n in
    let put : next_hex (word w ∷ args) ≡ some (number, args) = rw made refl in
    (
      number ++ text,
      vuprintf-directive b'x' format number text (word w ∷ args) args put e,
      print_hex l p,
    )
vuprintf-Prints _ _ (fits_null {format} {args} f) =
    let (text, e, p) = vuprintf-Prints format args f in
    (text, vuprintf-directive b's' format [] text (string none ∷ args) args refl e, print_null p)
vuprintf-Prints _ _ (fits_string {text = s} {format} {args} f) =
    let (text, e, p) = vuprintf-Prints format args f in
    (
      s ++ text,
      vuprintf-directive b's' format s text (string (some s) ∷ args) args refl e,
      print_string p,
    )
vuprintf-Prints _ _ (fits_plain {ch} {format} {args} c f) =
    let (text, e, p) = vuprintf-Prints format args f in
    (
      ch ∷ text,
      vuprintf-directive ch format (ch ∷ []) text args args (put_directive-Plain ch args c) e,
      print_plain c p,
    )

-- How `printf` ends.
pub data Printing (format : List ℕ) (args : List Arg) : Option (ℕ × List ℕ) → Type 0 where
  printed :
      {text : List ℕ}
      → Prints format args text
      → length text ≤ max_text
      → Printing format args (some (length text, text))
  too_long :
      {text : List ℕ} → Prints format args text → max_text < length text → Printing format args none

-- For a format with arguments of the kinds that it asks for, none of its numbers the one without a
-- negation, the text is the one that the directives stand for: %d and %u an `int` in decimal, %x a
-- `long` with 0x in base 16, %c a byte, %s a text or nothing for a null pointer. printf hands
-- exactly this text to `write` and returns its length, or writes outside its buffer if the text has
-- more than 4096 bytes.
pub printf-Printing :
    (format : List ℕ) (args : List Arg)
    → Fits format args
    → Printing format args (printf format args)
unfolding printf
printf-Printing format args f =
    let (text, e, p) = vuprintf-Prints format args f in
    elim (Bool-cases (leb (length text) max_text)) [
      | inl fits ↦ rw (printf, e, fits) (printed p (ground arith))
      | inr long ↦ rw (printf, e, long) (too_long p (ground arith))
    ]
