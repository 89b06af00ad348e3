-- ===== src/UserLib/Examples.antt =====
-- The theorems on the user library (Assignment2/user/lib.c) at concrete calls.
use cs330_assignments.Base.{
  ℕ, ◌-◌, ◌^◌, ◌≡◌, refl, inl, arith, List, [], ◌∷◌, minus_one, s32, some, ◌==◌, if◌then◌else◌,
}
use cs330_assignments.Kernel.Dispatch.{dispatch, lseek_call}
use cs330_assignments.UserLib.Wrappers.{lseek}
use cs330_assignments.UserLib.Meaning.{for_lseek, dispatch-Meant}
use cs330_assignments.UserLib.Printf.{
  Arg, word, printf, vuprintf, put_directive, next_decimal, put_decimal, digit_loop,
}
use cs330_assignments.UserLib.Printf.Literals.{ReadsAs, put_decimal-ReadsAs}
use cs330_assignments.UserLib.Printf.Prints.{
  fits_text, fits_decimal, fits_end, Printing, printf-Printing,
}
use cs330_assignments.UserLib.Compare.{ustrcmp, ustrcmp_loop}
use cs330_assignments.UserLib.Compare.Equality.{text_char, text_end, Compared, ustrcmp-Compared}

abbrev registers : ℕ → ℕ
registers i = 7

-- lseek(3, -5, SEEK_END)
dispatch-Meant_example :
    dispatch (lseek registers 3 (2 ^ 64 - 5) 2).number (lseek registers 3 (2 ^ 64 - 5) 2).param
    ≡ lseek_call 3 (2 ^ 64 - 5) 2
dispatch-Meant_example =
    dispatch-Meant registers (lseek registers 3 (2 ^ 64 - 5) 2) (lseek_call 3 (2 ^ 64 - 5) 2)
      (for_lseek 3 (2 ^ 64 - 5) 2 (omega arith) (omega arith))

-- The text of -205.
put_decimal_205 : put_decimal (2 ^ 32 - 205) ≡ some (b'-' ∷ b'2' ∷ b'0' ∷ b'5' ∷ [])
unfolding put_decimal digit_loop
put_decimal_205 = refl

put_decimal-ReadsAs_example : ReadsAs (s32 (2 ^ 32 - 205)) (put_decimal (2 ^ 32 - 205))
put_decimal-ReadsAs_example = put_decimal-ReadsAs (2 ^ 32 - 205) (omega arith) (omega arith)

-- printf("p%d", 12)
abbrev format : List ℕ
format = b'p' ∷ b'%' ∷ b'd' ∷ []

abbrev values : List Arg
values = word 12 ∷ []

printf_12 : printf format values ≡ some (3, b'p' ∷ b'1' ∷ b'2' ∷ [])
unfolding printf vuprintf put_directive next_decimal put_decimal digit_loop
printf_12 = refl

printf-Printing_example : Printing format values (printf format values)
printf-Printing_example =
    printf-Printing format values
      (fits_text (omega arith) (fits_decimal (inl refl) (omega arith) fits_end))

-- The texts "p" and "p1".
abbrev short : ℕ → ℕ
short i = if i == 0 then b'p' else 0

abbrev long : ℕ → ℕ
long i = if i == 0 then b'p' else if i == 1 then b'1' else 0

ustrcmp_differ : ustrcmp 2 short long ≡ some minus_one
unfolding ustrcmp ustrcmp_loop
ustrcmp_differ = refl

ustrcmp-Compared_example : Compared (b'p' ∷ []) (b'p' ∷ b'1' ∷ []) (ustrcmp 2 short long)
ustrcmp-Compared_example =
    ustrcmp-Compared short long (b'p' ∷ []) (b'p' ∷ b'1' ∷ []) 2
      (text_char (omega arith) (text_end refl))
      (text_char (omega arith) (text_char (omega arith) (text_end refl))) (omega arith)
