-- ===== src/NumberFiles/Overflow.antt =====
-- A line of 08/writer.c that fills the buffer to its last byte.
use homework_module.Prelude.{
  ℕ, ◌+◌, ◌<◌, ◌≡◌, refl, ap, ◌∙◌, true, false, List, [], ◌∷◌, ◌++◌, ◌==◌, ltb, length,
  length-append, fault, arith,
}
use homework_module.Prelude.Int.{pos}
use homework_module.CString.Number.{print_int}
use homework_module.NumberFiles.{line_max, number_str, fill_loop, put_line}
use homework_module.NumberFiles.Line.{spelled, AllRandom, number_str-print_int, fill_loop-more}

fill_loop-exact :
    (number : ℕ) (numbers text : List ℕ)
    → length text + length (number_str number) ≡ line_max
    → fill_loop (number ∷ numbers) text ≡ fault
unfolding fill_loop
fill_loop-exact number numbers text exact =
    let within : ltb line_max (length text + length (number_str number)) ≡ false = ground arith in
    let same : (length text + length (number_str number) == line_max) ≡ true = ground arith in
    rw (within, same) refl

length-spelled_pos : (number : ℕ) (numbers : List ℕ) → 0 < length (spelled (number ∷ numbers))
length-spelled_pos number numbers =
    omega (arith, length-append {0} (print_int (pos number)) (32 ∷ spelled numbers))

fill_loop-fault :
    (number : ℕ) (numbers rest text : List ℕ)
    → AllRandom (number ∷ numbers)
    → length text + length (spelled (number ∷ numbers)) ≡ line_max
    → fill_loop ((number ∷ numbers) ++ rest) text ≡ fault
fill_loop-fault number [] rest text (small, all) exact =
    fill_loop-exact number rest text (omega (arith, ap length (number_str-print_int number small)))
fill_loop-fault number (next ∷ numbers) rest text (small, all) exact =
    let p = print_int (pos number) in
    let e = number_str-print_int number small in
    let l = length-append {0} p (32 ∷ []) in
    let whole = length-append {0} p (32 ∷ spelled (next ∷ numbers)) in
    let grown = length-append {0} text (number_str number) in
    fill_loop-more number ((next ∷ numbers) ++ rest) text
      (omega (arith, l, whole, ap length e, length-spelled_pos next numbers))
    ∙ fill_loop-fault next numbers rest (text ++ number_str number) all
        (omega (arith, l, whole, grown, ap length e))

-- Where the texts of the first numbers, all below 2 ^ 31, come to exactly the 1024 bytes of the buffer,
-- `strncat` puts their final zero behind it, whatever numbers follow.
pub put_line-fault :
    (number : ℕ) (numbers rest : List ℕ)
    → AllRandom (number ∷ numbers)
    → length (spelled (number ∷ numbers)) ≡ line_max
    → put_line ((number ∷ numbers) ++ rest) ≡ fault
unfolding put_line
put_line-fault number numbers rest all exact =
    rw (fill_loop-fault number numbers rest [] all (omega arith)) refl
