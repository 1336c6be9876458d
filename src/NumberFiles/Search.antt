-- ===== src/NumberFiles/Search.antt =====
-- The search of 08/reader.c in a line that 08/writer.c writes.
use Prim.Native.Nat.{max}
use homework_module.Prelude.{
  Option, ℕ, zero, suc, ◌+◌, ◌-◌, ◌^◌, ◌≤◌, ◌<◌, ◌≡◌, refl, ap, ◌∙◌, true, false, none, some, List,
  [], ◌∷◌, ◌++◌, if◌then◌else◌, length, length-append, min, Run, ok, arith, Bool-cases, inl, inr,
}
use homework_module.Prelude.Int.{ℤ, pos, negsuc, ltb_ℤ}
use homework_module.CString.Number.{print_int, is_digit}
use homework_module.CString.Number.Decimal.{
  print_int-NoDelim, print_int-cons, strtol-whole, to_int_id, digit-no_end,
}
use homework_module.CString.Token.{NoDelim, NoDelim-append, is_end, strtok, strtok-split}
use homework_module.NumberFiles.{
  line_max, put_line, is_blank, int_max, min_max_token, min_max_loop, get_min_max,
}
use homework_module.NumberFiles.Line.{
  spelled, AllRandom, IsFull, IsFull-same, line_of, fill_loop-spelled, c_str-line_of,
}

-- The least and the greatest of some numbers.
abbrev pub least : ℕ → List ℕ → ℕ
least a [] = a
least a (number ∷ numbers) = least (min a number) numbers

abbrev pub greatest : ℕ → List ℕ → ℕ
greatest a [] = a
greatest a (number ∷ numbers) = greatest (max a number) numbers

digit-no_blank : (c : ℕ) → is_digit c ≡ true → is_blank c ≡ false
digit-no_blank c t = ground arith

print_int-token :
    (number : ℕ) (rest : List ℕ)
    → strtok is_blank (print_int (pos number) ++ 32 ∷ rest) ≡ some (print_int (pos number), rest)
print_int-token number rest =
    let (c, cs, e) = print_int-cons (pos number) in
    let none_in = print_int-NoDelim is_blank (pos number) digit-no_blank refl in
    rw e (strtok-split is_blank c cs 32 rest (rw e at none_in) refl)

min_max_token-number :
    (number : ℕ) (found : ℤ × ℤ)
    → number < 2 ^ 31
    → min_max_token (print_int (pos number)) found ≡ (
      if ltb_ℤ (pos number) found.0 then pos number else found.0,
      if ltb_ℤ found.1 (pos number) then pos number else found.1,
    )
unfolding min_max_token
min_max_token-number number found small =
    rw (strtol-whole (pos number) small, to_int_id (pos number) small) refl

lower :
    (a number : ℕ) → (if ltb_ℤ (pos number) (pos a) then pos number else pos a) ≡ pos (min a number)
lower a number = elim (Bool-cases (ltb_ℤ (pos number) (pos a))) [
  | inl t ↦ rw t (ap pos (omega (arith, below t)))
  | inr f ↦ rw f (ap pos (omega (arith, above f)))
]
  where
    below : ltb_ℤ (pos number) (pos a) ≡ true → number < a
    below t = ground arith

    above : ltb_ℤ (pos number) (pos a) ≡ false → a ≤ number
    above f = ground arith

upper :
    (a number : ℕ) → (if ltb_ℤ (pos a) (pos number) then pos number else pos a) ≡ pos (max a number)
upper a number = elim (Bool-cases (ltb_ℤ (pos a) (pos number))) [
  | inl t ↦ rw t (ap pos (omega (arith, below t)))
  | inr f ↦ rw f (ap pos (omega (arith, above f)))
]
  where
    below : ltb_ℤ (pos a) (pos number) ≡ true → a < number
    below t = ground arith

    above : ltb_ℤ (pos a) (pos number) ≡ false → number ≤ a
    above f = ground arith

min_max_token-pos :
    (number low high : ℕ)
    → number < 2 ^ 31
    → min_max_token (print_int (pos number)) (pos low, pos high)
      ≡ (pos (min low number), pos (max high number))
min_max_token-pos number low high small =
    min_max_token-number number (pos low, pos high) small
    ∙ ap (λ q. (q, if ltb_ℤ (pos high) (pos number) then pos number else pos high))
        (lower low number)
    ∙ ap (λ q. (pos (min low number), q)) (upper high number)

-- The first number, against the start values.
min_max_token-first :
    (number : ℕ)
    → number < 2 ^ 31
    → min_max_token (print_int (pos number)) (int_max, negsuc 0) ≡ (pos number, pos number)
min_max_token-first number small =
    min_max_token-number number (int_max, negsuc 0) small
    ∙ ap (λ q. (q, if ltb_ℤ (negsuc 0) (pos number) then pos number else negsuc 0))
        (lower (2 ^ 31 - 1) number ∙ ap pos (omega arith))
    ∙ ap (λ q. (pos number, q)) (ground arith)

min_max_loop-more :
    (fuel : ℕ) (token rest : List ℕ) (next : List ℕ × List ℕ) (found : ℤ × ℤ)
    → strtok is_blank rest ≡ some next
    → min_max_loop (suc fuel) (some (token, rest)) found
      ≡ min_max_loop fuel (strtok is_blank rest) (min_max_token token found)
unfolding min_max_loop
min_max_loop-more fuel token rest next found e = go (strtok is_blank rest) e
  where
    go :
        (o : Option (List ℕ × List ℕ))
        → o ≡ some next
        → (elim o as (λ _. Run (ℤ × ℤ)) [
          | none ↦ ok (min_max_token token found)
          | some _ ↦ min_max_loop fuel o (min_max_token token found)
        ])
          ≡ min_max_loop fuel o (min_max_token token found)
    go none e = absurd (cc e)
    go (some x) e = refl

min_max_loop-last :
    (fuel : ℕ) (token : List ℕ) (found : ℤ × ℤ)
    → min_max_loop (suc fuel) (some (token, [])) found ≡ ok (min_max_token token found)
unfolding min_max_loop strtok
min_max_loop-last fuel token found = refl

-- From the second number on.
min_max_loop-spelled :
    (fuel number : ℕ) (numbers : List ℕ) (low high : ℕ)
    → AllRandom (number ∷ numbers)
    → length numbers < fuel
    → min_max_loop fuel (strtok is_blank (spelled (number ∷ numbers))) (pos low, pos high)
      ≡ ok (pos (least low (number ∷ numbers)), pos (greatest high (number ∷ numbers)))
min_max_loop-spelled zero number numbers low high all m = absurd (omega arith)
min_max_loop-spelled (suc fuel) number [] low high (small, all) m =
    rw
      (
        print_int-token number [],
        min_max_loop-last fuel (print_int (pos number)) (pos low, pos high),
      )
      (ap ok (min_max_token-pos number low high small))
min_max_loop-spelled (suc fuel) number (second ∷ numbers) low high (small, all) m =
    rw
      (
        print_int-token number (spelled (second ∷ numbers)),
        min_max_loop-more fuel (print_int (pos number)) (spelled (second ∷ numbers))
            (print_int (pos second), spelled numbers) (pos low, pos high)
            (print_int-token second (spelled numbers)),
        min_max_token-pos number low high small,
      )
      (min_max_loop-spelled fuel second numbers (min low number) (max high number) all
        (omega arith))

min_max_loop-first :
    (fuel number : ℕ) (numbers : List ℕ)
    → AllRandom (number ∷ numbers)
    → length numbers < fuel
    → min_max_loop fuel (strtok is_blank (spelled (number ∷ numbers))) (int_max, negsuc 0)
      ≡ ok (pos (least number numbers), pos (greatest number numbers))
min_max_loop-first zero number numbers all m = absurd (omega arith)
min_max_loop-first (suc fuel) number [] (small, all) m =
    rw
      (
        print_int-token number [],
        min_max_loop-last fuel (print_int (pos number)) (int_max, negsuc 0),
      )
      (ap ok (min_max_token-first number small))
min_max_loop-first (suc fuel) number (second ∷ numbers) (small, all) m =
    rw
      (
        print_int-token number (spelled (second ∷ numbers)),
        min_max_loop-more fuel (print_int (pos number)) (spelled (second ∷ numbers))
            (print_int (pos second), spelled numbers) (int_max, negsuc 0)
            (print_int-token second (spelled numbers)),
        min_max_token-first number small,
      )
      (min_max_loop-spelled fuel second numbers number number all (omega arith))

spelled-NoDelim : (numbers : List ℕ) → NoDelim is_end (spelled numbers)
spelled-NoDelim [] = tt
spelled-NoDelim (number ∷ numbers) =
    NoDelim-append is_end (print_int (pos number)) (32 ∷ spelled numbers)
      (print_int-NoDelim is_end (pos number) digit-no_end refl) (refl, spelled-NoDelim numbers)

length-spelled : (numbers : List ℕ) → length numbers ≤ length (spelled numbers)
length-spelled [] = omega arith
length-spelled (number ∷ numbers) = omega (
  arith,
  length-append {0} (print_int (pos number)) (32 ∷ spelled numbers),
  length-spelled numbers,
)

-- The written line, where the numbers that are written take less than the 1024 bytes and the next one
-- does not fit.
pub put_line-spelled :
    (numbers rest : List ℕ)
    → AllRandom numbers
    → length (spelled numbers) < line_max
    → IsFull (length (spelled numbers)) rest
    → put_line (numbers ++ rest) ≡ ok (line_of (spelled numbers))
unfolding put_line
put_line-spelled numbers rest all room full =
    rw
      (fill_loop-spelled numbers rest [] all (omega arith) (
        IsFull-same (length (spelled numbers)) (0 + length (spelled numbers)) rest (omega arith)
          full))
      refl

pub get_min_max-line_of :
    (stack : List ℕ) (number : ℕ) (numbers : List ℕ)
    → length stack ≡ line_max
    → AllRandom (number ∷ numbers)
    → length (spelled (number ∷ numbers)) < line_max
    → get_min_max stack (line_of (spelled (number ∷ numbers)))
      ≡ ok (pos (least number numbers), pos (greatest number numbers))
unfolding get_min_max
get_min_max-line_of stack number numbers len all room =
    let text = spelled (number ∷ numbers) in
    rw (c_str-line_of stack text len room (spelled-NoDelim (number ∷ numbers))) (
      min_max_loop-first (suc (length text)) number numbers all
        (omega (arith, length-spelled (number ∷ numbers))))
