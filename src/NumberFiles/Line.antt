-- ===== src/NumberFiles/Line.antt =====
-- A line of numbers that 08/writer.c writes, and what 08/reader.c finds in it.
use mathlib.Core.List.{append_assoc, append-nil}
use homework_module.Prelude.{
  ℕ, suc, ◌+◌, ◌-◌, ◌^◌, ◌<◌, ◌≡◌, refl, sym, ap, ◌∙◌, false, List, [], ◌∷◌, ◌++◌, ◌==◌, ltb,
  length, length-append, take, take-whole, set, replicate, ok, arith, lt→ltb, Bool-cases, inl, inr,
}
use homework_module.Prelude.Int.{pos}
use homework_module.CString.{c_str}
use homework_module.CString.Copy.{c_str-strncpy}
use homework_module.CString.Number.{print_int}
use homework_module.CString.Number.Decimal.{length-print_int}
use homework_module.CString.Token.{NoDelim, NoDelim-append, is_end}
use homework_module.NumberFiles.{line_max, number_str, fill_loop, strncpy_s}
use homework_module.CString.Text.{c_str-whole}

-- The text of a line: each number with a blank behind it.
abbrev pub spelled : List ℕ → List ℕ
spelled [] = []
spelled (number ∷ numbers) = print_int (pos number) ++ 32 ∷ spelled numbers

-- What `rand` returns.
abbrev pub AllRandom : List ℕ → Type 0
AllRandom [] = Unit
AllRandom (number ∷ numbers) = (number < 2 ^ 31) × AllRandom numbers

-- The next number, if there is one, goes beyond the buffer behind `used` bytes.
abbrev pub IsFull : (used : ℕ) → (rest : List ℕ) → Type 0
IsFull used [] = Unit
IsFull used (number ∷ rest) = line_max < used + length (number_str number)

pub number_str-print_int :
    (number : ℕ) → number < 2 ^ 31 → number_str number ≡ print_int (pos number) ++ 32 ∷ []
unfolding number_str
number_str-print_int number small = rw (lt→ltb number (2 ^ 31) small) (
    take-whole 12 (print_int (pos number) ++ 32 ∷ []) (
      omega (
        arith,
        length-append {0} (print_int (pos number)) (32 ∷ []),
        length-print_int (pos number),
      )))

pub fill_loop-more :
    (number : ℕ) (numbers text : List ℕ)
    → length text + length (number_str number) < line_max
    → fill_loop (number ∷ numbers) text ≡ fill_loop numbers (text ++ number_str number)
unfolding fill_loop
fill_loop-more number numbers text room =
    let within : ltb line_max (length text + length (number_str number)) ≡ false = ground arith in
    let apart : (length text + length (number_str number) == line_max) ≡ false = ground arith in
    rw (within, apart) refl

fill_loop-full : (rest text : List ℕ) → IsFull (length text) rest → fill_loop rest text ≡ ok text
unfolding fill_loop
fill_loop-full [] text full = refl
fill_loop-full (number ∷ rest) text full =
    rw (lt→ltb line_max (length text + length (number_str number)) full) refl

pub IsFull-same : (a b : ℕ) (rest : List ℕ) → a ≡ b → IsFull a rest → IsFull b rest
IsFull-same a b [] e full = tt
IsFull-same a b (number ∷ rest) e full = omega arith

pub fill_loop-spelled :
    (numbers rest text : List ℕ)
    → AllRandom numbers
    → length text + length (spelled numbers) < line_max
    → IsFull (length text + length (spelled numbers)) rest
    → fill_loop (numbers ++ rest) text ≡ ok (text ++ spelled numbers)
fill_loop-spelled [] rest text all room full =
    rw (append-nil text) (
      fill_loop-full rest text
        (IsFull-same (length text + 0) (length text) rest (omega arith) full))
fill_loop-spelled (number ∷ numbers) rest text (small, all) room full =
    let p = print_int (pos number) in
    let e = number_str-print_int number small in
    let l = length-append {0} p (32 ∷ []) in
    let whole = length-append {0} p (32 ∷ spelled numbers) in
    let grown = length-append {0} text (number_str number) in
    fill_loop-more number (numbers ++ rest) text (omega (arith, l, whole, ap length e))
    ∙ fill_loop-spelled numbers rest (text ++ number_str number) all
        (omega (arith, l, whole, grown, ap length e))
        (IsFull-same (length text + length (spelled (number ∷ numbers)))
          (length (text ++ number_str number) + length (spelled numbers)) rest
          (omega (arith, l, whole, grown, ap length e)) full)
    ∙ ap ok (
        ap (λ q. (text ++ q) ++ spelled numbers) e
        ∙ append_assoc text (p ++ 32 ∷ []) (spelled numbers)
        ∙ ap (λ q. text ++ q) (append_assoc p (32 ∷ []) (spelled numbers)))

-- A text with zeros behind it, up to the last byte, which is set to the newline.
abbrev pub line_of : (text : List ℕ) → List ℕ
line_of text = set (text ++ replicate (line_max - length text) 0) (line_max - 1) 10

set-append : (xs ys : List ℕ) (i v : ℕ) → set (xs ++ ys) (length xs + i) v ≡ xs ++ set ys i v
set-append [] ys i v = ap (λ q. set ys q v) (omega arith)
set-append (x ∷ xs) ys i v =
    let e : suc (length xs) + i ≡ suc (length xs + i) = omega arith in
    rw e (ap (λ q. x ∷ q) (set-append xs ys i v))

c_str-append : (text rest : List ℕ) → NoDelim is_end text → c_str (text ++ 0 ∷ rest) ≡ text
unfolding c_str
c_str-append [] rest none_in = refl
c_str-append (c ∷ text) rest (f, none_in) = rw f (ap (λ q. c ∷ q) (c_str-append text rest none_in))

-- The zeros behind a text of `used` bytes, with the newline at the end.
line_of-short :
    (text : List ℕ) (m : ℕ)
    → length text + suc (suc m) ≡ line_max
    → line_of text ≡ text ++ 0 ∷ set (replicate (suc m) 0) m 10
line_of-short text m e =
    let zeros : line_max - length text ≡ suc (suc m) = omega arith in
    let place : line_max - 1 ≡ length text + suc m = omega arith in
    rw zeros (
      ap (λ q. set (text ++ replicate (suc (suc m)) 0) q 10) place
      ∙ set-append text (replicate (suc (suc m)) 0) (suc m) 10)

line_of-long : (text : List ℕ) → length text + 1 ≡ line_max → line_of text ≡ text ++ 10 ∷ []
line_of-long text e =
    let zeros : line_max - length text ≡ 1 = omega arith in
    let place : line_max - 1 ≡ length text + 0 = omega arith in
    rw zeros (ap (λ q. set (text ++ 0 ∷ []) q 10) place ∙ set-append text (0 ∷ []) 0 10)

take-exact : (text rest : List ℕ) → take (length text) (text ++ rest) ≡ text
take-exact [] rest = refl
take-exact (c ∷ text) rest = ap (λ q. c ∷ q) (take-exact text rest)

-- The reader's copy of a line is the text.
pub c_str-line_of :
    (stack text : List ℕ)
    → length stack ≡ line_max
    → length text < line_max
    → NoDelim is_end text
    → c_str (strncpy_s stack (line_of text) line_max) ≡ text
unfolding strncpy_s
c_str-line_of stack text len short none_in =
    c_str-strncpy stack (line_of text) 1023 len ∙ elim (Bool-cases (length text == 1023)) [
      | inl e ↦
          let at : length text ≡ 1023 = ground arith in
          ap (λ q. take 1023 (c_str q)) (line_of-long text (omega arith))
          ∙ ap (take 1023) (
              c_str-whole (text ++ 10 ∷ [])
                (NoDelim-append is_end text (10 ∷ []) none_in (refl, tt)))
          ∙ ap (λ q. take q (text ++ 10 ∷ [])) (sym at)
          ∙ take-exact text (10 ∷ [])
      | inr f ↦
          let below : length text < 1023 = ground arith in
          ap (λ q. take 1023 (c_str q)) (line_of-short text (1022 - length text) (omega arith))
          ∙ ap (take 1023) (
              c_str-append text
                (set (replicate (suc (1022 - length text)) 0) (1022 - length text) 10) none_in)
          ∙ take-whole 1023 text (omega arith)
    ]
