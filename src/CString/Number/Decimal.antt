-- ===== src/CString/Number/Decimal.antt =====
-- Reading back what `%d` prints.
use native.Mathlib.Numerals.{unary_clauses}
use homework_module.Prelude.{
  ℕ, zero, suc, ◌+◌, ◌*◌, ◌/◌, ◌%◌, ◌^◌, ◌≤◌, ◌<◌, ◌≡◌, refl, ap, sym, ◌∙◌, Bool, true, false, List,
  [], ◌∷◌, ◌++◌, ltb, ◌==◌, arith, length, length-append, Bool-cases, inl, inr, ltb→lt,
}
use homework_module.Prelude.Int.{ℤ, pos, negsuc}
use homework_module.CString.Token.{NoDelim, is_end}
use homework_module.CString.Number.{
  is_digit, is_space, skip_space, read_digits, starts_digit, to_long, signed, after_space, strtol,
  digits, print_int, to_int,
}

append_assoc : (xs ys zs : List ℕ) → (xs ++ ys) ++ zs ≡ xs ++ (ys ++ zs)
append_assoc [] ys zs = refl
append_assoc (x ∷ xs) ys zs = ap (λ q. x ∷ q) (append_assoc xs ys zs)

digits-small : (fuel n : ℕ) → ltb n 10 ≡ true → digits (suc fuel) n ≡ (b'0' + n) ∷ []
unfolding digits
digits-small fuel n t = rw (t, digits) refl

digits-large :
    (fuel n : ℕ)
    → ltb n 10 ≡ false
    → digits (suc fuel) n ≡ digits fuel (n / 10) ++ (b'0' + n % 10) ∷ []
unfolding digits
digits-large fuel n f = rw (f, digits) refl

is_digit-digit : (d : ℕ) → d < 10 → is_digit (b'0' + d) ≡ true
is_digit-digit d h = ground arith

read_digits-digit :
    (acc d total : ℕ) (rest : List ℕ)
    → d < 10
    → acc * 10 + d ≡ total
    → read_digits acc ((b'0' + d) ∷ rest) ≡ read_digits total rest
unfolding read_digits
read_digits-digit acc d total rest h e =
    rw (is_digit-digit d h) (ap (λ q. read_digits q rest) (omega arith))

pow_suc-div : (fuel n : ℕ) → n < 10 ^ suc fuel → n / 10 < 10 ^ fuel
pow_suc-div fuel n h = let h' : n < 10 ^ fuel * 10 = simp unary_clauses at h in omega arith

-- The digits of a number that has at most `fuel` of them are read back.
pub read_digits-digits :
    (fuel n : ℕ) (rest : List ℕ)
    → n < 10 ^ fuel
    → read_digits 0 (digits fuel n ++ rest) ≡ read_digits n rest
unfolding digits
read_digits-digits zero n rest h = ap (λ q. read_digits q rest) (omega arith)
read_digits-digits (suc fuel) n rest h = elim (Bool-cases (ltb n 10)) [
  | inl t ↦ rw (digits-small fuel n t) (read_digits-digit 0 n n rest (ltb→lt n 10 t) (omega arith))
  | inr f ↦
      rw
        (
          digits-large fuel n f,
          append_assoc (digits fuel (n / 10)) ((b'0' + n % 10) ∷ []) rest,
          read_digits-digits fuel (n / 10) ((b'0' + n % 10) ∷ rest) (pow_suc-div fuel n h),
        )
        (read_digits-digit (n / 10) (n % 10) n rest (omega arith) (omega arith))
]

-- The digits are one or more, all from 0 to 9.
abbrev pub AllDigits : List ℕ → Type 0
AllDigits [] = Unit
AllDigits (c ∷ cs) = (is_digit c ≡ true) × AllDigits cs

AllDigits-append : (xs ys : List ℕ) → AllDigits xs → AllDigits ys → AllDigits (xs ++ ys)
AllDigits-append [] ys all_x all_y = all_y
AllDigits-append (x ∷ xs) ys (first, all_x) all_y = (first, AllDigits-append xs ys all_x all_y)

pub digits-AllDigits : (fuel n : ℕ) → AllDigits (digits fuel n)
unfolding digits
digits-AllDigits zero n = tt
digits-AllDigits (suc fuel) n = elim (Bool-cases (ltb n 10)) [
  | inl t ↦ rw (digits-small fuel n t) (is_digit-digit n (ltb→lt n 10 t), tt)
  | inr f ↦ rw (digits-large fuel n f) (
      AllDigits-append (digits fuel (n / 10)) ((b'0' + n % 10) ∷ [])
        (digits-AllDigits fuel (n / 10)) (is_digit-digit (n % 10) (omega arith), tt))
]

abbrev pub IsInt : ℤ → Type 0
IsInt (pos n) = n < 2 ^ 31
IsInt (negsuc n) = n < 2 ^ 31

abbrev pub Headed : List ℕ → Type 0
Headed xs = (c : ℕ) × (cs : List ℕ) × (xs ≡ c ∷ cs) × (is_digit c ≡ true)

append-Headed : (xs : List ℕ) (y : ℕ) → AllDigits xs → is_digit y ≡ true → Headed (xs ++ y ∷ [])
append-Headed [] y all t = (y, [], refl, t)
append-Headed (x ∷ xs) y (first, all) t = (x, xs ++ y ∷ [], refl, first)

pub digits-Headed : (fuel n : ℕ) → Headed (digits (suc fuel) n)
digits-Headed fuel n = elim (Bool-cases (ltb n 10)) [
  | inl t ↦ rw (digits-small fuel n t) (b'0' + n, [], refl, is_digit-digit n (ltb→lt n 10 t))
  | inr f ↦ rw (digits-large fuel n f) (
      append-Headed (digits fuel (n / 10)) (b'0' + n % 10) (digits-AllDigits fuel (n / 10))
        (is_digit-digit (n % 10) (omega arith)))
]

pub read_digits-end :
    (n : ℕ) (rest : List ℕ) → starts_digit rest ≡ false → read_digits n rest ≡ (n, rest)
unfolding read_digits
read_digits-end n [] h = refl
read_digits-end n (c ∷ cs) h = rw h refl

digit-plain :
    (c : ℕ)
    → is_digit c ≡ true
    → (is_space c ≡ false) × ((c == b'-') ≡ false) × ((c == b'+') ≡ false)
digit-plain c t = (ground arith, ground arith, ground arith)

pub strtol-digit :
    (c n : ℕ) (cs rest : List ℕ)
    → is_digit c ≡ true
    → read_digits 0 (c ∷ cs) ≡ (n, rest)
    → strtol (c ∷ cs) ≡ (to_long false n, rest)
unfolding strtol skip_space after_space signed read_digits
strtol-digit c n cs rest t read =
    let (no_space, no_minus, no_plus) = digit-plain c t in
    rw (no_space, no_minus, no_plus, t) (ap (λ q. (to_long false q.0, q.1)) (rw t at read))

strtol-minus :
    (c n : ℕ) (cs rest : List ℕ)
    → is_digit c ≡ true
    → read_digits 0 (c ∷ cs) ≡ (n, rest)
    → strtol (b'-' ∷ c ∷ cs) ≡ (to_long true n, rest)
unfolding strtol skip_space after_space signed read_digits
strtol-minus c n cs rest t read = rw t (ap (λ q. (to_long true q.0, q.1)) (rw t at read))

print_int-pos : (n : ℕ) → print_int (pos n) ≡ digits 10 n
unfolding print_int
print_int-pos n = refl

print_int-negsuc : (n : ℕ) → print_int (negsuc n) ≡ b'-' ∷ digits 10 (suc n)
unfolding print_int
print_int-negsuc n = refl

to_long-pos : (n : ℕ) → n < 2 ^ 31 → to_long false n ≡ pos n
unfolding to_long
to_long-pos n h = ground arith

to_long-negsuc : (n : ℕ) → n < 2 ^ 31 → to_long true (suc n) ≡ negsuc n
unfolding to_long
to_long-negsuc n h = ground arith

read_digits-int :
    (n : ℕ) (rest : List ℕ)
    → n ≤ 2 ^ 31
    → starts_digit rest ≡ false
    → read_digits 0 (digits 10 n ++ rest) ≡ (n, rest)
read_digits-int n rest h ends =
    read_digits-digits 10 n rest (omega arith) ∙ read_digits-end n rest ends

-- What `%d` prints of an `int`, in front of a text that begins with no digit, `strtol` reads back
-- whole.
pub strtol-print_int :
    (z : ℤ) (rest : List ℕ)
    → IsInt z
    → starts_digit rest ≡ false
    → strtol (print_int z ++ rest) ≡ (z, rest)
strtol-print_int (pos n) rest fits ends =
    let (c, cs, e, t) = digits-Headed 9 n in
    rw (print_int-pos n, e)
      (strtol-digit c n (cs ++ rest) rest t (rw e at (read_digits-int n rest (omega arith) ends))
        ∙ ap (λ q. (q, rest)) (to_long-pos n fits))
strtol-print_int (negsuc n) rest fits ends =
    let (c, cs, e, t) = digits-Headed 9 (suc n) in
    rw (print_int-negsuc n, e)
      (strtol-minus c (suc n) (cs ++ rest) rest t
          (rw e at (read_digits-int (suc n) rest (omega arith) ends))
        ∙ ap (λ q. (q, rest)) (to_long-negsuc n fits))

pub to_int_id : (z : ℤ) → IsInt z → to_int z ≡ z
unfolding to_int
to_int_id (pos n) fits = ground arith
to_int_id (negsuc n) fits = ground arith

pub length-digits : (fuel n : ℕ) → length (digits fuel n) ≤ fuel
unfolding digits
length-digits zero n = omega arith
length-digits (suc fuel) n = elim (Bool-cases (ltb n 10)) [
  | inl t ↦ rw (digits-small fuel n t) (omega arith)
  | inr f ↦ rw (digits-large fuel n f) (
      omega (
        arith,
        length-append (digits fuel (n / 10)) ((b'0' + n % 10) ∷ []),
        length-digits fuel (n / 10),
      ))
]

pub length-print_int : (z : ℤ) → length (print_int z) ≤ 11
length-print_int (pos n) = rw (print_int-pos n) (omega (arith, length-digits 10 n))
length-print_int (negsuc n) = rw (print_int-negsuc n) (omega (arith, length-digits 10 (suc n)))

pub AllDigits-NoDelim :
    (d : ℕ → Bool) (cs : List ℕ)
    → ((c : ℕ) → is_digit c ≡ true → d c ≡ false)
    → AllDigits cs
    → NoDelim d cs
AllDigits-NoDelim d [] apart all = tt
AllDigits-NoDelim d (c ∷ cs) apart (t, all) = (apart c t, AllDigits-NoDelim d cs apart all)

-- A delimiter that is no digit and no minus is not in a printed number.
pub print_int-NoDelim :
    (d : ℕ → Bool) (z : ℤ)
    → ((c : ℕ) → is_digit c ≡ true → d c ≡ false)
    → d b'-' ≡ false
    → NoDelim d (print_int z)
print_int-NoDelim d (pos n) apart minus =
    rw (print_int-pos n) (AllDigits-NoDelim d (digits 10 n) apart (digits-AllDigits 10 n))
print_int-NoDelim d (negsuc n) apart minus =
    rw (print_int-negsuc n)
      (minus, AllDigits-NoDelim d (digits 10 (suc n)) apart (digits-AllDigits 10 (suc n)))

pub print_int-cons : (z : ℤ) → (c : ℕ) × (cs : List ℕ) × (print_int z ≡ c ∷ cs)
print_int-cons (pos n) = let (c, cs, e, t) = digits-Headed 9 n in rw (print_int-pos n) (c, cs, e)
print_int-cons (negsuc n) = (b'-', digits 10 (suc n), print_int-negsuc n)

append_nil : (cs : List ℕ) → cs ++ [] ≡ cs
append_nil [] = refl
append_nil (c ∷ cs) = ap (λ q. c ∷ q) (append_nil cs)

pub strtol-whole : (z : ℤ) → IsInt z → strtol (print_int z) ≡ (z, [])
strtol-whole z fits = ap strtol (sym (append_nil (print_int z))) ∙ strtol-print_int z [] fits refl

pub digit-no_end : (c : ℕ) → is_digit c ≡ true → is_end c ≡ false
digit-no_end c t = ground arith
