-- ===== src/CString/Number/Size.antt =====
-- What `%zu` prints, and its reading by `strtol`.
use mathlib.Core.List.{append-nil}
use homework_module.Prelude.{
  ℕ, ◌^◌, ◌<◌, ◌≡◌, refl, ap, sym, ◌∙◌, Bool, true, false, List, [], ◌∷◌, arith,
}
use homework_module.Prelude.Int.{pos}
use homework_module.CString.Token.{NoDelim}
use homework_module.CString.Number.{is_digit, digits, read_digits, to_long, strtol}
use homework_module.CString.Number.Decimal.{
  read_digits-digits, read_digits-end, digits-AllDigits, digits-Headed, strtol-digit,
  AllDigits-NoDelim,
}

-- A `size_t` has at most twenty digits.
abbrev pub print_size : ℕ → List ℕ
print_size n = digits 20 n

to_long-below : (n : ℕ) → n < 2 ^ 63 → to_long false n ≡ pos n
unfolding to_long
to_long-below n h = ground arith

-- A size that a `long` holds is read back whole.
pub strtol-print_size : (n : ℕ) → n < 2 ^ 63 → strtol (print_size n) ≡ (pos n, [])
strtol-print_size n h =
    let (c, cs, e, t) = digits-Headed 19 n in
    let read : read_digits 0 (digits 20 n) ≡ (n, []) =
      ap (read_digits 0) (sym (append-nil (digits 20 n)))
      ∙ read_digits-digits 20 n [] (omega arith)
      ∙ read_digits-end n [] refl in
    rw e (strtol-digit c n cs [] t (rw e at read) ∙ ap (λ q. (q, [])) (to_long-below n h))

pub print_size-NoDelim :
    (d : ℕ → Bool) (n : ℕ) → ((c : ℕ) → is_digit c ≡ true → d c ≡ false) → NoDelim d (print_size n)
print_size-NoDelim d n apart = AllDigits-NoDelim d (digits 20 n) apart (digits-AllDigits 20 n)

pub print_size-cons : (n : ℕ) → (c : ℕ) × (cs : List ℕ) × (print_size n ≡ c ∷ cs)
print_size-cons n = let (c, cs, e, t) = digits-Headed 19 n in (c, cs, e)
