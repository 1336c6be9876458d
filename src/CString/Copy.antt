-- ===== src/CString/Copy.antt =====
-- What `strncpy` leaves in a buffer.
use homework_module.Prelude.{
  ℕ, zero, suc, ◌≡◌, refl, ap, List, [], ◌∷◌, arith, ◌==◌, if◌then◌else◌, length, take, set,
  Bool-cases, inl, inr,
}
use homework_module.CString.{c_str, strncpy}

pub length-strncpy : (dest src : List ℕ) (n : ℕ) → length (strncpy dest src n) ≡ length dest
unfolding strncpy
length-strncpy dest src zero = refl
length-strncpy [] src (suc n) = refl
length-strncpy (d ∷ dest) [] (suc n) = ap suc (length-strncpy dest [] n)
length-strncpy (d ∷ dest) (c ∷ src) (suc n) =
    ap suc (length-strncpy dest (if c == 0 then [] else src) n)

-- A copy of `n + 1` bytes whose last byte is then set to zero holds the first `n` bytes of the text.
pub c_str-strncpy :
    (dest src : List ℕ) (n : ℕ)
    → length dest ≡ suc n
    → c_str (set (strncpy dest src (suc n)) n 0) ≡ take n (c_str src)
unfolding strncpy c_str
c_str-strncpy [] src n len = absurd (omega arith)
c_str-strncpy (d ∷ dest) [] zero len = refl
c_str-strncpy (d ∷ dest) (c ∷ src) zero len = refl
c_str-strncpy (d ∷ dest) [] (suc n) len = refl
c_str-strncpy (d ∷ dest) (c ∷ src) (suc n) len = elim (Bool-cases (c == 0)) [
  | inl end ↦ rw end
  | inr more ↦ rw (more, c_str-strncpy dest src n (omega arith))
]
