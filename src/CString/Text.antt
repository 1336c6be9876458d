-- ===== src/CString/Text.antt =====
-- The text at the start of a buffer.
use homework_module.Prelude.{ℕ, ◌≡◌, refl, ap, List, [], ◌∷◌, ◌++◌}
use homework_module.CString.{c_str}
use homework_module.CString.Token.{NoDelim, is_end}

pub c_str-whole : (text : List ℕ) → NoDelim is_end text → c_str text ≡ text
unfolding c_str
c_str-whole [] none_in = refl
c_str-whole (c ∷ text) (f, none_in) = rw f (ap (λ q. c ∷ q) (c_str-whole text none_in))

pub c_str-before : (text rest : List ℕ) → NoDelim is_end text → c_str (text ++ 0 ∷ rest) ≡ text
unfolding c_str
c_str-before [] rest none_in = refl
c_str-before (c ∷ text) rest (f, none_in) = rw f (ap (λ q. c ∷ q) (c_str-before text rest none_in))
