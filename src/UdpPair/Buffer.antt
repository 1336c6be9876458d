-- ===== src/UdpPair/Buffer.antt =====
-- Texts in the buffers of cross1/.
use homework_module.Prelude.{
  ℕ, zero, suc, ◌<◌, ◌≡◌, refl, ap, List, [], ◌∷◌, ◌++◌, length, take, arith,
}
use homework_module.CString.{c_str}
use homework_module.CString.Token.{NoDelim, is_end}

-- A cut behind the zero that ends a text leaves the text.
pub take-text :
    (n : ℕ) (text rest : List ℕ)
    → length text < n
    → (rest' : List ℕ) × (take n (text ++ 0 ∷ rest) ≡ text ++ 0 ∷ rest')
take-text zero text rest h = absurd (omega arith)
take-text (suc n) [] rest h = (take n rest, refl)
take-text (suc n) (c ∷ text) rest h =
    let (rest', e) = take-text n text rest (omega arith) in (rest', ap (λ q. c ∷ q) e)

pub c_str-text : (text rest : List ℕ) → NoDelim is_end text → c_str (text ++ 0 ∷ rest) ≡ text
unfolding c_str
c_str-text [] rest none_in = refl
c_str-text (c ∷ text) rest (f, none_in) = rw f (ap (λ q. c ∷ q) (c_str-text text rest none_in))
