-- ===== src/CString/Compare.antt =====
-- `strcmp` is a strict order on texts.
use homework_module.Prelude.{ℕ, ◌≡◌, true, false, List, [], ◌∷◌, arith}
use homework_module.CString.{strcmp}
use homework_module.Prelude.Int.{is_negative}

pub strcmp_irrefl : (xs : List ℕ) → is_negative (strcmp xs xs) ≡ false
unfolding strcmp
strcmp_irrefl [] = ground arith
strcmp_irrefl (a ∷ xs) = ground (arith, strcmp_irrefl xs)

pub strcmp_trans :
    (xs ys zs : List ℕ)
    → is_negative (strcmp xs ys) ≡ true
    → is_negative (strcmp ys zs) ≡ true
    → is_negative (strcmp xs zs) ≡ true
unfolding strcmp
strcmp_trans [] [] [] p q = ground arith
strcmp_trans [] [] (c ∷ zs) p q = ground arith
strcmp_trans [] (b ∷ ys) [] p q = ground arith
strcmp_trans [] (b ∷ ys) (c ∷ zs) p q = ground arith
strcmp_trans (a ∷ xs) [] zs p q = ground arith
strcmp_trans (a ∷ xs) (b ∷ ys) [] p q = ground arith
strcmp_trans (a ∷ xs) (b ∷ ys) (c ∷ zs) p q = ground (arith, strcmp_trans xs ys zs)
