-- ===== src/SharedMemory/MinMax.antt =====
-- What `get_min_max` of 10/main.c finds.
use mathlib.Core.Path.{subst}
use homework_module.Prelude.{
  take-whole, suc, ◌≡◌, ◌⊎◌, inl, inr, refl, ap, sym, true, false, List, [], ◌∷◌, ◌++◌, length,
  Bool-cases, arith,
}
use homework_module.Prelude.Int.{ℤ, pos, ltb_ℤ, ◌≤ℤ◌}
use homework_module.SharedMemory.{min_max_loop, min_max_of, get_min_max}

-- Every number of the list is at least `bound`.
abbrev pub AllAbove : ℤ → List ℤ → Type 0
AllAbove bound [] = Unit
AllAbove bound (num ∷ nums) = (bound ≤ℤ num) × AllAbove bound nums

abbrev pub IsIn : ℤ → List ℤ → Type 0
IsIn z [] = ⊥
IsIn z (num ∷ nums) = (z ≡ num) ⊎ IsIn z nums

ltb_ℤ-below : (a b : ℤ) → ltb_ℤ a b ≡ true → a ≤ℤ b
ltb_ℤ-below a b h = ground arith

ltb_ℤ-above : (a b : ℤ) → ltb_ℤ a b ≡ false → b ≤ℤ a
ltb_ℤ-above a b h = ground arith

≤ℤ_trans : (a b c : ℤ) → a ≤ℤ b → b ≤ℤ c → a ≤ℤ c
≤ℤ_trans a b c h k = omega arith

-- `least` bounds the list and `from`, and is one of them.
abbrev pub IsLeast : (least from : ℤ) → List ℤ → Type 0
IsLeast least from nums =
    (least ≤ℤ from) × (AllAbove least nums × ((least ≡ from) ⊎ IsIn least nums))

min_max_loop-below :
    (num : ℤ) (nums : List ℤ) (min max : ℤ)
    → ltb_ℤ num min ≡ true
    → min_max_loop (num ∷ nums) min max ≡ min_max_loop nums num max
unfolding min_max_loop
min_max_loop-below num nums min max t = rw t refl

min_max_loop-above :
    (num : ℤ) (nums : List ℤ) (min max : ℤ)
    → ltb_ℤ num min ≡ false
    → min_max_loop (num ∷ nums) min max ≡ min_max_loop nums min num
unfolding min_max_loop
min_max_loop-above num nums min max f = rw f refl

IsLeast-below :
    (least num min : ℤ) (nums : List ℤ)
    → ltb_ℤ num min ≡ true
    → IsLeast least num nums
    → IsLeast least min (num ∷ nums)
IsLeast-below least num min nums t (low, (all, held)) =
    (≤ℤ_trans least num min low (ltb_ℤ-below num min t), ((low, all), inr held))

IsLeast-above :
    (least num min : ℤ) (nums : List ℤ)
    → ltb_ℤ num min ≡ false
    → IsLeast least min nums
    → IsLeast least min (num ∷ nums)
IsLeast-above least num min nums f (low, (all, inl e)) =
    (low, ((≤ℤ_trans least min num low (ltb_ℤ-above num min f), all), inl e))
IsLeast-above least num min nums f (low, (all, inr held)) =
    (low, ((≤ℤ_trans least min num low (ltb_ℤ-above num min f), all), inr (inr held)))

min_max_loop-IsLeast :
    (nums : List ℤ) (min max : ℤ) → IsLeast (min_max_loop nums min max).0 min nums
unfolding min_max_loop
min_max_loop-IsLeast [] min max = (omega arith, (tt, inl refl))
min_max_loop-IsLeast (num ∷ nums) min max = elim (Bool-cases (ltb_ℤ num min)) [
  | inl t ↦
      subst (λ q. IsLeast q.0 min (num ∷ nums)) (sym (min_max_loop-below num nums min max t))
        (IsLeast-below (min_max_loop nums num max).0 num min nums t
          (min_max_loop-IsLeast nums num max))
  | inr f ↦
      subst (λ q. IsLeast q.0 min (num ∷ nums)) (sym (min_max_loop-above num nums min max f))
        (IsLeast-above (min_max_loop nums min num).0 num min nums f
          (min_max_loop-IsLeast nums min num))
]

IsLeast-first :
    (least num : ℤ) (nums : List ℤ)
    → IsLeast least num (num ∷ nums)
    → AllAbove least (num ∷ nums) × IsIn least (num ∷ nums)
IsLeast-first least num nums (low, (all, inl e)) = (all, inl e)
IsLeast-first least num nums (low, (all, inr held)) = (all, held)

get_min_max-whole :
    (num : ℤ) (nums : List ℤ) (old : ℤ × ℤ)
    → get_min_max (num ∷ nums) (pos (suc (length nums))) old ≡ min_max_loop (num ∷ nums) num num
unfolding get_min_max min_max_of
get_min_max-whole num nums old =
    ap (λ q. min_max_loop (num ∷ q) num num) (take-whole (length nums) nums (omega arith))

-- The minimum that `get_min_max` stores for one or more numbers is one of them and above none.
pub get_min_max-IsLeast :
    (num : ℤ) (nums : List ℤ) (old : ℤ × ℤ)
    → AllAbove (get_min_max (num ∷ nums) (pos (suc (length nums))) old).0 (num ∷ nums)
      × IsIn (get_min_max (num ∷ nums) (pos (suc (length nums))) old).0 (num ∷ nums)
get_min_max-IsLeast num nums old =
    subst (λ q. AllAbove q.0 (num ∷ nums) × IsIn q.0 (num ∷ nums))
      (sym (get_min_max-whole num nums old))
      (IsLeast-first (min_max_loop (num ∷ nums) num num).0 num nums
        (min_max_loop-IsLeast (num ∷ nums) num num))

min_max_loop-append :
    (nums : List ℤ) (last min max : ℤ)
    → ltb_ℤ last (min_max_loop nums min max).0 ≡ false
    → (min_max_loop (nums ++ last ∷ []) min max).1 ≡ last
unfolding min_max_loop
min_max_loop-append [] last min max h = rw h refl
min_max_loop-append (num ∷ nums) last min max h = elim (Bool-cases (ltb_ℤ num min)) [
  | inl t ↦ rw t (min_max_loop-append nums last num max (rw t at h))
  | inr f ↦ rw f (min_max_loop-append nums last min num (rw f at h))
]

-- The maximum that `get_min_max` stores is the last number, where that is not below the minimum of
-- the others, however large the others are.
pub get_min_max-last :
    (num : ℤ) (nums : List ℤ) (last : ℤ) (old : ℤ × ℤ)
    → ltb_ℤ last (get_min_max (num ∷ nums) (pos (suc (length nums))) old).0 ≡ false
    → (get_min_max (num ∷ (nums ++ last ∷ [])) (pos (suc (length (nums ++ last ∷ [])))) old).1
      ≡ last
get_min_max-last num nums last old h =
    rw (get_min_max-whole num (nums ++ last ∷ []) old)
      (min_max_loop-append (num ∷ nums) last num num (rw (get_min_max-whole num nums old) at h))
