-- ===== src/EpollServer/Arithmetic.antt =====
-- The four operations of 15/server.c on `int`. A result that an `int` does not hold, and a division by
-- zero, are undefined behaviour.
use homework_module.Prelude.{
  suc, ◌-◌, ◌/◌, ◌^◌, Bool, Run, ok, fault, out_of_fuel, arith, ◌≢◌, leb, if◌then◌else◌,
}
use homework_module.Prelude.Int.{ℤ, pos, negsuc, ◌+ℤ◌, ◌-ℤ◌, ◌*ℤ◌, sub_ℕ, pos_part, neg_part}

-- The functions that `operations[]` points to.
pub data Operation : Type 0 where
  sum sub mul divide : Operation

abbrev pub fits_int : ℤ → Bool
fits_int (pos n) = leb n (2 ^ 31 - 1)
fits_int (negsuc n) = leb n (2 ^ 31 - 1)

unfoldable pub int_result : ℤ → Run ℤ
int_result z = if fits_int z then ok z else fault

-- C's quotient is cut towards zero.
unfoldable pub quotient : ℤ → ℤ → Run ℤ
unfolding int_result
quotient a (pos n) = if leb n 0 then fault else int_result (sub_ℕ (pos_part a / n) (neg_part a / n))
quotient a (negsuc n) = int_result (sub_ℕ (neg_part a / suc n) (pos_part a / suc n))

unfoldable pub call : Operation → ℤ → ℤ → Run ℤ
unfolding int_result quotient ◌+ℤ◌ ◌-ℤ◌ ◌*ℤ◌
call sum a b = int_result (a +ℤ b)
call sub a b = int_result (a -ℤ b)
call mul a b = int_result (a *ℤ b)
call divide a b = quotient a b

-- An operation ends, or has no result: it holds no loop.
int_result-ends : (z : ℤ) → int_result z ≢ out_of_fuel
unfolding int_result
int_result-ends z = ground arith

quotient-ends : (a b : ℤ) → quotient a b ≢ out_of_fuel
unfolding quotient
quotient-ends a (pos n) = ground (arith, int_result-ends (sub_ℕ (pos_part a / n) (neg_part a / n)))
quotient-ends a (negsuc n) = int_result-ends (sub_ℕ (neg_part a / suc n) (pos_part a / suc n))

pub call-ends : (op : Operation) (a b : ℤ) → call op a b ≢ out_of_fuel
unfolding call
call-ends sum a b = int_result-ends (a +ℤ b)
call-ends sub a b = int_result-ends (a -ℤ b)
call-ends mul a b = int_result-ends (a *ℤ b)
call-ends divide a b = quotient-ends a b
