-- ===== src/CString/Number.antt =====
-- `strtol`, `atoi` and the decimal printing of `%d`.
pub mod Decimal
pub mod Size
use homework_module.Prelude.{
  ℕ, zero, suc, ◌+◌, ◌-◌, ◌*◌, ◌/◌, ◌%◌, ◌^◌, Bool, true, false, ◌&&◌, ◌||◌, List, [], ◌∷◌, ◌++◌,
  ◌==◌, ltb, leb, if◌then◌else◌,
}
use homework_module.Prelude.Int.{ℤ, pos, negsuc}

abbrev pub is_digit : ℕ → Bool
is_digit c = leb b'0' c && leb c b'9'

-- `isspace`: blank, \t, \n, \v, \f, \r.
abbrev pub is_space : ℕ → Bool
is_space c = (c == 32) || (leb 9 c && leb c 13)

unfoldable pub skip_space : List ℕ → List ℕ
skip_space [] = []
skip_space (c ∷ cs) = if is_space c then skip_space cs else c ∷ cs

-- The digits' value, and what stands behind them.
unfoldable pub read_digits : ℕ → List ℕ → ℕ × List ℕ
read_digits acc [] = (acc, [])
read_digits acc (c ∷ cs) =
    if is_digit c then read_digits (acc * 10 + (c - b'0')) cs else (acc, c ∷ cs)

abbrev pub starts_digit : List ℕ → Bool
starts_digit [] = false
starts_digit (c ∷ cs) = is_digit c

-- A `long`: a value out of its range is cut to the nearest end.
unfoldable pub to_long : (minus : Bool) → ℕ → ℤ
to_long false n = if ltb n (2 ^ 63) then pos n else pos (2 ^ 63 - 1)
to_long true zero = pos 0
to_long true (suc n) = if ltb n (2 ^ 63) then negsuc n else negsuc (2 ^ 63 - 1)

signed : (minus : Bool) (whole rest : List ℕ) → ℤ × List ℕ
unfolding read_digits to_long
signed minus whole rest =
    if starts_digit rest
    then (let (n, tail) = read_digits 0 rest in (to_long minus n, tail))
    else (pos 0, whole)

after_space : (whole rest : List ℕ) → ℤ × List ℕ
unfolding signed
after_space whole [] = (pos 0, whole)
after_space whole (c ∷ cs) =
    if c == b'-'
    then signed true whole cs
    else if c == b'+'
    then signed false whole cs
    else signed false whole (c ∷ cs)

-- `strtol(s, &end, 10)`: the number, and the memory from `end` on.
unfoldable pub strtol : List ℕ → ℤ × List ℕ
unfolding after_space skip_space
strtol s = after_space s (skip_space s)

-- `*endptr == '\0'`.
abbrev pub at_end : List ℕ → Bool
at_end [] = true
at_end (c ∷ cs) = c == 0

-- The `int` of these 32 bits.
abbrev pub int_of_bits : ℕ → ℤ
int_of_bits n = if ltb n (2 ^ 31) then pos n else negsuc (2 ^ 32 - 1 - n)

-- The low bits of a number in two's complement.
abbrev pub low_bits : ℤ → (width : ℕ) → ℕ
low_bits (pos n) width = n % 2 ^ width
low_bits (negsuc n) width = 2 ^ width - 1 - n % 2 ^ width

-- The conversion of a `long` to an `int`.
unfoldable pub to_int : ℤ → ℤ
to_int z = int_of_bits (low_bits z 32)

unfoldable pub atoi : List ℕ → ℤ
unfolding strtol to_int
atoi s = to_int (strtol s).0

-- The decimal digits of a number below 10 ^ fuel.
unfoldable pub digits : (fuel : ℕ) → ℕ → List ℕ
digits zero n = []
digits (suc fuel) n = elim (ltb n 10) [
  | true ↦ (b'0' + n) ∷ []
  | false ↦ digits fuel (n / 10) ++ (b'0' + n % 10) ∷ []
]

-- What `%d` prints of an `int`, which has at most ten digits.
unfoldable pub print_int : ℤ → List ℕ
unfolding digits
print_int (pos n) = digits 10 n
print_int (negsuc n) = b'-' ∷ digits 10 (suc n)
