-- ===== src/Menus/Input.antt =====
-- Reading lines and numbers in 03/main.c.
pub mod Lines
use homework_module.Prelude.{
  ℕ, zero, suc, ◌-◌, Bool, true, false, Option, none, some, List, [], ◌∷◌, ◌++◌, ◌==◌, ltb,
  if◌then◌else◌, length, take, Run, ok, fault, out_of_fuel, and_then,
}
use homework_module.Prelude.Int.{ℤ}
use homework_module.CString.{c_str}
use homework_module.CString.Number.{strtol, to_int, low_bits}
use homework_module.Phonebook.{field_size}

-- `READ_OK` carries the text in the buffer. `READ_INVALID` is never returned.
pub data ReadStatus : Type 0 where
  read_ok : List ℕ → ReadStatus
  read_cancel : ReadStatus
  read_fail : ReadStatus

-- A line of the input, its newline included, of at most `room` bytes, and what follows.
unfoldable pub fgets : (room : ℕ) (input : List ℕ) → List ℕ × List ℕ
fgets zero input = ([], input)
fgets (suc room) [] = ([], [])
fgets (suc room) (c ∷ input) =
    let (line, rest) = fgets room input in if c == 10 then (c ∷ [], input) else (c ∷ line, rest)

-- `buffer[strlen(buffer) - 1] = '\0'`; in an empty buffer, a write in front of it.
cut_last : List ℕ → Run ReadStatus
cut_last [] = fault
cut_last (c ∷ cs) = ok (read_ok (take (length cs) (c ∷ cs)))

read_status : (line : List ℕ) → Run ReadStatus
unfolding cut_last
read_status [] = ok read_fail
read_status (c ∷ cs) = if c == 10 then ok read_cancel else cut_last (c_str (c ∷ cs))

unfoldable pub readline : (input : List ℕ) → Run (ReadStatus × List ℕ)
unfolding fgets read_status
readline input =
    let (line, rest) = fgets (field_size - 1) input in
    and_then (read_status line) (λ status. ok (status, rest))

-- The loop of `readline_required`: only READ_OK and READ_FAIL leave it.
unfoldable pub readline_required : (fuel : ℕ) (input : List ℕ) → Run (ReadStatus × List ℕ)
unfolding readline
readline_required zero input = out_of_fuel
readline_required (suc fuel) input = and_then (readline input) (λ step. elim step.0 [
  | read_ok text ↦ ok step
  | read_cancel ↦ readline_required fuel step.1
  | read_fail ↦ ok step
])

-- `sscanf` with `%d` or `%zu`: a number, where one can be read.
scan : (buffer : List ℕ) → Option ℤ
scan buffer =
    let (n, end) = strtol buffer in if ltb (length end) (length buffer) then some n else none

unfoldable pub try_parse_int : (buffer : List ℕ) → Option ℤ
unfolding scan
try_parse_int buffer = elim (scan buffer) [ none ↦ none | some n ↦ some (to_int n) ]

unfoldable pub try_parse_size_t : (buffer : List ℕ) → Option ℕ
unfolding scan
try_parse_size_t buffer = elim (scan buffer) [ none ↦ none | some n ↦ some (low_bits n 64) ]
