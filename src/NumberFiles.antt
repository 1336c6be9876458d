-- ===== src/NumberFiles.antt =====
-- 08/writer.c and 08/reader.c: a writer that appends lines of random numbers to a file and a reader
-- that finds the least and the greatest of each line, over System V semaphores. 08/shared.c and
-- 09/shared.c are the same text, and so are the lines and the search of 09/.
pub mod Line
pub mod Search
pub mod Blocks
pub mod Overflow
mod Examples
use homework_module.Prelude.{
  ℕ, zero, suc, ◌+◌, ◌-◌, ◌%◌, ◌^◌, Bool, true, false, Option, none, some, List, [], ◌∷◌, ◌++◌,
  ◌==◌, ltb, if◌then◌else◌, length, take, drop, set, replicate, Run, ok, fault, out_of_fuel,
  and_then,
}
use homework_module.Prelude.Int.{ℤ, pos, negsuc, ltb_ℤ}
use homework_module.CString.{c_str, strncpy}
use homework_module.CString.Number.{strtol, at_end, to_int, int_of_bits, print_int}
use homework_module.CString.Token.{strtok}

abbrev pub line_max : ℕ
line_max = 1024

abbrev pub integer_length_max : ℕ
integer_length_max = 13

-- `strncpy`, and a zero in the last of the `n` bytes.
unfoldable pub strncpy_s : (dest src : List ℕ) (n : ℕ) → List ℕ
strncpy_s dest src n = set (strncpy dest src n) (n - 1) 0

-- `snprintf(number_str, 13, "%d ", number)` of a `uint32_t`.
unfoldable pub number_str : (number : ℕ) → List ℕ
number_str number = take (integer_length_max - 1) (print_int (int_of_bits number) ++ 32 ∷ [])

-- The loop over the random numbers; `text` is what the buffer holds in front of its zeros, of
-- `buffer_length` bytes. `strncat` ends its text with a zero, which has no place where the buffer is
-- full: a fault.
unfoldable pub fill_loop : (numbers : List ℕ) (text : List ℕ) → Run (List ℕ)
unfolding number_str
fill_loop [] text = ok text
fill_loop (number ∷ numbers) text =
    if ltb line_max (length text + length (number_str number))
    then ok text
    else if length text + length (number_str number) == line_max
    then fault
    else fill_loop numbers (text ++ number_str number)

random_numbers : (rand : ℕ → ℕ) (from count : ℕ) → List ℕ
random_numbers rand from zero = []
random_numbers rand from (suc count) = rand from ∷ random_numbers rand (suc from) count

-- The numbers of a line: `rand i` is what the call number `i` of `rand` returns.
unfoldable pub batch : (rand : ℕ → ℕ) → List ℕ
unfolding random_numbers
batch rand = random_numbers rand 1 (rand 0 % 100 + 50)

-- The buffer that is written: `buffer[D_LINE_MAX - 1] = '\n'`.
unfoldable pub put_line : (numbers : List ℕ) → Run (List ℕ)
unfolding fill_loop
put_line numbers =
    and_then (fill_loop numbers [])
      (λ text. ok (set (text ++ replicate (line_max - length text) 0) (line_max - 1) 10))

-- A `semop`: done, EAGAIN, or another error.
pub data SemResult : Type 0 where
  sem_ok sem_again sem_failed : SemResult

-- What the calls of one round return: the `semop`s on `push` or `pop`, on `lock_res` and on `rel_res`,
-- and the `write` or the `read`.
pub record Calls : Type 0 where
  pub announce : SemResult
  pub lock : SemResult
  pub release : SemResult
  pub file_ok : Bool

-- The return value from `rel_res` on: the mutex is given back before the error of the file is seen.
unfoldable pub released : Calls → ℤ
released calls = elim calls.release [
  | sem_ok ↦ if calls.file_ok then pos 0 else negsuc 0
  | sem_again ↦ negsuc 0
  | sem_failed ↦ negsuc 0
]

locked : Calls → SemResult → (line file : List ℕ) → ℤ × List ℕ
unfolding released
locked calls sem_ok line file = (released calls, if calls.file_ok then file ++ line else file)
locked calls _ line file = (negsuc 0, file)

announced : Calls → SemResult → (line file : List ℕ) → ℤ × List ℕ
unfolding locked
announced calls sem_ok line file = locked calls calls.lock line file
announced calls sem_again line file = (pos 1, file)
announced calls sem_failed line file = (negsuc 0, file)

-- The file is opened with O_APPEND.
unfoldable pub put_data : Calls → (numbers file : List ℕ) → Run (ℤ × List ℕ)
unfolding announced put_line
put_data calls numbers file =
    and_then (put_line numbers) (λ line. ok (announced calls calls.announce line file))

-- The loop of the writer over its rounds, until `is_running` is cleared: the status, the file and the
-- number of lines.
unfoldable pub writer_loop :
    List (Calls × List ℕ) → (file : List ℕ) (line_number : ℕ) → Run (ℤ × List ℕ × ℕ)
unfolding put_data
writer_loop [] file line_number = ok (pos 0, file, line_number)
writer_loop ((calls, numbers) ∷ rounds) file line_number =
    and_then (put_data calls numbers file) (λ r. elim r.0 [
      | pos zero ↦ writer_loop rounds r.1 (line_number + 1)
      | pos (suc _) ↦ writer_loop rounds r.1 line_number
      | negsuc _ ↦ ok (negsuc 0, r.1, line_number)
    ])

abbrev pub is_blank : ℕ → Bool
is_blank c = c == 32

abbrev pub int_max : ℤ
int_max = pos (2 ^ 31 - 1)

-- The body of the loop of `get_min_max` for one token.
unfoldable pub min_max_token : (token : List ℕ) → ℤ × ℤ → ℤ × ℤ
min_max_token token (min, max) =
    let (value, end) = strtol token in
    let num = to_int value in
    if at_end end
    then (if ltb_ℤ num min then num else min, if ltb_ℤ max num then num else max)
    else (min, max)

-- `do … while (token != NULL)`: `strtol` of NULL is a fault.
unfoldable pub min_max_loop : (fuel : ℕ) → Option (List ℕ × List ℕ) → ℤ × ℤ → Run (ℤ × ℤ)
unfolding min_max_token
min_max_loop zero next found = out_of_fuel
min_max_loop (suc fuel) none found = fault
min_max_loop (suc fuel) (some (token, rest)) found =
    let next = strtok is_blank rest in
    let more = min_max_loop fuel next (min_max_token token found) in
    elim next [ none ↦ ok (min_max_token token found) | some _ ↦ more ]

-- `stack` is what the uninitialised `buffer` holds.
unfoldable pub get_min_max : (stack text : List ℕ) → Run (ℤ × ℤ)
unfolding strncpy_s min_max_loop
get_min_max stack text =
    let s = c_str (strncpy_s stack text line_max) in
    min_max_loop (suc (length s)) (strtok is_blank s) (int_max, negsuc 0)

-- The reader's place in the file, and its buffer.
pub record Reader : Type 0 where
  pub offset : ℕ
  pub buffer : List ℕ

-- `read(fd, buffer, D_LINE_MAX)`.
unfoldable pub read_block : (file : List ℕ) → Reader → Reader
read_block file r =
    let bytes = take line_max (drop r.offset file) in
    record { offset = r.offset + length bytes; buffer = bytes ++ drop (length bytes) r.buffer }

get_locked : Calls → SemResult → (file : List ℕ) → Reader → ℤ × Reader
unfolding released read_block
get_locked calls sem_ok file r = (released calls, if calls.file_ok then read_block file r else r)
get_locked calls _ file r = (negsuc 0, r)

get_announced : Calls → SemResult → (file : List ℕ) → Reader → ℤ × Reader
unfolding get_locked
get_announced calls sem_ok file r = get_locked calls calls.lock file r
get_announced calls sem_again file r = (pos 1, r)
get_announced calls sem_failed file r = (negsuc 0, r)

unfoldable pub get_data : Calls → (file : List ℕ) → Reader → ℤ × Reader
unfolding get_announced
get_data calls file r = get_announced calls calls.announce file r

-- The loop of the reader over its rounds: the status and the pairs that it prints. The buffer is
-- declared in the loop and keeps its place on the stack.
unfoldable pub reader_loop :
    (stack : List ℕ) → List (Calls × List ℕ) → Reader → Run (ℤ × List (ℤ × ℤ))
unfolding get_data get_min_max
reader_loop stack [] r = ok (pos 0, [])
reader_loop stack ((calls, file) ∷ rounds) r =
    let (status, r') = get_data calls file r in
    elim status [
      | pos zero ↦
          and_then (get_min_max stack r'.buffer)
            (λ found. and_then (reader_loop stack rounds r') (λ told. ok (told.0, found ∷ told.1)))
      | pos (suc _) ↦ reader_loop stack rounds r'
      | negsuc _ ↦ ok (negsuc 0, [])
    ]
