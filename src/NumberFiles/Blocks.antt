-- ===== src/NumberFiles/Blocks.antt =====
-- The file between 08/writer.c and 08/reader.c: blocks of 1024 bytes, one for each line.
use mathlib.Core.List.{append_assoc, append-nil}
use homework_module.Prelude.{
  ℕ, zero, suc, ◌+◌, ◌-◌, ◌≤◌, ◌<◌, ◌≡◌, refl, sym, ap, ◌∙◌, true, List, [], ◌∷◌, ◌++◌, map, length,
  length-append, length-set, length-replicate, replicate, take, drop, ok, and_then, arith,
}
use homework_module.Prelude.Int.{ℤ, pos}
use homework_module.NumberFiles.{
  line_max, Calls, sem_ok, put_data, writer_loop, Reader, read_block, get_data, reader_loop,
  get_min_max, announced, released, locked, get_announced, get_locked,
}
use homework_module.NumberFiles.Line.{spelled, AllRandom, IsFull, line_of}
use homework_module.NumberFiles.Search.{least, greatest, put_line-spelled, get_min_max-line_of}

-- The random numbers of a line: those that are written, of which there is a first, and the others.
abbrev pub Batch : Type 0
Batch = ℕ × List ℕ × List ℕ

abbrev pub numbers_of : Batch → List ℕ
numbers_of (number, numbers, rest) = (number ∷ numbers) ++ rest

-- The numbers that are written take less than the whole buffer, and the next one goes beyond it.
abbrev pub IsBatch : Batch → Type 0
IsBatch (number, numbers, rest) =
    AllRandom (number ∷ numbers)
    × (length (spelled (number ∷ numbers)) < line_max)
    × IsFull (length (spelled (number ∷ numbers))) rest

abbrev pub AllBatches : List Batch → Type 0
AllBatches [] = Unit
AllBatches (batch ∷ batches) = IsBatch batch × AllBatches batches

abbrev pub block : Batch → List ℕ
block (number, numbers, rest) = line_of (spelled (number ∷ numbers))

abbrev pub file_of : List Batch → List ℕ
file_of [] = []
file_of (batch ∷ batches) = block batch ++ file_of batches

abbrev pub found : Batch → ℤ × ℤ
found (number, numbers, rest) = (pos (least number numbers), pos (greatest number numbers))

-- Every call of a round succeeds.
abbrev pub working : Calls
working = record { announce = sem_ok; lock = sem_ok; release = sem_ok; file_ok = true }

abbrev pub writing : Batch → Calls × List ℕ
writing batch = (working, numbers_of batch)

put_data-block :
    (batch : Batch) (file : List ℕ)
    → IsBatch batch
    → put_data working (numbers_of batch) file ≡ ok (pos 0, file ++ block batch)
unfolding put_data announced locked released
put_data-block (number, numbers, rest) file (all, room, full) =
    rw (put_line-spelled (number ∷ numbers) rest all room full) refl

writer_loop-file_of :
    (batches : List Batch) (file : List ℕ) (line_number : ℕ)
    → AllBatches batches
    → writer_loop (map writing batches) file line_number
      ≡ ok (pos 0, file ++ file_of batches, line_number + length batches)
unfolding writer_loop
writer_loop-file_of [] file line_number all =
    ap (λ q. ok (pos 0, q, line_number)) (sym (append-nil file))
    ∙ ap (λ n. ok (pos 0, file ++ [], n)) (omega arith)
writer_loop-file_of (batch ∷ batches) file line_number (is, all) =
    rw
      (
        put_data-block batch file is,
        writer_loop-file_of batches (file ++ block batch) (line_number + 1) all,
      )
      (ap (λ q. ok (pos 0, q, line_number + 1 + length batches))
          (append_assoc file (block batch) (file_of batches))
        ∙ ap (λ n. ok (pos 0, file ++ file_of (batch ∷ batches), n)) (omega arith))

length-block : (batch : Batch) → IsBatch batch → length (block batch) ≡ line_max
length-block (number, numbers, rest) (all, room, full) =
    let text = spelled (number ∷ numbers) in
    length-set (text ++ replicate (line_max - length text) 0) (line_max - 1) 10
    ∙ length-append text (replicate (line_max - length text) 0)
    ∙ omega (arith, length-replicate {A = ℕ} (line_max - length text) 0)

drop-append : (xs ys : List ℕ) → drop (length xs) (xs ++ ys) ≡ ys
drop-append [] ys = refl
drop-append (x ∷ xs) ys = drop-append xs ys

take-append : (xs ys : List ℕ) → take (length xs) (xs ++ ys) ≡ xs
take-append [] ys = refl
take-append (x ∷ xs) ys = ap (λ q. x ∷ q) (take-append xs ys)

drop-whole : (n : ℕ) (xs : List ℕ) → length xs ≤ n → drop n xs ≡ []
drop-whole zero [] h = refl
drop-whole zero (x ∷ xs) h = absurd (omega arith)
drop-whole (suc n) [] h = refl
drop-whole (suc n) (x ∷ xs) h = drop-whole n xs (omega arith)

-- A read at the start of a block.
read_block-whole :
    (before bytes later buffer : List ℕ)
    → length bytes ≡ line_max
    → length buffer ≡ line_max
    → read_block (before ++ (bytes ++ later)) (record { offset = length before; buffer = buffer })
      ≡ record { offset = length (before ++ bytes); buffer = bytes }
unfolding read_block
read_block-whole before bytes later buffer whole len =
    let taken : take line_max (bytes ++ later) ≡ bytes =
      ap (λ n. take n (bytes ++ later)) (sym whole) ∙ take-append bytes later in
    rw
      (
        drop-append before (bytes ++ later),
        taken,
        drop-whole (length bytes) buffer (omega arith),
        append-nil bytes,
        length-append before bytes,
      )
      refl

-- The rounds of a reader that finds the lines `batches` in turn. In each of them the file holds what
-- was read before, the line, and whatever the writer has appended behind it by then.
abbrev pub reading : (before : List ℕ) → List (Batch × List ℕ) → List (Calls × List ℕ)
reading before [] = []
reading before ((batch, later) ∷ rounds) =
    (working, before ++ (block batch ++ later)) ∷ reading (before ++ block batch) rounds

abbrev pub AllRead : List (Batch × List ℕ) → Type 0
AllRead [] = Unit
AllRead ((batch, later) ∷ rounds) = IsBatch batch × AllRead rounds

abbrev pub all_found : List (Batch × List ℕ) → List (ℤ × ℤ)
all_found [] = []
all_found ((batch, later) ∷ rounds) = found batch ∷ all_found rounds

reader_loop-read :
    (stack file : List ℕ) (rounds : List (Calls × List ℕ)) (r : Reader)
    → reader_loop stack ((working, file) ∷ rounds) r
      ≡ and_then (get_min_max stack (read_block file r).buffer) (λ pair.
        and_then
          (reader_loop stack rounds (read_block file r))
          (λ told. ok (told.0, pair ∷ told.1)))
unfolding reader_loop get_data get_announced get_locked released
reader_loop-read stack file rounds r = refl

-- A reader, all of whose calls succeed, and whose file holds another line of the writer behind what it
-- has read in every round, tells the least and the greatest number of each line, in order.
pub reader_loop-found :
    (stack before buffer : List ℕ) (rounds : List (Batch × List ℕ))
    → length stack ≡ line_max
    → length buffer ≡ line_max
    → AllRead rounds
    → reader_loop stack (reading before rounds) (record { offset = length before; buffer = buffer })
      ≡ ok (pos 0, all_found rounds)
reader_loop-found stack before buffer [] len_s len_b all = unfold reader_loop in refl
reader_loop-found stack before buffer (((number, numbers, rest), later) ∷ rounds) len_s len_b
      (is, all) =
    let batch : Batch = (number, numbers, rest) in
    rw
      (
        reader_loop-read stack (before ++ (block batch ++ later))
            (reading (before ++ block batch) rounds)
            (record { offset = length before; buffer = buffer }),
        read_block-whole before (block batch) later buffer (length-block batch is) len_b,
        get_min_max-line_of stack number numbers len_s is.0 is.1,
        reader_loop-found stack (before ++ block batch) (block batch) rounds len_s
            (length-block batch is) all,
      )
      refl

-- The lines with what stands behind each in the whole file.
abbrev with_later : List Batch → List (Batch × List ℕ)
with_later [] = []
with_later (batch ∷ batches) = (batch, file_of batches) ∷ with_later batches

abbrev pub same_file : List ℕ → Batch → Calls × List ℕ
same_file file batch = (working, file)

reading-with_later :
    (before file : List ℕ) (batches : List Batch)
    → before ++ file_of batches ≡ file
    → reading before (with_later batches) ≡ map (same_file file) batches
reading-with_later before file [] e = refl
reading-with_later before file (batch ∷ batches) e =
    ap (λ q. (working, q) ∷ reading (before ++ block batch) (with_later batches)) e
    ∙ ap (λ q. (working, file) ∷ q)
        (reading-with_later (before ++ block batch) file batches
          (append_assoc before (block batch) (file_of batches) ∙ e))

all_found-with_later : (batches : List Batch) → all_found (with_later batches) ≡ map found batches
all_found-with_later [] = refl
all_found-with_later (batch ∷ batches) = ap (λ q. found batch ∷ q) (all_found-with_later batches)

with_later-AllRead : (batches : List Batch) → AllBatches batches → AllRead (with_later batches)
with_later-AllRead [] all = tt
with_later-AllRead (batch ∷ batches) (is, all) = (is, with_later-AllRead batches all)

-- Where every call succeeds, a writer puts its lines into the file and counts them, and a reader that
-- then reads the file from its start tells, line by line, the least and the greatest of the numbers
-- that were written. Each line has a first number, its numbers are below 2 ^ 31 and take less than the
-- 1024 bytes, and the number behind them, if there is one, goes beyond the buffer.
pub reader_loop-writer_loop :
    (stack buffer : List ℕ) (batches : List Batch)
    → length stack ≡ line_max
    → length buffer ≡ line_max
    → AllBatches batches
    → (file : List ℕ) × (writer_loop (map writing batches) [] 0 ≡ ok (pos 0, file, length batches))
      × (reader_loop stack (map (same_file file) batches) (record { offset = 0; buffer = buffer })
          ≡ ok (pos 0, map found batches))
reader_loop-writer_loop stack buffer batches len_s len_b all = (
  file_of batches,
  writer_loop-file_of batches [] 0 all ∙ ap (λ n. ok (pos 0, file_of batches, n)) (omega arith),
  ap (λ q. reader_loop stack q (record { offset = 0; buffer = buffer }))
        (sym (reading-with_later [] (file_of batches) batches refl))
      ∙ reader_loop-found stack [] buffer (with_later batches) len_s len_b
          (with_later-AllRead batches all)
      ∙ ap (λ q. ok (pos 0, q)) (all_found-with_later batches),
)
