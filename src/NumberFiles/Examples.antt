-- ===== src/NumberFiles/Examples.antt =====
-- Lines of 08/writer.c: of 7, 30 and 5; of four numbers; and of 1024 numbers of no more than one digit,
-- of which the buffer has room for 512, too few by one byte.
use homework_module.Prelude.{
  ℕ, zero, suc, ◌≡◌, refl, List, [], ◌∷◌, ◌++◌, map, length-replicate, replicate, ok, fault, arith,
}
use homework_module.Prelude.Int.{pos}
use homework_module.CString.Number.{print_int}
use homework_module.NumberFiles.{line_max, put_line, writer_loop, reader_loop}
use homework_module.NumberFiles.Line.{AllRandom}
use homework_module.NumberFiles.Blocks.{Batch, same_file, writing, reader_loop-writer_loop}
use homework_module.NumberFiles.Overflow.{put_line-fault}

abbrev batches : List Batch
batches = (7, 30 ∷ 5 ∷ [], []) ∷ (100, [], []) ∷ []

abbrev zeros : List ℕ
zeros = replicate line_max 0

reader_loop-writer_loop_example :
    (file : List ℕ) × (writer_loop (map writing batches) [] 0 ≡ ok (pos 0, file, 2))
    × (reader_loop zeros (map (same_file file) batches) (record { offset = 0; buffer = zeros })
        ≡ ok (pos 0, (pos 5, pos 30) ∷ (pos 100, pos 100) ∷ []))
unfolding print_int
reader_loop-writer_loop_example =
    reader_loop-writer_loop zeros zeros batches (length-replicate {A = ℕ} line_max 0)
      (length-replicate {A = ℕ} line_max 0) (omega arith)

-- Some numbers below ten.
ones-AllRandom : (n : ℕ) → AllRandom (replicate n 1)
ones-AllRandom zero = tt
ones-AllRandom (suc n) = (omega arith, ones-AllRandom n)

put_line-fault_example : put_line ((1 ∷ replicate 511 1) ++ 3 ∷ []) ≡ fault
unfolding print_int
put_line-fault_example =
    put_line-fault 1 (replicate 511 1) (3 ∷ []) (omega arith, ones-AllRandom 511) refl
