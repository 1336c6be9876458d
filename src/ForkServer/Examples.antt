-- ===== src/ForkServer/Examples.antt =====
-- Runs of a child of 13/server.c: the sum 12 + 30, and a file of two bytes.
use homework_module.Prelude.{
  joined, ℕ, ◌≡◌, refl, true, Option, some, List, [], ◌∷◌, ◌++◌, map, replicate, ok, arith,
}
use homework_module.Prelude.Int.{pos}
use homework_module.CString.{literal, c_str}
use homework_module.CString.Number.{atoi}
use homework_module.CString.Token.{strtok}
use homework_module.EpollServer.{str1, str2, str3, operation_of, last_name, storage_name}
use homework_module.EpollServer.Arithmetic.{sum, call}
use homework_module.ForkServer.{reply, save, make_file, World, done, do_math, dostuff}
use homework_module.ForkServer.Sum.{do_math-cut_result, cut_result, seen}
use homework_module.ForkServer.Client.{send_file, cut_line}
use homework_module.ForkServer.Transfer.{dostuff-send_file}

abbrev zeros : List ℕ
zeros = replicate 1024 0

abbrev child : List (Option (List ℕ)) → World
child reads = record {
  reads = reads;
  writes = [];
  mkdir_ok = true;
  open_ok = true;
  pid = 7;
  effects = [];
}

abbrev sum_reads : List (Option (List ℕ))
sum_reads = some (literal "12") ∷ some (literal "+") ∷ some (literal "30") ∷ []

-- The buffer at the end: 30 lies over the operator and the first number.
abbrev sum_buff : List ℕ
sum_buff = seen (seen (seen zeros (literal "12")) (literal "+")) (literal "30")

-- The result is 42, of which one digit is sent.
do_math-cut_result_example :
    do_math zeros (child sum_reads)
    ≡ done tt (record (child []) {
      effects = reply str1 ∷ reply str3 ∷ reply str2 ∷ reply (cut_result sum_buff 1 (pos 42)) ∷ [];
    })
unfolding operation_of atoi call c_str
do_math-cut_result_example =
    do_math-cut_result zeros (literal "12") (literal "+") (literal "30") [] (child sum_reads) sum 1
      (pos 42) refl refl refl refl refl (omega arith)

dostuff-send_file_example :
    (pieces : List (List ℕ)) × (blocks : List (List ℕ)) × (send_file
        (literal "d/f" ++ 10 ∷ [])
        (1 ∷ 2 ∷ [])
      ≡ ok pieces)
    × (dostuff zeros (child (map some pieces ++ []))
        ≡ done tt (record (child []) {
          effects = make_file (storage_name 7 (literal "f")) ∷ map save blocks;
        }))
    × (joined blocks ≡ 1 ∷ 2 ∷ [])
unfolding cut_line last_name strtok
dostuff-send_file_example =
    dostuff-send_file zeros (literal "d/f" ++ 10 ∷ []) (literal "d/f") (literal "f") (1 ∷ 2 ∷ []) []
      (child []) refl (omega arith) (omega arith) (refl, (refl, (refl, tt)))
      (refl, (refl, (refl, tt))) refl (omega arith) refl refl refl
