-- ===== src/ForkServer.antt =====
-- 13/server.c: a TCP server that forks a child for each client; the child does one sum or receives one
-- file. The operations, the names of files and the prompts are the same text as in 15/server.c.
pub mod Sum
pub mod Receive
pub mod Client
pub mod Transfer
mod Examples
use homework_module.Prelude.{
  ℕ, zero, suc, ◌+◌, ◌-◌, ◌%◌, ◌^◌, Bool, true, false, not, Option, none, some, List, [], ◌∷◌, ◌++◌,
  ◌==◌, ltb, if◌then◌else◌, length, take, drop, get_or, set, Run, ok, fault, out_of_fuel,
}
use homework_module.Prelude.Int.{ℤ}
use homework_module.CString.{c_str}
use homework_module.CString.Number.{strtol, at_end, atoi, low_bits, print_int}
use homework_module.CString.Token.{strtok}
use homework_module.EpollServer.{
  str1, str2, str3, not_found, operation_of, is_colon, last_name, storage_name,
}
use homework_module.EpollServer.Arithmetic.{Operation, call}

-- What the child does outside: bytes to the client, a file made, bytes to the file.
pub data Effect : Type 0 where
  reply : List ℕ → Effect
  make_file : (name : List ℕ) → Effect
  save : List ℕ → Effect

-- What the child meets: what each `read` of the socket brings, `none` for an error; whether each
-- `write` succeeds, where those behind the list do; whether the directory is there, whether the
-- file can be made, and `getpid`. And what it has done.
pub record World : Type 0 where
  pub reads : List (Option (List ℕ))
  pub writes : List Bool
  pub mkdir_ok : Bool
  pub open_ok : Bool
  pub pid : ℕ
  pub effects : List Effect

-- A part of the child returns, or the child ends by `exit`, waits in a `read` for ever, or is
-- undefined.
pub data Flow {ℓ} (A : Type ℓ) : Type ℓ where
  done : A → World → Flow A
  exited waiting : World → Flow A
  crashed : Flow A

module _ {ℓ κ} {A : Type ℓ} {B : Type κ} where
  infixl 5 ◌>>=◌
  abbrev pub ◌>>=◌ : (World → Flow A) → (A → World → Flow B) → World → Flow B
  ◌>>=◌ m k w = elim (m w) [
    | done a w' ↦ k a w'
    | exited w' ↦ exited w'
    | waiting w' ↦ waiting w'
    | crashed ↦ crashed
  ]

infixl 5 ◌>>◌
abbrev pub ◌>>◌ {ℓ} : {B : Type ℓ} → (World → Flow (Unit {0})) → (World → Flow B) → World → Flow B
m >> k = m >>= λ _. k

-- A `write`, after which `error` ends the child where it fails.
write_step : Effect → (results : List Bool) → World → Flow (Unit {0})
write_step effect [] w = done tt (record w { effects = w.effects ++ effect ∷ [] })
write_step effect (true ∷ results) w =
    done tt (record w { writes = results; effects = w.effects ++ effect ∷ [] })
write_step effect (false ∷ results) w = exited (record w { writes = results })

unfoldable pub write_or_exit : Effect → World → Flow (Unit {0})
unfolding write_step
write_or_exit effect w = write_step effect w.writes w

-- A `read` over what the buffer holds; an error ends the child.
read_step : (buff : List ℕ) (reads : List (Option (List ℕ))) → World → Flow (List ℕ)
read_step buff [] w = waiting w
read_step buff (none ∷ reads) w = exited (record w { reads = reads })
read_step buff (some bytes ∷ reads) w =
    done (bytes ++ drop (length bytes) buff) (record w { reads = reads })

unfoldable pub read_or_exit : (buff : List ℕ) → World → Flow (List ℕ)
unfolding read_step
read_or_exit buff w = read_step buff w.reads w

-- `snprintf(buff, size, "%d", result)` over what the buffer holds.
unfoldable pub print_over : (buff : List ℕ) (size : ℕ) (result : ℤ) → List ℕ
print_over buff zero result = buff
print_over buff (suc size) result =
    let text = take size (print_int result) ++ 0 ∷ [] in text ++ drop (length text) buff

-- The buffer that is sent: the number, in no more bytes than the last answer had, and a newline
-- over the zero behind it. `strlen` of a buffer without a zero is a fault.
unfoldable pub result_text : (buff : List ℕ) (result : ℤ) → Option (List ℕ)
unfolding print_over
result_text buff result =
    if ltb (length (c_str buff)) (length buff)
    then (let printed = print_over buff (length (c_str buff)) result in
        some (set printed (length (c_str printed)) 10))
    else none

-- From the division on: an operation without a result, such as a division by zero, ends the child.
tell_result : (buff : List ℕ) → Run ℤ → World → Flow (Unit {0})
unfolding result_text write_or_exit
tell_result buff fault w = crashed
tell_result buff out_of_fuel w = crashed
tell_result buff (ok result) w = elim (result_text buff result) [
  | none ↦ crashed
  | some text ↦ write_or_exit (reply text) w
]

choose : Option Operation → (a : ℤ) (buff : List ℕ) → World → Flow (Unit {0})
unfolding write_or_exit read_or_exit tell_result
choose none a buff w = exited w
choose (some op) a buff w =
    (do
      write_or_exit (reply str2)
      buff' ← read_or_exit buff
      tell_result buff' (call op a (atoi buff')))
      w

-- `stack` is what the uninitialised buffer holds.
unfoldable pub do_math : (stack : List ℕ) → World → Flow (Unit {0})
unfolding write_or_exit read_or_exit choose
do_math stack = do
  write_or_exit (reply str1)
  first ← read_or_exit stack
  write_or_exit (reply str3)
  second ← read_or_exit first
  choose (operation_of (get_or second 0 0)) (atoi first) second

-- `while (size > total_read)`: a read of nothing ends the loop as well.
unfoldable pub receive_loop :
    (size total_read : ℕ) (reads : List (Option (List ℕ))) → World → Flow (Unit {0})
unfolding write_or_exit
receive_loop size total_read [] w =
    if ltb total_read size
    then waiting (record w { reads = [] })
    else done tt (record w { reads = [] })
receive_loop size total_read (none ∷ reads) w =
    if ltb total_read size
    then exited (record w { reads = reads })
    else done tt (record w { reads = none ∷ reads })
receive_loop size total_read (some [] ∷ reads) w =
    if ltb total_read size
    then done tt (record w { reads = reads })
    else done tt (record w { reads = some [] ∷ reads })
receive_loop size total_read (some (c ∷ cs) ∷ reads) w =
    let more = receive_loop size ((total_read + length (c ∷ cs)) % 2 ^ 64) reads in
    if ltb total_read size
    then (do write_or_exit (save (c ∷ cs)); more) w
    else done tt (record w { reads = some (c ∷ cs) ∷ reads })

-- From `mkdir` on; a NULL name is a fault.
store_as : (size : ℕ) (name : Option (List ℕ)) → World → Flow (Unit {0})
unfolding receive_loop
store_as size none w = if w.mkdir_ok then crashed else exited w
store_as size (some name) w =
    if not w.mkdir_ok
    then exited w
    else if not w.open_ok
    then exited w
    else receive_loop size 0 w.reads
        (record w { effects = w.effects ++ make_file (storage_name w.pid name) ∷ [] })

sized : (size_token : List ℕ) → Run (Option (List ℕ)) → World → Flow (Unit {0})
unfolding store_as
sized size_token fault w = crashed
sized size_token out_of_fuel w = crashed
sized size_token (ok name) w =
    let (size, end) = strtol size_token in
    if at_end end then store_as (low_bits size 64) name w else exited w

named : Option (List ℕ × List ℕ) → World → Flow (Unit {0})
unfolding sized
named none w = exited w
named (some (name_token, rest)) w = elim (strtok is_colon rest) [
  | none ↦ exited w
  | some (size_token, _) ↦ sized size_token (last_name name_token) w
]

unfoldable pub receive_file : (stack : List ℕ) → World → Flow (Unit {0})
unfolding read_or_exit named
receive_file stack = do buffer ← read_or_exit stack; named (strtok is_colon (c_str buffer))

-- The result of the last `write` is not looked at.
refuse : (results : List Bool) → World → Flow (Unit {0})
refuse [] w = done tt (record w { effects = w.effects ++ reply not_found ∷ [] })
refuse (true ∷ results) w =
    done tt (record w { writes = results; effects = w.effects ++ reply not_found ∷ [] })
refuse (false ∷ results) w = done tt (record w { writes = results })

unfoldable pub dostuff : (stack : List ℕ) → World → Flow (Unit {0})
unfolding read_or_exit do_math receive_file refuse
dostuff stack = do
  buff ← read_or_exit stack
  λ w.
      if get_or buff 0 0 == b'1'
      then do_math stack w
      else if get_or buff 0 0 == b'2'
      then receive_file stack w
      else refuse w.writes w
