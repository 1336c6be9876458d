-- ===== src/EpollServer.antt =====
-- 15/server.c: a TCP server over epoll. Each client is a state machine that does one sum or receives
-- one file, stepped by each chunk of bytes that arrives for it.
pub mod Arithmetic
pub mod Clients
pub mod Table
pub mod Search
pub mod Steps
pub mod Loop
pub mod Session
pub mod Upload
pub mod Storage
mod Examples
use homework_module.Prelude.{
  ℕ, zero, suc, ◌+◌, ◌-◌, ◌%◌, ◌^◌, Bool, true, false, ◌&&◌, ◌||◌, not, Option, none, some, List,
  [], ◌∷◌, ◌++◌, ◌==◌, ltb, leb, if◌then◌else◌, length, take, drop, get_or, Run, ok, fault,
  out_of_fuel, and_then,
}
use homework_module.Prelude.Int.{ℤ, pos, is_zero}
use homework_module.CString.{c_str, literal}
use homework_module.CString.Number.{strtol, at_end, atoi, low_bits, print_int}
use homework_module.CString.Token.{strtok}
use homework_module.EpollServer.Arithmetic.{Operation, sum, sub, mul, divide, call}

pub data StatusCode : Type 0 where
  status_ok status_fatal status_fin : StatusCode

pub data ClientState : Type 0 where
  st_unassigned math_wait_a math_wait_op math_wait_b math_done : ClientState
  file_wait_name file_receive file_done : ClientState

-- `fd` is 0 while no file is open. `file_buffer` is not used by the code.
pub record Client : Type 0 where
  pub sockfd : ℕ
  pub state : ClientState
  pub math_a : ℤ
  pub math_b : ℤ
  pub math_op : Option Operation
  pub filename : List ℕ
  pub file_size : ℕ
  pub file_received : ℕ
  pub fd : ℕ

-- What a step does outside: bytes sent to the client, a file made, bytes written to a
-- file, a descriptor closed.
pub data Effect : Type 0 where
  reply : (sockfd : ℕ) → List ℕ → Effect
  make_file : List ℕ → Effect
  save : (fd : ℕ) → List ℕ → Effect
  close_fd : ℕ → Effect

-- What the system calls of one step return: whether writing to the socket and to the file succeed, what
-- `mkdir` leaves (`true` if the directory is there), the descriptor that `open` gives, and `getpid`.
pub record Calls : Type 0 where
  pub socket_ok : Bool
  pub file_ok : Bool
  pub mkdir_ok : Bool
  pub opened : Option ℕ
  pub pid : ℕ

abbrev pub Step : Type 0
Step = Client × StatusCode × List Effect

-- `sizeof` counts the zero byte behind each text.
abbrev pub str1 : List ℕ
str1 = literal "Enter 1 parameter" ++ 13 ∷ 10 ∷ 0 ∷ []

abbrev pub str2 : List ℕ
str2 = literal "Enter 2 parameter" ++ 13 ∷ 10 ∷ 0 ∷ []

abbrev pub str3 : List ℕ
str3 = literal "Enter op (+,-,*,/)" ++ 13 ∷ 10 ∷ 0 ∷ []

abbrev pub not_found : List ℕ
not_found = literal "No such operation available." ++ 13 ∷ 10 ∷ 0 ∷ []

abbrev pub zero_division : List ℕ
zero_division = literal "error: zero division" ++ 10 ∷ []

-- `write` to the socket: the bytes go out, or the step is fatal.
unfoldable pub write_socket : Calls → Client → List ℕ → StatusCode → Step
write_socket calls client bytes status =
    if calls.socket_ok
    then (client, status, reply client.sockfd bytes ∷ [])
    else (client, status_fatal, [])

-- The answer where no state takes the bytes: the result of this `write` is not looked at.
unfoldable pub reject : Calls → Client → Step
reject calls client =
    (client, status_fatal, if calls.socket_ok then reply client.sockfd not_found ∷ [] else [])

unfoldable pub operation_of : (byte : ℕ) → Option Operation
operation_of byte =
    if byte == b'+'
    then some sum
    else if byte == b'-'
    then some sub
    else if byte == b'*'
    then some mul
    else if byte == b'/'
    then some divide
    else none

abbrev pub is_divide : Operation → Bool
is_divide divide = true
is_divide _ = false

-- The end of `do_math`, from the division test on; calling a NULL `math_op` is a fault.
unfoldable pub answer : Option Operation → Calls → Client → Run Step
unfolding write_socket
answer none calls client = fault
answer (some op) calls client =
    if is_divide op && is_zero client.math_b
    then ok (write_socket calls client zero_division status_fin)
    else and_then (call op client.math_a client.math_b)
        (λ result. ok (write_socket calls client (print_int result ++ 10 ∷ []) status_fin))

choose : Option Operation → Calls → Client → Step
unfolding write_socket
choose none calls client = (client, status_fatal, [])
choose (some op) calls client =
    write_socket calls (record client { math_op = some op; state = math_wait_b }) str2 status_ok

math_in : ClientState → Calls → Client → (buffer : List ℕ) → Run Step
unfolding write_socket operation_of choose answer
math_in math_wait_a calls client buffer = ok (
    write_socket calls (record client { math_a = atoi buffer; state = math_wait_op }) str3
      status_ok)
math_in math_wait_op calls client buffer =
    ok (choose (operation_of (get_or buffer 0 0)) calls client)
math_in math_wait_b calls client buffer =
    answer client.math_op calls (record client { math_b = atoi buffer; state = math_done })
math_in _ calls client buffer = answer client.math_op calls client

unfoldable pub do_math : Calls → Client → (buffer : List ℕ) → Run Step
unfolding math_in
do_math calls client buffer = math_in client.state calls client buffer

abbrev pub is_colon : ℕ → Bool
is_colon c = c == b':'

abbrev pub is_slash : ℕ → Bool
is_slash c = c == b'/'

-- `do { name = next; next = strtok(NULL, "/"); } while (next != NULL);`
unfoldable pub name_loop :
    (fuel : ℕ) (next : Option (List ℕ)) (rest : List ℕ) → Run (Option (List ℕ))
name_loop zero next rest = out_of_fuel
name_loop (suc fuel) next rest = elim (strtok is_slash rest) [
  | none ↦ ok next
  | some (token, rest') ↦ name_loop fuel (some token) rest'
]

-- The last component of a path; `none` is NULL, where the path has no component.
unfoldable pub last_name : (name_token : List ℕ) → Run (Option (List ℕ))
unfolding name_loop
last_name name_token = elim (strtok is_slash name_token) [
  | none ↦ name_loop 1 none []
  | some (token, rest) ↦ name_loop (suc (length rest)) (some token) rest
]

-- `snprintf(filename, 256, "storage/%d-%s", getpid(), name)`.
unfoldable pub storage_name : (pid : ℕ) (name : List ℕ) → List ℕ
storage_name pid name = take 255 (literal "storage/" ++ (print_int (pos pid) ++ b'-' ∷ name))

fatal : Client → Run Step
fatal client = ok (client, status_fatal, [])

-- From `mkdir` on; printing a NULL name is a fault.
open_file : Calls → Client → (size : ℕ) (name : Option (List ℕ)) → Run Step
unfolding fatal storage_name
open_file calls client size none = if calls.mkdir_ok then fault else fatal client
open_file calls client size (some name) =
    if not calls.mkdir_ok
    then fatal client
    else (let filename = storage_name calls.pid name in
        elim calls.opened [
          | none ↦ fatal client
          | some fd ↦ ok (
            record client { filename = filename; fd = fd; file_size = size; state = file_receive },
            status_ok,
            make_file filename ∷ [],
          )
        ])

-- `size_t size = strtol(size_token, &endptr, 10)`, behind the name's loop.
sized : Calls → Client → (size_token : List ℕ) (name : Option (List ℕ)) → Run Step
unfolding open_file
sized calls client size_token name =
    let (size, end) = strtol size_token in
    if at_end end then open_file calls client (low_bits size 64) name else fatal client

named : Calls → Client → (name_token : List ℕ) → Option (List ℕ × List ℕ) → Run Step
unfolding sized last_name
named calls client name_token none = fatal client
named calls client name_token (some (size_token, rest)) =
    and_then (last_name name_token) (sized calls client size_token)

wait_name : Calls → Client → Option (List ℕ × List ℕ) → Run Step
unfolding named
wait_name calls client none = fatal client
wait_name calls client (some (name_token, rest)) =
    named calls client name_token (strtok is_colon rest)

receive : Calls → Client → (bytes : List ℕ) → Run Step
unfolding fatal
receive calls client bytes =
    if not calls.file_ok
    then fatal client
    else (let received = (client.file_received + length bytes) % 2 ^ 64 in
        ok (
          record client {
            file_received = received;
            state = if leb client.file_size received then file_done else client.state;
          },
          status_ok,
          save client.fd bytes ∷ [],
        ))

file_in : ClientState → Calls → Client → (buffer bytes : List ℕ) → Run Step
unfolding wait_name receive
file_in file_wait_name calls client buffer bytes =
    wait_name calls client (strtok is_colon (c_str buffer))
file_in file_receive calls client buffer bytes = receive calls client bytes
file_in _ calls client buffer bytes = ok (client, status_fin, [])

-- `bytes` are the first `bytes_read` of the buffer.
unfoldable pub receive_file : Calls → Client → (buffer bytes : List ℕ) → Run Step
unfolding file_in
receive_file calls client buffer bytes = file_in client.state calls client buffer bytes

begin : Calls → Client → (byte : ℕ) → Step
unfolding write_socket reject
begin calls client byte =
    if byte == b'1'
    then write_socket calls (record client { state = math_wait_a }) str1 status_ok
    else if byte == b'2'
    then (record client { state = file_wait_name }, status_ok, [])
    else reject calls client

dispatch : ClientState → Calls → Client → (buffer bytes : List ℕ) → Run Step
unfolding begin do_math receive_file reject
dispatch st_unassigned calls client buffer bytes = ok (begin calls client (get_or buffer 0 0))
dispatch math_wait_a calls client buffer bytes = do_math calls client buffer
dispatch math_wait_op calls client buffer bytes = do_math calls client buffer
dispatch math_wait_b calls client buffer bytes = do_math calls client buffer
dispatch math_done calls client buffer bytes = do_math calls client buffer
dispatch file_wait_name calls client buffer bytes = receive_file calls client buffer bytes
dispatch file_receive calls client buffer bytes = receive_file calls client buffer bytes
dispatch file_done calls client buffer bytes = ok (reject calls client)

-- The bytes read lie over what the stack held; `none` is a failed `read`.
unfoldable pub dostuff : Calls → (stack : List ℕ) → Option (List ℕ) → Client → Run Step
unfolding dispatch
dostuff calls stack none client = ok (client, status_fatal, [])
dostuff calls stack (some bytes) client =
    dispatch client.state calls client (bytes ++ drop (length bytes) stack) bytes
