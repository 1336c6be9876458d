-- ===== src/EpollServer/Steps.antt =====
-- The state machine of one client of 15/server.c, as a relation, and what `dostuff` keeps of a client.
use homework_module.Prelude.{
  ℕ, ◌+◌, ◌≡◌, ◌≢◌, refl, ◌%◌, ◌^◌, leb, ◌==◌, Option-cases, ap, get_or, ◌&&◌, Bool, true, false,
  ◌⊎◌, inl, inr, Option, none, some, List, [], ◌∷◌, ◌++◌, is_some, length, Run, ok, fault,
  out_of_fuel, and_then, arith, Bool-cases,
}
use homework_module.EpollServer.{
  Client, ClientState, st_unassigned, math_wait_a, math_wait_op, math_wait_b, math_done,
  file_wait_name, file_receive, file_done, StatusCode, status_ok, status_fatal, status_fin, Effect,
  Calls, Step, dostuff, do_math, receive_file, reject, write_socket, answer, operation_of, choose,
  begin, dispatch, math_in, file_in, receive, open_file, sized, named, wait_name, fatal, is_divide,
  is_colon, zero_division, str1, str2, str3,
}
use homework_module.Prelude.Int.{ℤ, is_zero}
use homework_module.EpollServer.Arithmetic.{Operation, call, call-ends}
use homework_module.CString.{c_str}
use homework_module.CString.Number.{atoi, print_int, at_end, strtol}
use homework_module.CString.Token.{strtok}
use homework_module.EpollServer.Storage.{last_name-IsPlain}

-- One step of a client, with the status that it returns.
pub data Edge : ClientState → StatusCode → ClientState → Type 0 where
  -- Every error that leaves the state as it is.
  failed : (st : ClientState) → Edge st status_fatal st
  to_math : (status : StatusCode) → status ≢ status_fin → Edge st_unassigned status math_wait_a
  to_file : Edge st_unassigned status_ok file_wait_name
  got_a : (status : StatusCode) → status ≢ status_fin → Edge math_wait_a status math_wait_op
  got_op : (status : StatusCode) → status ≢ status_fin → Edge math_wait_op status math_wait_b
  answered : (status : StatusCode) → status ≢ status_ok → Edge math_wait_b status math_done
  again : (status : StatusCode) → status ≢ status_ok → Edge math_done status math_done
  got_name : Edge file_wait_name status_ok file_receive
  got_part : Edge file_receive status_ok file_receive
  got_all : Edge file_receive status_ok file_done

abbrev pub needs_op : ClientState → Bool
needs_op math_wait_b = true
needs_op math_done = true
needs_op _ = false

-- The operation is set in the states that call it.
abbrev pub IsReady : Client → Type 0
IsReady client = needs_op client.state ≡ true → is_some client.math_op ≡ true

-- Where undefined behaviour is left: a result that no `int` holds, and the NULL name of a file.
abbrev pub may_fault : ClientState → Bool
may_fault math_wait_b = true
may_fault math_done = true
may_fault file_wait_name = true
may_fault _ = false

abbrev pub Steps : Client → Run Step → Type 0
Steps client (ok (client', status, effects)) =
    IsReady client' × Edge client.state status client'.state × (client'.sockfd ≡ client.sockfd)
Steps client fault = may_fault client.state ≡ true
Steps client out_of_fuel = ⊥

failed-Steps :
    (client : Client) (effects : List Effect)
    → IsReady client
    → Steps client (ok (client, status_fatal, effects))
failed-Steps client effects is_ready = (is_ready, failed client.state, refl)

-- A reply ends the step with its status, or with a fatal one.
write_socket-Steps :
    (calls : Calls) (from to : Client) (bytes : List ℕ) (told : StatusCode)
    → IsReady to
    → to.sockfd ≡ from.sockfd
    → Edge from.state told to.state
    → Edge from.state status_fatal to.state
    → Steps from (ok (write_socket calls to bytes told))
unfolding write_socket
write_socket-Steps calls from to bytes told is_ready same fine bad =
    elim (Bool-cases calls.socket_ok) [
      | inl t ↦ rw t (is_ready, fine, same)
      | inr f ↦ rw f (is_ready, bad, same)
    ]

called-Steps :
    (result : Run ℤ) (calls : Calls) (from to : Client)
    → result ≢ out_of_fuel
    → may_fault from.state ≡ true
    → IsReady to
    → to.sockfd ≡ from.sockfd
    → ((status : StatusCode) → status ≢ status_ok → Edge from.state status to.state)
    → Steps from
        (and_then result (λ n. ok (write_socket calls to (print_int n ++ 10 ∷ []) status_fin)))
called-Steps (ok n) calls from to ends may is_ready same edge =
    write_socket-Steps calls from to (print_int n ++ 10 ∷ []) status_fin is_ready same
      (edge status_fin (ground arith)) (edge status_fatal (ground arith))
called-Steps fault calls from to ends may is_ready same edge = may
called-Steps out_of_fuel calls from to ends may is_ready same edge = ends refl

answer-Steps :
    (op : Option Operation) (calls : Calls) (from to : Client)
    → is_some op ≡ true
    → may_fault from.state ≡ true
    → IsReady to
    → to.sockfd ≡ from.sockfd
    → ((status : StatusCode) → status ≢ status_ok → Edge from.state status to.state)
    → Steps from (answer op calls to)
unfolding answer
answer-Steps none calls from to given may is_ready same edge = absurd (ground arith)
answer-Steps (some op) calls from to given may is_ready same edge =
    elim (Bool-cases (is_divide op && is_zero to.math_b)) [
      | inl t ↦ rw t (
          write_socket-Steps calls from to zero_division status_fin is_ready same
            (edge status_fin (ground arith)) (edge status_fatal (ground arith)))
      | inr f ↦ rw f (
          called-Steps (call op to.math_a to.math_b) calls from to
            (call-ends op to.math_a to.math_b) may is_ready same edge)
    ]

abbrev is_math : ClientState → Bool
is_math math_wait_a = true
is_math math_wait_op = true
is_math math_wait_b = true
is_math math_done = true
is_math _ = false

choose-Steps :
    (op : Option Operation) (calls : Calls) (client : Client)
    → client.state ≡ math_wait_op
    → IsReady client
    → Steps client (ok (choose op calls client))
unfolding choose
choose-Steps none calls client at is_ready = failed-Steps client [] is_ready
choose-Steps (some op) calls client at is_ready =
    write_socket-Steps calls client (record client { math_op = some op; state = math_wait_b }) str2
      status_ok (λ _. refl) refl (rw at (got_op status_ok (ground arith)))
      (rw at (got_op status_fatal (ground arith)))

math_in-Steps :
    (st : ClientState) (calls : Calls) (client : Client) (buffer : List ℕ)
    → client.state ≡ st
    → is_math st ≡ true
    → IsReady client
    → Steps client (math_in st calls client buffer)
unfolding math_in
math_in-Steps math_wait_a calls client buffer at math is_ready =
    write_socket-Steps calls client (record client { math_a = atoi buffer; state = math_wait_op })
      str3 status_ok (λ e. absurd (ground arith)) refl (rw at (got_a status_ok (ground arith)))
      (rw at (got_a status_fatal (ground arith)))
math_in-Steps math_wait_op calls client buffer at math is_ready =
    choose-Steps (operation_of (get_or buffer 0 0)) calls client at is_ready
math_in-Steps math_wait_b calls client buffer at math is_ready =
    let given = is_ready (ap needs_op at) in
    answer-Steps client.math_op calls client
      (record client { math_b = atoi buffer; state = math_done }) given (ap may_fault at)
      (λ _. given) refl (λ status over. rw at (answered status over))
math_in-Steps math_done calls client buffer at math is_ready =
    answer-Steps client.math_op calls client client (is_ready (ap needs_op at)) (ap may_fault at)
      is_ready refl (λ status over. rw at (again status over))
math_in-Steps _ calls client buffer at math is_ready = absurd (ground arith)

open_file-Steps :
    (calls : Calls) (client : Client) (size : ℕ) (name : Option (List ℕ))
    → client.state ≡ file_wait_name
    → IsReady client
    → Steps client (open_file calls client size name)
unfolding open_file fatal
open_file-Steps calls client size none at is_ready = elim (Bool-cases calls.mkdir_ok) [
  | inl t ↦ rw t (ap may_fault at)
  | inr f ↦ rw f (failed-Steps client [] is_ready)
]
open_file-Steps calls client size (some name) at is_ready = elim (Bool-cases calls.mkdir_ok) [
  | inl t ↦ elim (Option-cases calls.opened) [
    | inl e ↦ rw (t, e) (failed-Steps client [] is_ready)
    | inr (fd, e) ↦ rw (t, e) ((λ bad. absurd (ground arith)), rw at got_name, refl)
  ]
  | inr f ↦ rw f (failed-Steps client [] is_ready)
]

sized-Steps :
    (calls : Calls) (client : Client) (size_token : List ℕ) (name : Option (List ℕ))
    → client.state ≡ file_wait_name
    → IsReady client
    → Steps client (sized calls client size_token name)
unfolding sized fatal
sized-Steps calls client size_token name at is_ready =
    elim (Bool-cases (at_end (strtol size_token).1)) [
      | inl t ↦ rw t (open_file-Steps calls client _ name at is_ready)
      | inr f ↦ rw f (failed-Steps client [] is_ready)
    ]

named-Steps :
    (calls : Calls) (client : Client) (name_token : List ℕ) (size : Option (List ℕ × List ℕ))
    → client.state ≡ file_wait_name
    → IsReady client
    → Steps client (named calls client name_token size)
unfolding named fatal
named-Steps calls client name_token none at is_ready = failed-Steps client [] is_ready
named-Steps calls client name_token (some (size_token, rest)) at is_ready =
    let (name, found, plain) = last_name-IsPlain name_token in
    rw found (sized-Steps calls client size_token name at is_ready)

wait_name-Steps :
    (calls : Calls) (client : Client) (name : Option (List ℕ × List ℕ))
    → client.state ≡ file_wait_name
    → IsReady client
    → Steps client (wait_name calls client name)
unfolding wait_name fatal
wait_name-Steps calls client none at is_ready = failed-Steps client [] is_ready
wait_name-Steps calls client (some (name_token, rest)) at is_ready =
    named-Steps calls client name_token (strtok is_colon rest) at is_ready

receive-Steps :
    (calls : Calls) (client : Client) (bytes : List ℕ)
    → client.state ≡ file_receive
    → IsReady client
    → Steps client (receive calls client bytes)
unfolding receive fatal
receive-Steps calls client bytes at is_ready = elim (Bool-cases calls.file_ok) [
  | inr f ↦ rw f (failed-Steps client [] is_ready)
  | inl t ↦
      elim (Bool-cases (leb client.file_size ((client.file_received + length bytes) % 2 ^ 64))) [
        | inl all ↦ rw (t, all) ((λ bad. absurd (ground arith)), rw at got_all, refl)
        | inr part ↦ rw (t, part) (is_ready, rw at got_part, refl)
      ]
]

file_in-Steps :
    (st : ClientState) (calls : Calls) (client : Client) (buffer bytes : List ℕ)
    → client.state ≡ st
    → (st ≡ file_wait_name) ⊎ (st ≡ file_receive)
    → IsReady client
    → Steps client (file_in st calls client buffer bytes)
unfolding file_in
file_in-Steps file_wait_name calls client buffer bytes at is_file is_ready =
    wait_name-Steps calls client (strtok is_colon (c_str buffer)) at is_ready
file_in-Steps file_receive calls client buffer bytes at is_file is_ready =
    receive-Steps calls client bytes at is_ready
file_in-Steps _ calls client buffer bytes at is_file is_ready = absurd (ground arith)

reject-Steps :
    (calls : Calls) (client : Client) → IsReady client → Steps client (ok (reject calls client))
unfolding reject
reject-Steps calls client is_ready = (is_ready, failed client.state, refl)

begin-Steps :
    (calls : Calls) (client : Client) (byte : ℕ)
    → client.state ≡ st_unassigned
    → IsReady client
    → Steps client (ok (begin calls client byte))
unfolding begin
begin-Steps calls client byte at is_ready = elim (Bool-cases (byte == b'1')) [
  | inl one ↦ rw one (
      write_socket-Steps calls client (record client { state = math_wait_a }) str1 status_ok
        (λ bad. absurd (ground arith)) refl (rw at (to_math status_ok (ground arith)))
        (rw at (to_math status_fatal (ground arith))))
  | inr not_one ↦ elim (Bool-cases (byte == b'2')) [
    | inl two ↦ rw (not_one, two) ((λ bad. absurd (ground arith)), rw at to_file, refl)
    | inr not_two ↦ rw (not_one, not_two) (reject-Steps calls client is_ready)
  ]
]

dispatch-Steps :
    (st : ClientState) (calls : Calls) (client : Client) (buffer bytes : List ℕ)
    → client.state ≡ st
    → IsReady client
    → Steps client (dispatch st calls client buffer bytes)
unfolding dispatch do_math receive_file
dispatch-Steps st_unassigned calls client buffer bytes at is_ready =
    begin-Steps calls client (get_or buffer 0 0) at is_ready
dispatch-Steps file_wait_name calls client buffer bytes at is_ready =
    file_in-Steps client.state calls client buffer bytes refl (inl at) is_ready
dispatch-Steps file_receive calls client buffer bytes at is_ready =
    file_in-Steps client.state calls client buffer bytes refl (inr at) is_ready
dispatch-Steps file_done calls client buffer bytes at is_ready = reject-Steps calls client is_ready
dispatch-Steps math_wait_a calls client buffer bytes at is_ready =
    math_in-Steps client.state calls client buffer refl (ap is_math at) is_ready
dispatch-Steps math_wait_op calls client buffer bytes at is_ready =
    math_in-Steps client.state calls client buffer refl (ap is_math at) is_ready
dispatch-Steps math_wait_b calls client buffer bytes at is_ready =
    math_in-Steps client.state calls client buffer refl (ap is_math at) is_ready
dispatch-Steps math_done calls client buffer bytes at is_ready =
    math_in-Steps client.state calls client buffer refl (ap is_math at) is_ready

-- On a client whose operation is set where its state calls it, a step ends, keeps that and the
-- socket, and moves the client along the state machine; it is undefined behaviour at most where a
-- result is computed or a file's name is made.
pub dostuff-Steps :
    (calls : Calls) (stack : List ℕ) (chunk : Option (List ℕ)) (client : Client)
    → IsReady client
    → Steps client (dostuff calls stack chunk client)
unfolding dostuff
dostuff-Steps calls stack none client is_ready = failed-Steps client [] is_ready
dostuff-Steps calls stack (some bytes) client is_ready =
    dispatch-Steps client.state calls client _ bytes refl is_ready
