-- ===== src/MessageServer.antt =====
-- 06/server.c: a chat server over a System V message queue, with a registry of the clients' ids.
pub mod Clients
pub mod Broadcast
pub mod Requests
mod Examples
use homework_module.Prelude.{
  ℕ, zero, suc, ◌+◌, ◌-◌, ◌%◌, Bool, true, false, Option, none, some, List, [], ◌∷◌, ◌++◌, ◌==◌,
  ltb, if◌then◌else◌, length, take, set, get_or, replicate, Run, ok, fault, and_then,
}
use homework_module.Prelude.Int.{ℤ, pos, eqb_ℤ, is_zero}
use homework_module.CString.{c_str, strncpy, strcmp, literal}
use homework_module.CString.Number.{strtol, at_end}
use homework_module.CString.Token.{strtok}

abbrev pub text_max : ℕ
text_max = 1024

abbrev pub handshake_mtype : ℕ
handshake_mtype = 11

-- `clients` has 100 places; `client_count` is a byte.
pub record Registry : Type 0 where
  pub clients : List ℤ
  pub client_count : ℕ

pub record Message : Type 0 where
  pub type : ℤ
  pub text : List ℕ

abbrev is_colon : ℕ → Bool
is_colon c = c == b':'

-- `strncpy` of at most `TEXT_MAX` bytes, with the last one set to zero.
abbrev pub copied : (source : List ℕ) → List ℕ
copied source = set (strncpy (replicate text_max 0) source text_max) (text_max - 1) 0

-- -1, 0 with no text written, and 1 with a text.
pub data Parsed : Type 0 where
  parse_failed : Parsed
  no_text : (id : ℤ) → Parsed
  with_text : (id : ℤ) (text : List ℕ) → Parsed

parsed_text : (id : ℤ) → Option (List ℕ × List ℕ) → Parsed
parsed_text id none = no_text id
parsed_text id (some (token, rest)) = with_text id (copied token)

-- `strtol` of a NULL token is a fault.
unfoldable pub try_parse_message : Message → Run Parsed
unfolding parsed_text
try_parse_message rcv = elim (strtok is_colon (c_str (copied rcv.text))) [
  | none ↦ fault
  | some (token, rest) ↦
      if at_end (strtol token).1
      then ok (parsed_text (strtol token).0 (strtok is_colon rest))
      else ok parse_failed
]

-- A write behind the last place is a fault.
unfoldable pub try_add_client : (id : ℤ) → Registry → Run Registry
try_add_client id registry =
    if ltb registry.client_count (length registry.clients)
    then ok (record {
      clients = set registry.clients registry.client_count id;
      client_count = (registry.client_count + 1) % 256;
    })
    else fault

-- The first of these places that holds the id, counted from `i`.
unfoldable pub find_loop : (id : ℤ) (i : ℕ) → List ℤ → Option ℕ
find_loop id i [] = none
find_loop id i (client ∷ clients) = if eqb_ℤ client id then some i else find_loop id (suc i) clients

-- `count` rounds of `clients[i] = clients[i + 1]`, from `i` on.
unfoldable pub shift_loop : (count i : ℕ) → List ℤ → List ℤ
shift_loop zero i clients = clients
shift_loop (suc count) i clients =
    shift_loop count (suc i) (set clients i (get_or clients (suc i) (pos 0)))

unfoldable pub delete_client : (id : ℤ) → Registry → Registry
unfolding find_loop shift_loop
delete_client id registry = elim (find_loop id 0 (take registry.client_count registry.clients)) [
  | none ↦ registry
  | some idx ↦ record {
    clients = shift_loop (registry.client_count - 1 - idx) idx (set registry.clients idx (pos 0));
    client_count = registry.client_count - 1;
  }
]

-- `sent i` tells whether the sending number `i` works. `false` is -1.
unfoldable pub broadcast_loop :
    (sent : ℕ → Bool) (i : ℕ) (client_id : ℤ) (text : List ℕ) → List ℤ → Bool × List Message
broadcast_loop sent i client_id text [] = (true, [])
broadcast_loop sent i client_id text (client ∷ clients) =
    let (done, messages) = broadcast_loop sent (suc i) client_id text clients in
    if eqb_ℤ client client_id
    then (done, messages)
    else if sent i
    then (
      done,
      record { type = client; text = strncpy (replicate text_max 0) text text_max } ∷ messages,
    )
    else (false, [])

unfoldable pub broadcast_message :
    (sent : ℕ → Bool) (client_id : ℤ) (text : List ℕ) → Registry → Bool × List Message
unfolding broadcast_loop
broadcast_message sent client_id text registry =
    broadcast_loop sent 0 client_id text (take registry.client_count registry.clients)

-- The registry, whether `listen` goes on, and the messages sent.
abbrev pub Handled : Type 0
Handled = Registry × Bool × List Message

abbrev is_handshake : ℤ → Bool
is_handshake mtype = eqb_ℤ mtype (pos handshake_mtype)

-- Behind the parsing: a handshake, the end of a client, or a text for the others, which is sent as
-- it was received.
handle_text : (sent : ℕ → Bool) → Message → (id : ℤ) (text : List ℕ) → Registry → Run Handled
unfolding try_add_client delete_client broadcast_message
handle_text sent rcv id text registry =
    if is_handshake rcv.type
    then and_then (try_add_client id registry) (λ added. ok (added, true, []))
    else if is_zero (strcmp text (literal "shutdown"))
    then ok (delete_client id registry, true, [])
    else (let (done, messages) = broadcast_message sent id rcv.text registry in
        ok (registry, done, messages))

-- Where no text was read, `stack` is what the local `text` holds.
handle_parsed : (sent : ℕ → Bool) (stack : List ℕ) → Message → Parsed → Registry → Run Handled
unfolding handle_text
handle_parsed sent stack rcv parse_failed registry = ok (registry, true, [])
handle_parsed sent stack rcv (no_text id) registry = handle_text sent rcv id stack registry
handle_parsed sent stack rcv (with_text id text) registry = handle_text sent rcv id text registry

-- One round of `listen`, with the message that `msgrcv` gives.
unfoldable pub handle : (sent : ℕ → Bool) (stack : List ℕ) → Message → Registry → Run Handled
unfolding handle_parsed try_parse_message
handle sent stack rcv registry =
    and_then (try_parse_message rcv) (λ parsed. handle_parsed sent stack rcv parsed registry)
