-- ===== src/UdpPair.antt =====
-- cross1/server.c and cross1/client.c: a server that answers each UDP datagram with its text and
-- the number of datagrams that its sender has sent, and a client, both over raw sockets. A port is
-- the number that stands in the header in network order, an address the number of its four bytes.
pub mod Buffer
pub mod Counts
pub mod Served
pub mod Exchange
pub mod Lines
mod Examples
use homework_module.Prelude.{
  ℕ, zero, suc, ◌+◌, ◌-◌, ◌*◌, ◌/◌, ◌%◌, ◌^◌, Bool, true, false, ◌&&◌, ◌||◌, not, Option, none,
  some, List, [], ◌∷◌, ◌++◌, ◌==◌, ltb, if◌then◌else◌, length, take, drop, get_or, get_elem?, set,
  replicate, Run, ok, fault, and_then,
}
use homework_module.Prelude.Int.{pos}
use homework_module.CString.{c_str, literal}
use homework_module.CString.Number.{print_int}

abbrev pub buffer_size : ℕ
buffer_size = 4096

abbrev pub client_cache_size : ℕ
client_cache_size = 1024

pub record Client : Type 0 where
  pub ip : ℕ
  pub port : ℕ
  pub msg_number : ℕ

pub record Cache : Type 0 where
  pub client_cache : List Client
  pub cache_size : ℕ

abbrev pub is_client : (ip port : ℕ) → Client → Bool
is_client ip port client = ip == client.ip && port == client.port

-- The loop of `get_or_add` from place `i` on, over the clients in use.
unfoldable pub find_loop : (ip port i : ℕ) → List Client → Option ℕ
find_loop ip port i [] = none
find_loop ip port i (client ∷ clients) =
    if is_client ip port client then some i else find_loop ip port (suc i) clients

-- The array is not compared with its size: a client too many is written behind it.
unfoldable pub get_or_add : (ip port : ℕ) → Cache → Run (Cache × ℕ)
unfolding find_loop
get_or_add ip port cache = elim (find_loop ip port 0 (take cache.cache_size cache.client_cache)) [
  | some i ↦ ok (cache, i)
  | none ↦
      if ltb cache.cache_size client_cache_size
      then ok (
        record {
          client_cache =
              set cache.client_cache cache.cache_size
                (record { ip = ip; port = port; msg_number = 0 });
          cache_size = suc cache.cache_size;
        },
        cache.cache_size,
      )
      else fault
]

-- `client_cache[i] = client_cache[i + 1]` for the given rounds; a read behind the array is a fault.
unfoldable pub shift_loop : (rounds i : ℕ) → List Client → Run (List Client)
shift_loop zero i clients = ok clients
shift_loop (suc rounds) i clients = elim (get_elem? clients (suc i)) [
  | none ↦ fault
  | some client ↦ shift_loop rounds (suc i) (set clients i client)
]

-- `i` of the loop is declared with itself as its first value, so the loop starts anywhere: at `start`.
unfoldable pub remove_client : (start i : ℕ) → Cache → Run Cache
unfolding shift_loop
remove_client start i cache = elim (get_elem? cache.client_cache i) [
  | none ↦ fault
  | some client ↦
      and_then
        (shift_loop (cache.cache_size - start) start
          (set cache.client_cache i (record client { msg_number = 0 })))
        (λ clients. ok (record cache { client_cache = clients }))
]

-- `client_cache[idx].msg_number++`; an `int` that overflows is a fault.
unfoldable pub count_message : (idx : ℕ) → Cache → Run (Cache × ℕ)
count_message idx cache = elim (get_elem? cache.client_cache idx) [
  | none ↦ fault
  | some client ↦
      if ltb (suc client.msg_number) (2 ^ 31)
      then ok (
        record cache {
          client_cache =
              set cache.client_cache idx (record client { msg_number = suc client.msg_number });
        },
        suc client.msg_number,
      )
      else fault
]

-- Two and four bytes in network order.
abbrev pub get16 : List ℕ → (at : ℕ) → ℕ
get16 buffer at = get_or buffer at 0 * 256 + get_or buffer (at + 1) 0

abbrev pub get32 : List ℕ → (at : ℕ) → ℕ
get32 buffer at = get16 buffer at * 65536 + get16 buffer (at + 2)

abbrev pub put16 : ℕ → List ℕ
put16 n = (n / 256) ∷ n % 256 ∷ []

-- `ip_hl * 4`.
abbrev pub header_size : List ℕ → ℕ
header_size buffer = get_or buffer 0 0 % 16 * 4

-- The buffer behind a `read` of a datagram: cut to its size, with zeros behind.
unfoldable pub received : (bytes : List ℕ) → List ℕ
received bytes = take buffer_size (bytes ++ replicate buffer_size 0)

-- A UDP header of these fields, and zero as its checksum.
unfoldable pub udp_header : (source dest len : ℕ) → List ℕ
udp_header source dest len = put16 source ++ (put16 dest ++ (put16 (len % 65536) ++ 0 ∷ 0 ∷ []))

-- `strncmp(msg, "fin", 3) == 0`.
unfoldable pub asks_end : (msg : List ℕ) → Bool
asks_end (a ∷ b ∷ c ∷ _) = a == b'f' && (b == b'i' && c == b'n')
asks_end _ = false

-- The bytes of the answer: the header, then at most 4075 bytes of text, and zeros.
unfoldable pub response : (listen_port source len : ℕ) (msg : List ℕ) (number : ℕ) → List ℕ
unfolding udp_header
response listen_port source len msg number = take buffer_size (
    udp_header listen_port source (len + 16)
    ++ (take (buffer_size - 20 - 1) (c_str msg ++ 32 ∷ print_int (pos number))
        ++ replicate buffer_size 0))

-- One round of `run` on a buffer: the cache, and the answer with the address that it goes to.
unfoldable pub on_datagram :
    (listen_port start : ℕ) → Cache → (buffer : List ℕ) → Run (Cache × Option (ℕ × List ℕ))
unfolding get_or_add count_message remove_client asks_end response
on_datagram listen_port start cache buffer =
    let offset = header_size buffer in
    let source = get16 buffer offset in
    let dest = get16 buffer (offset + 2) in
    let msg = drop (offset + 8) buffer in
    if not (dest == listen_port) || source == listen_port
    then ok (cache, none)
    else and_then (get_or_add (get32 buffer 12) source cache) (λ r.
      and_then (count_message r.1 r.0) (λ q.
        if asks_end msg
        then and_then (remove_client start r.1 q.0) (λ cache'. ok (cache', none))
        else ok (
          q.0,
          some (get32 buffer 12, response listen_port source (get16 buffer (offset + 4)) msg q.1),
        )))

-- The client: `input[strcspn(input, "\n")] = '\0'`.
unfoldable pub cut_line : List ℕ → List ℕ
cut_line [] = []
cut_line (c ∷ cs) = if c == 0 || c == 10 then [] else c ∷ cut_line cs

-- `strncmp(input, "fin", 4) == 0`, for a text without its zero byte.
unfoldable pub is_fin : (input : List ℕ) → Bool
is_fin (a ∷ b ∷ c ∷ []) = a == b'f' && (b == b'i' && c == b'n')
is_fin _ = false

-- The bytes that are sent for a text: the header, the text, and zeros.
unfoldable pub request : (listen_port server_port : ℕ) (input : List ℕ) → List ℕ
unfolding udp_header
request listen_port server_port input =
    take buffer_size
      (udp_header listen_port server_port (8 + length input) ++ (input ++ replicate buffer_size 0))

-- What the client does with a line: it leaves, or sends these bytes.
unfoldable pub on_line : (listen_port server_port : ℕ) (line : List ℕ) → Option (List ℕ)
unfolding cut_line is_fin request
on_line listen_port server_port line =
    if is_fin (cut_line line) then none else some (request listen_port server_port (cut_line line))

-- The datagrams are read until one is from the server and for this port, or is empty; its text is what
-- is printed. `none`: the client waits on.
unfoldable pub wait_loop : (server_ip listen_port : ℕ) → List (List ℕ) → Option (List ℕ)
unfolding received
wait_loop server_ip listen_port [] = none
wait_loop server_ip listen_port (bytes ∷ datagrams) =
    let buffer = received bytes in
    if (get32 buffer 12 == server_ip && get16 buffer (header_size buffer + 2) == listen_port)
      || length bytes == 0
    then some (c_str (drop 28 buffer))
    else wait_loop server_ip listen_port datagrams
