-- ===== src/UdpPair/Lines.antt =====
-- What becomes of a line that is typed at the client of cross1/.
use homework_module.Prelude.{
  ℕ, suc, ◌+◌, ◌%◌, ◌^◌, ◌≤◌, ◌<◌, ◌≡◌, ◌≢◌, refl, ap, ◌∙◌, Bool, true, false, ◌||◌, Option, none,
  some, List, [], ◌∷◌, ◌++◌, ◌==◌, length, drop, Run, ok, fault, out_of_fuel, and_then, arith,
}
use homework_module.Prelude.Int.{pos}
use homework_module.CString.Number.{print_int}
use homework_module.CString.Token.{NoDelim, is_end}
use homework_module.UdpPair.{
  Cache, client_cache_size, get16, get32, header_size, received, asks_end, is_fin, cut_line,
  response, get_or_add, count_message, remove_client, on_datagram, on_line, request, udp_header,
  wait_loop,
}
use homework_module.UdpPair.Counts.{counted}
use homework_module.UdpPair.Served.{IsCache, IsCounted, on_datagram-IsCounted}
use homework_module.UdpPair.Exchange.{
  ip_header, HoldsText, request_text, wait_loop-response, c_str-HoldsText, asks_end-append,
  two_bytes, four_bytes, header_size-five,
}

-- A byte that ends a line.
abbrev pub ends_line : ℕ → Bool
ends_line c = c == 0 || c == 10

cut_line-line : (text rest : List ℕ) → NoDelim ends_line text → cut_line (text ++ 10 ∷ rest) ≡ text
unfolding cut_line
cut_line-line [] rest none_in = refl
cut_line-line (c ∷ text) rest (f, none_in) =
    rw f (ap (λ q. c ∷ q) (cut_line-line text rest none_in))

ends_line-is_end : (text : List ℕ) → NoDelim ends_line text → NoDelim is_end text
ends_line-is_end [] none_in = tt
ends_line-is_end (c ∷ text) (f, none_in) = (ground arith, ends_line-is_end text none_in)

on_line-request :
    (client_port server_port : ℕ) (text : List ℕ)
    → NoDelim ends_line text
    → is_fin text ≡ false
    → on_line client_port server_port (text ++ 10 ∷ [])
      ≡ some (request client_port server_port text)
unfolding on_line
on_line-request client_port server_port text none_in goes_on =
    rw (cut_line-line text [] none_in, goes_on) refl

asks_end-is_fin : (text : List ℕ) → asks_end text ≡ false → is_fin text ≡ false
unfolding asks_end is_fin
asks_end-is_fin [] e = refl
asks_end-is_fin (a ∷ []) e = refl
asks_end-is_fin (a ∷ b ∷ []) e = refl
asks_end-is_fin (a ∷ b ∷ c ∷ []) e = e
asks_end-is_fin (a ∷ b ∷ c ∷ d ∷ text) e = refl

-- A client's line, and the datagram with it as it lies in the server's buffer.
module _ (first : ℕ) (f : ℕ → ℕ) (five : first % 16 ≡ 5) (client_ip client_port : ℕ)
    (server_ip server_port : ℕ) (text : List ℕ) (short : length text ≤ 255)
    (none_in : NoDelim ends_line text) where
  abbrev pub arrived : List ℕ
  arrived = received (ip_header first f client_ip server_ip ++ request client_port server_port text)

  arrived_size : header_size arrived ≡ 20
  unfolding received
  arrived_size = header_size-five first five

  arrived_ip : get32 arrived 12 ≡ client_ip
  unfolding received
  arrived_ip = four_bytes client_ip

  arrived_source : get16 arrived (header_size arrived) ≡ client_port
  arrived_source =
      ap (get16 arrived) arrived_size ∙ unfold received request udp_header in two_bytes client_port

  arrived_dest : get16 arrived (header_size arrived + 2) ≡ server_port
  arrived_dest =
      ap (λ q. get16 arrived (q + 2)) arrived_size
      ∙ unfold received request udp_header in two_bytes server_port

  arrived_text : HoldsText text (drop (header_size arrived + 8) arrived)
  arrived_text =
      let (rest, e) = request_text first f client_ip server_ip client_port server_port text short in
      (rest, ap (λ q. drop (q + 8) arrived) arrived_size ∙ e)

  arrived_end : asks_end (drop (header_size arrived + 8) arrived) ≡ asks_end text
  arrived_end = ap asks_end arrived_text.1 ∙ asks_end-append text arrived_text.0

-- A line at the client, of at most 255 bytes without a zero, that does not begin with "fin": the client
-- sends it. The server, at a cache with a free place and a count below 2 ^ 31 - 1 for this client,
-- answers it to the client's address, and of the server's counts exactly this client's grows, by one.
-- The client takes the answer and prints the line, a blank and the new count. Both IP headers have 20
-- bytes, the addresses and the ports are those of the two, and the ports differ.
pub wait_loop-on_datagram :
    (first first' : ℕ) (f f' : ℕ → ℕ) (client_ip client_port server_ip server_port start : ℕ)
    (text : List ℕ) (cache : Cache)
    → first % 16 ≡ 5
    → first' % 16 ≡ 5
    → (client_port == server_port) ≡ false
    → length text ≤ 255
    → NoDelim ends_line text
    → asks_end text ≡ false
    → IsCache cache
    → cache.cache_size < client_cache_size
    → suc (counted cache client_ip client_port) < 2 ^ 31
    → (sent : List ℕ) × (cache' : Cache) × (answer : List ℕ) × (on_line client_port server_port
          (text ++ 10 ∷ [])
        ≡ some sent)
      × (on_datagram server_port start cache
            (received (ip_header first f client_ip server_ip ++ sent))
          ≡ ok (cache', some (client_ip, answer)))
      × IsCounted cache client_ip client_port cache'
      × (wait_loop server_ip client_port ((ip_header first' f' server_ip client_ip ++ answer) ∷ [])
          ≡ some (text ++ 32 ∷ print_int (pos (suc (counted cache client_ip client_port)))))
wait_loop-on_datagram first first' f f' client_ip client_port server_ip server_port start text cache
      five five' apart short none_in goes_on is room small =
    let buffer =
      arrived first f five client_ip client_port server_ip server_port text short none_in in
    let size = header_size buffer in
    let number = suc (counted cache client_ip client_port) in
    let (cache', e, counts) =
      on_datagram-IsCounted server_port start client_ip client_port cache buffer is room small
        (arrived_ip first f five client_ip client_port server_ip server_port text short none_in)
        (arrived_source first f five client_ip client_port server_ip server_port text short none_in)
        (arrived_dest first f five client_ip client_port server_ip server_port text short none_in)
        apart
        (arrived_end first f five client_ip client_port server_ip server_port text short none_in
          ∙ goes_on) in
    (
      request client_port server_port text,
      cache',
      response server_port client_port (get16 buffer (size + 4)) (drop (size + 8) buffer) number,
      on_line-request client_port server_port text none_in (asks_end-is_fin text goes_on),
      e,
      counts,
      wait_loop-response first' f' server_ip client_ip server_port client_port
          (get16 buffer (size + 4)) (drop (size + 8) buffer) text number five'
          (c_str-HoldsText text (drop (size + 8) buffer) (ends_line-is_end text none_in) (
            arrived_text first f five client_ip client_port server_ip server_port text short
              none_in))
          (ends_line-is_end text none_in) short,
    )

abbrev Answer : Type 0
Answer = Cache × Option (ℕ × List ℕ)

no_answer :
    (A : Run (Cache × ℕ)) (k : Cache × ℕ → Run (Cache × ℕ)) (l : Cache × ℕ → Cache × ℕ → Run Cache)
    (cache' : Cache) (answer : ℕ × List ℕ)
    → and_then {B = Answer} A
        (λ r. and_then {B = Answer} (k r) (λ q. and_then {B = Answer} (l r q) (λ c. ok (c, none))))
      ≢ ok (cache', some answer)
no_answer (ok r) k l cache' answer e = go (k r) e
  where
    go :
        (B : Run (Cache × ℕ))
        → and_then {B = Answer} B (λ q. and_then {B = Answer} (l r q) (λ c. ok (c, none)))
          ≡ ok (cache', some answer)
        → ⊥
    go (ok q) e = last (l r q) e
      where
        last :
            (C : Run Cache)
            → and_then {B = Answer} C (λ c. ok (c, none)) ≡ ok (cache', some answer)
            → ⊥
        last (ok c) e = cc e
        last fault e = cc e
        last out_of_fuel e = cc e
    go fault e = cc e
    go out_of_fuel e = cc e
no_answer fault k l cache' answer e = cc e
no_answer out_of_fuel k l cache' answer e = cc e

-- A line that begins with "fin" and goes on, such as "finish": the client sends it and waits, and the
-- server, whatever its cache, sends no answer.
pub on_datagram-unanswered :
    (first : ℕ) (f : ℕ → ℕ) (client_ip client_port server_ip server_port start : ℕ) (text : List ℕ)
    (cache : Cache)
    → first % 16 ≡ 5
    → (client_port == server_port) ≡ false
    → length text ≤ 255
    → NoDelim ends_line text
    → asks_end text ≡ true
    → is_fin text ≡ false
    → (sent : List ℕ) × (on_line client_port server_port (text ++ 10 ∷ []) ≡ some sent)
      × ((cache' : Cache) (answer : ℕ × List ℕ)
          → on_datagram server_port start cache
              (received (ip_header first f client_ip server_ip ++ sent))
            ≢ ok (cache', some answer))
unfolding on_datagram
on_datagram-unanswered first f client_ip client_port server_ip server_port start text cache five
      apart short none_in ends goes_on =
    let here : (server_port == server_port) ≡ true = ground arith in
    let ended =
      arrived_end first f five client_ip client_port server_ip server_port text short none_in
      ∙ ends in
    let source =
      arrived_source first f five client_ip client_port server_ip server_port text short none_in in
    let dest =
      arrived_dest first f five client_ip client_port server_ip server_port text short none_in in
    (
      request client_port server_port text,
      on_line-request client_port server_port text none_in goes_on,
      λ cache' answer.
          rw (source, dest, here, apart, ended)
            (no_answer
              (get_or_add
                (get32
                  (arrived first f five client_ip client_port server_ip server_port text short
                    none_in)
                  12)
                client_port cache)
              (λ r. count_message r.1 r.0) (λ r q. remove_client start r.1 q.0) cache' answer),
    )
