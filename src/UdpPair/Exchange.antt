-- ===== src/UdpPair/Exchange.antt =====
-- A line of the client of cross1/, from the client to the server and back.
use homework_module.Prelude.{
  ℕ, zero, suc, ◌+◌, ◌*◌, ◌/◌, ◌%◌, ◌≤◌, ◌<◌, ◌≡◌, refl, ap, ◌∙◌, true, some, List, [], ◌∷◌, ◌++◌,
  ◌==◌, length, length-append, take, take-whole, drop, replicate, arith,
}
use mathlib.Core.List.{append_assoc}
use homework_module.Prelude.Int.{pos}
use homework_module.CString.{c_str}
use homework_module.CString.Number.{print_int}
use homework_module.CString.Number.Decimal.{length-print_int, print_int-NoDelim, digit-no_end}
use homework_module.CString.Token.{NoDelim, NoDelim-append, is_end}
use homework_module.UdpPair.{
  buffer_size, put16, get16, get32, header_size, received, udp_header, asks_end, response, request,
  wait_loop,
}
use homework_module.UdpPair.Buffer.{take-text, c_str-text}

abbrev pub put32 : ℕ → List ℕ
put32 n = put16 (n / 65536) ++ put16 (n % 65536)

-- An IP header of 20 bytes: its first byte, the bytes `f 1` to `f 11`, and the two addresses.
abbrev pub ip_header : (first : ℕ) (f : ℕ → ℕ) (source dest : ℕ) → List ℕ
ip_header first f source dest =
    first
    ∷ f 1
    ∷ f 2
    ∷ f 3
    ∷ f 4
    ∷ f 5
    ∷ f 6
    ∷ f 7
    ∷ f 8
    ∷ f 9
    ∷ f 10
    ∷ f 11
    ∷ (put32 source ++ put32 dest)

-- Bytes with zeros behind them hold a text.
abbrev pub HoldsText : List ℕ → List ℕ → Type 0
HoldsText text bytes = (rest : List ℕ) × (bytes ≡ text ++ 0 ∷ rest)

cut-HoldsText :
    (n : ℕ) (text bytes more : List ℕ)
    → length text < n
    → HoldsText text bytes
    → HoldsText text (take n (bytes ++ more))
cut-HoldsText n text bytes more h (rest, e) =
    let (rest', cut) = take-text n text (rest ++ more) h in
    (rest', ap (λ q. take n (q ++ more)) e ∙ ap (take n) (append_assoc text (0 ∷ rest) more) ∙ cut)

take-HoldsText :
    (n : ℕ) (text bytes : List ℕ)
    → length text < n
    → HoldsText text bytes
    → HoldsText text (take n bytes)
take-HoldsText n text bytes h (rest, e) =
    let (rest', cut) = take-text n text rest h in (rest', ap (take n) e ∙ cut)

zeros-HoldsText : (text : List ℕ) (n : ℕ) → 0 < n → HoldsText text (text ++ replicate n 0)
zeros-HoldsText text zero h = absurd (omega arith)
zeros-HoldsText text (suc n) h = (replicate n 0, refl)

-- The text behind the two headers of a client's datagram, in the server's buffer.
pub request_text :
    (first : ℕ) (f : ℕ → ℕ) (source dest listen_port server_port : ℕ) (text : List ℕ)
    → length text ≤ 255
    → HoldsText text
        (drop 28 (received (ip_header first f source dest ++ request listen_port server_port text)))
unfolding received request udp_header
request_text first f source dest listen_port server_port text short =
    cut-HoldsText 4068 text (take 4088 (text ++ replicate buffer_size 0)) (replicate buffer_size 0)
      (omega arith)
      (take-HoldsText 4088 text (text ++ replicate buffer_size 0) (omega arith)
        (zeros-HoldsText text buffer_size (omega arith)))

pub c_str-HoldsText :
    (text bytes : List ℕ) → NoDelim is_end text → HoldsText text bytes → c_str bytes ≡ text
c_str-HoldsText text bytes none_in (rest, e) = ap c_str e ∙ c_str-text text rest none_in

pub asks_end-append : (text rest : List ℕ) → asks_end (text ++ 0 ∷ rest) ≡ asks_end text
unfolding asks_end
asks_end-append [] [] = refl
asks_end-append [] (a ∷ []) = refl
asks_end-append [] (a ∷ b ∷ rest) = refl
asks_end-append (a ∷ []) [] = refl
asks_end-append (a ∷ []) (b ∷ rest) = ground arith
asks_end-append (a ∷ b ∷ []) rest = ground arith
asks_end-append (a ∷ b ∷ c ∷ text) rest = refl

-- The text of an answer, in the client's buffer.
response_text :
    (first : ℕ) (f : ℕ → ℕ) (source dest server_port listen_port len : ℕ) (msg text : List ℕ)
    (number : ℕ)
    → c_str msg ≡ text
    → length text ≤ 255
    → HoldsText (text ++ 32 ∷ print_int (pos number)) (
        drop 28 (
          received
            (ip_header first f source dest ++ response server_port listen_port len msg number)))
unfolding received response udp_header
response_text first f source dest server_port listen_port len msg text number said short =
    let told = text ++ 32 ∷ print_int (pos number) in
    let long = length-append {0} text (32 ∷ print_int (pos number)) in
    let fits : length told ≤ 4075 = omega (arith, long, length-print_int (pos number)) in
    let written : take 4075 (c_str msg ++ 32 ∷ print_int (pos number)) ≡ told =
      ap (λ q. take 4075 (q ++ 32 ∷ print_int (pos number))) said ∙ take-whole 4075 told fits in
    rw written (
      cut-HoldsText 4068 told (take 4088 (told ++ replicate buffer_size 0))
        (replicate buffer_size 0) (omega (arith, long, length-print_int (pos number)))
        (take-HoldsText 4088 told (told ++ replicate buffer_size 0)
          (omega (arith, long, length-print_int (pos number)))
          (zeros-HoldsText told buffer_size (omega arith))))

pub same-port : (a b : ℕ) → a ≡ b → (a == b) ≡ true
same-port a b e = ground arith

wait_loop-one :
    (server_ip listen_port : ℕ) (bytes : List ℕ)
    → get32 (received bytes) 12 ≡ server_ip
    → get16 (received bytes) (header_size (received bytes) + 2) ≡ listen_port
    → wait_loop server_ip listen_port (bytes ∷ []) ≡ some (c_str (drop 28 (received bytes)))
unfolding wait_loop
wait_loop-one server_ip listen_port bytes from_server to_port =
    rw
      (
        same-port (get32 (received bytes) 12) server_ip from_server,
        same-port (get16 (received bytes) (header_size (received bytes) + 2)) listen_port to_port,
      )
      refl

pub two_bytes : (n : ℕ) → n / 256 * 256 + n % 256 ≡ n
two_bytes n = omega arith

pub four_bytes :
    (n : ℕ)
    → (n / 65536 / 256 * 256 + n / 65536 % 256) * 65536 + (n % 65536 / 256 * 256 + n % 65536 % 256)
      ≡ n
four_bytes n = omega arith

pub header_size-five : (first : ℕ) → first % 16 ≡ 5 → first % 16 * 4 ≡ 20
header_size-five first five = omega arith

-- The client takes this answer, and prints its text.
pub wait_loop-response :
    (first : ℕ) (f : ℕ → ℕ) (source dest server_port listen_port len : ℕ) (msg text : List ℕ)
    (number : ℕ)
    → first % 16 ≡ 5
    → c_str msg ≡ text
    → NoDelim is_end text
    → length text ≤ 255
    → wait_loop source listen_port
        ((ip_header first f source dest ++ response server_port listen_port len msg number) ∷ [])
      ≡ some (text ++ 32 ∷ print_int (pos number))
unfolding received
wait_loop-response first f source dest server_port listen_port len msg text number five said none_in
      short =
    let bytes = ip_header first f source dest ++ response server_port listen_port len msg number in
    let size : header_size (received bytes) ≡ 20 = header_size-five first five in
    let told : c_str (drop 28 (received bytes)) ≡ text ++ 32 ∷ print_int (pos number) =
      c_str-HoldsText (text ++ 32 ∷ print_int (pos number)) (drop 28 (received bytes))
        (NoDelim-append is_end text (32 ∷ print_int (pos number)) none_in
          (refl, print_int-NoDelim is_end (pos number) digit-no_end refl))
        (response_text first f source dest server_port listen_port len msg text number said
          short) in
    wait_loop-one source listen_port bytes (four_bytes source) (
      ap (λ q. get16 (received bytes) (q + 2)) size
      ∙ unfold response udp_header in two_bytes listen_port)
    ∙ ap some told
