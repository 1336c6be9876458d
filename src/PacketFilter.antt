-- ===== src/PacketFilter.antt =====
-- 14/main.c: a filter that writes the UDP packets between two addresses to a file and shows their
-- bytes. An address is the number of its four bytes.
pub mod Dump
pub mod Packet
pub mod Matches
mod Examples
use homework_module.Prelude.{
  ℕ, zero, suc, ◌+◌, ◌-◌, ◌*◌, ◌/◌, Bool, true, false, ◌&&◌, ◌||◌, not, none, some, List, [], ◌∷◌,
  ◌++◌, map, ◌==◌, ltb, leb, if◌then◌else◌, length, take, get_or, get_elem?, replicate, Run, ok,
  fault, out_of_fuel, and_then,
}
use homework_module.Prelude.Int.{ℤ, pos, negsuc}

abbrev pub buffer_size : ℕ
buffer_size = 1024

abbrev pub byte_pair : List ℕ → (at : ℕ) → ℕ
byte_pair buffer at = get_or buffer at 0 * 256 + get_or buffer (at + 1) 0

-- `src_ip` and `dest_ip`.
abbrev pub address_at : (at : ℕ) → List ℕ → ℕ
address_at at buffer = byte_pair buffer at * 65536 + byte_pair buffer (at + 2)

-- The condition of `continue`, where 0 stands for every address.
abbrev pub is_other : (required ip : ℕ) → Bool
is_other required ip = not (ip == required) && not (required == 0)

unfoldable pub skips : (required_src required_dest : ℕ) → (buffer : List ℕ) → Bool
skips required_src required_dest buffer =
    is_other required_src (address_at 12 buffer) || is_other required_dest (address_at 16 buffer)

-- `buffer[i]` for `count` places from `at` on; a place behind the array is a fault.
unfoldable pub row_loop : (count at : ℕ) → (buffer : List ℕ) → Run (List ℕ)
row_loop zero at buffer = ok []
row_loop (suc count) at buffer = elim (get_elem? buffer at) [
  | none ↦ fault
  | some c ↦ and_then (row_loop count (suc at) buffer) (λ cs. ok (c ∷ cs))
]

-- The rows of 16 bytes from row `i` on.
unfoldable pub rows_loop : (count i : ℕ) → (buffer : List ℕ) → Run (List (List ℕ))
unfolding row_loop
rows_loop zero i buffer = ok []
rows_loop (suc count) i buffer =
    and_then (row_loop 16 (i * 16) buffer)
      (λ row. and_then (rows_loop count (suc i) buffer) (λ rows. ok (row ∷ rows)))

-- `isprint(c) ? c : '.'`.
abbrev pub printable : ℕ → ℕ
printable c = if leb 32 c && leb c 126 then c else 46

-- The loop over the data from `byte_id` on.
unfoldable pub data_loop : (fuel byte_id length bytes_read : ℕ) → (buffer : List ℕ) → Run (List ℕ)
data_loop zero byte_id length bytes_read buffer = out_of_fuel
data_loop (suc fuel) byte_id length bytes_read buffer =
    let more = data_loop fuel (suc byte_id) length bytes_read buffer in
    if ltb byte_id length && ltb byte_id bytes_read
    then (elim (get_elem? buffer byte_id) [
      | none ↦ fault
      | some c ↦ and_then more (λ cs. ok (c ∷ cs))
    ])
    else ok []

-- What is printed of a packet: its size, the rows as bytes and as text, the ports and the data.
pub record Shown : Type 0 where
  pub size : ℕ
  pub rows : List (List ℕ)
  pub texts : List (List ℕ)
  pub source_port : ℕ
  pub dest_port : ℕ
  pub payload : List ℕ

abbrev pub shown_of :
    (bytes_read : ℕ) → (buffer : List ℕ) → (rows : List (List ℕ)) → (payload : List ℕ) → Shown
shown_of bytes_read buffer rows payload = record {
  size = bytes_read;
  rows = rows;
  texts = map (map printable) rows;
  source_port = byte_pair buffer 20;
  dest_port = byte_pair buffer 22;
  payload = payload;
}

-- `length` is read in the order of the machine, the low byte first; the ports are turned by `ntohs`.
unfoldable pub show : (bytes_read : ℕ) → (buffer : List ℕ) → Run Shown
unfolding rows_loop data_loop
show bytes_read buffer =
    let length = get_or buffer 24 0 + get_or buffer 25 0 * 256 in
    and_then (rows_loop (bytes_read / 16 + 1) 0 buffer) (λ rows.
      and_then (data_loop (suc bytes_read) 28 length bytes_read buffer)
        (λ payload. ok (shown_of bytes_read buffer rows payload)))

-- The buffer behind a `recvfrom`, which keeps at most 1023 bytes.
abbrev pub kept : (packet : List ℕ) → List ℕ
kept packet = take (buffer_size - 1) packet

unfoldable pub received : (packet : List ℕ) → List ℕ
received packet = kept packet ++ replicate (buffer_size - length (kept packet)) 0

-- A round for each packet with whether the `write` works: the status, the file and what is shown. A
-- packet without a byte ends the loop, as an error does behind the last one.
unfoldable pub run :
    (required_src required_dest : ℕ)
    → List (Bool × List ℕ)
    → (file : List ℕ) → Run (ℤ × List ℕ × List Shown)
unfolding skips show received
run required_src required_dest [] file = ok (pos 0, file, [])
run required_src required_dest ((write_ok, []) ∷ packets) file = ok (pos 0, file, [])
run required_src required_dest ((write_ok, c ∷ packet) ∷ packets) file =
    let next = run required_src required_dest packets in
    let buffer = received (c ∷ packet) in
    if skips required_src required_dest buffer
    then next file
    else if not write_ok
    then ok (negsuc 0, file, [])
    else and_then (show (length (kept (c ∷ packet))) buffer)
        (λ shown. and_then (next (file ++ kept (c ∷ packet))) (λ r. ok (r.0, r.1, shown ∷ r.2)))
