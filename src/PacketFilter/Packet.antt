-- ===== src/PacketFilter/Packet.antt =====
-- What 14/main.c shows of one packet in its buffer.
use homework_module.Prelude.{
  joined, ℕ, zero, suc, ◌+◌, ◌-◌, ◌*◌, ◌/◌, ◌%◌, ◌≤◌, min, ◌≡◌, refl, ap, ◌∙◌, List, [], ◌∷◌, ◌++◌,
  map, length, length-append, length-replicate, take, drop, get_or, replicate, ok, arith,
}
use homework_module.PacketFilter.{
  buffer_size, address_at, rows_loop, data_loop, printable, Shown, shown_of, show,
}
use homework_module.PacketFilter.Dump.{AreRows, rows_loop-drop, data_loop-drop}

-- The length of the UDP header, read with the low byte first.
abbrev pub turned_length : (packet : List ℕ) → ℕ
turned_length packet = get_or packet 24 0 + get_or packet 25 0 * 256

abbrev pub IsShown : (packet : List ℕ) → Shown → Type 0
IsShown packet shown =
    (shown.size ≡ length packet)
    × AreRows shown.rows
    × (joined shown.rows ≡ packet ++ replicate (16 - length packet % 16) 0)
    × (shown.texts ≡ map (map printable) shown.rows)
    × (shown.payload ≡ take (min (turned_length packet) (length packet) - 28) (drop 28 packet))

get_or-replicate : (m i : ℕ) → get_or {A = ℕ} (replicate m 0) i 0 ≡ 0
get_or-replicate zero i = refl
get_or-replicate (suc m) zero = refl
get_or-replicate (suc m) (suc i) = get_or-replicate m i

get_or-append :
    (packet : List ℕ) (m i : ℕ) → get_or (packet ++ replicate m 0) i 0 ≡ get_or packet i 0
get_or-append [] m i = get_or-replicate m i
get_or-append (c ∷ packet) m zero = refl
get_or-append (c ∷ packet) m (suc i) = get_or-append packet m i

pub address_at-append :
    (at : ℕ) (packet : List ℕ) (m : ℕ)
    → address_at at (packet ++ replicate m 0) ≡ address_at at packet
address_at-append at packet m =
    rw
      (
        get_or-append packet m at,
        get_or-append packet m (at + 1),
        get_or-append packet m (at + 2),
        get_or-append packet m (at + 2 + 1),
      )
      refl

take-replicate : (k m : ℕ) → k ≤ m → take {A = ℕ} k (replicate m 0) ≡ replicate k 0
take-replicate zero m h = refl
take-replicate (suc k) zero h = absurd (omega arith)
take-replicate (suc k) (suc m) h = ap (λ q. 0 ∷ q) (take-replicate k m (omega arith))

take-padded :
    (packet : List ℕ) (k m : ℕ)
    → k ≤ m
    → take (length packet + k) (packet ++ replicate m 0) ≡ packet ++ replicate k 0
take-padded [] k m h = ap (λ n. take n (replicate m 0)) (omega arith) ∙ take-replicate k m h
take-padded (c ∷ packet) k m h =
    let same : length (c ∷ packet) + k ≡ suc (length packet + k) = omega arith in
    ap (λ n. take n (c ∷ (packet ++ replicate m 0))) same
    ∙ ap (λ q. c ∷ q) (take-padded packet k m h)

take-within :
    (n : ℕ) (packet : List ℕ) (m i : ℕ)
    → n + i ≤ length packet
    → take n (drop i (packet ++ replicate m 0)) ≡ take n (drop i packet)
take-within zero packet m i h = refl
take-within (suc n) [] m i h = absurd (omega arith)
take-within (suc n) (c ∷ packet) m zero h =
    ap (λ q. c ∷ q) (take-within n packet m zero (omega arith))
take-within (suc n) (c ∷ packet) m (suc i) h = take-within (suc n) packet m i (omega arith)

show-ok :
    (bytes_read : ℕ) (buffer : List ℕ) (rows : List (List ℕ)) (payload : List ℕ)
    → rows_loop (bytes_read / 16 + 1) 0 buffer ≡ ok rows
    → data_loop (suc bytes_read) 28 (turned_length buffer) bytes_read buffer ≡ ok payload
    → show bytes_read buffer ≡ ok (shown_of bytes_read buffer rows payload)
unfolding show
show-ok bytes_read buffer rows payload e f = rw (e, f) refl

take-within_rest :
    (k : ℕ) (packet : List ℕ) (m i : ℕ)
    → k ≤ length packet - i
    → take k (drop i (packet ++ replicate m 0)) ≡ take k (drop i packet)
take-within_rest zero packet m i h = refl
take-within_rest (suc k) packet m i h = take-within (suc k) packet m i (omega arith)

-- A packet of at most 1023 bytes in the buffer.
pub show-IsShown :
    (packet : List ℕ)
    → length packet ≤ 1023
    → (shown : Shown) × (show (length packet) (packet ++ replicate (buffer_size - length packet) 0)
        ≡ ok shown)
      × IsShown packet shown
show-IsShown packet short =
    let n = length packet in
    let m = buffer_size - n in
    let buffer = packet ++ replicate m 0 in
    let long = length-append {0} packet (replicate m 0) in
    let whole : length buffer ≡ 1024 = omega (arith, long, length-replicate {A = ℕ} m 0) in
    let (rows, e, are, join) = rows_loop-drop (n / 16 + 1) 0 buffer (omega (arith, whole)) in
    let f =
      data_loop-drop n 28 (turned_length buffer) n buffer (omega arith) (omega (arith, whole)) in
    let upto : (n / 16 + 1) * 16 ≡ n + (16 - n % 16) = omega arith in
    let turned : turned_length buffer ≡ turned_length packet =
      rw (get_or-append packet m 24, get_or-append packet m 25) refl in
    let upto_end : min (turned_length packet) n - 28 ≤ n - 28 = omega arith in
    (
      shown_of n buffer rows (take (min (turned_length buffer) n - 28) (drop 28 buffer)),
      show-ok n buffer rows _ e f,
      (
        refl,
        are,
        join ∙ ap (λ k. take k buffer) upto ∙ take-padded packet (16 - n % 16) m (omega arith),
        refl,
        ap (λ k. take (min k n - 28) (drop 28 buffer)) turned
            ∙ take-within_rest (min (turned_length packet) n - 28) packet m 28 upto_end,
      ),
    )
