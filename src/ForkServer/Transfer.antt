-- ===== src/ForkServer/Transfer.antt =====
-- A file from the client of 13/ to the server's child.
use mathlib.Core.List.{append_assoc}
use homework_module.Prelude.{
  joined, ℕ, zero, suc, ◌+◌, ◌-◌, ◌^◌, ◌≤◌, ◌<◌, ◌≡◌, refl, ap, ◌∙◌, Bool, true, false, not, Option,
  some, List, [], ◌∷◌, ◌++◌, map, if◌then◌else◌, length, length-append, length-drop, take,
  take-whole, take-append-drop, drop, replicate, ok, arith,
}
use homework_module.Prelude.Int.{pos}
use homework_module.CString.{c_str}
use homework_module.CString.Number.{is_digit, at_end, low_bits}
use homework_module.CString.Number.Decimal.{digit-no_end, length-digits}
use homework_module.CString.Number.Size.{
  print_size, strtol-print_size, print_size-NoDelim, print_size-cons,
}
use homework_module.CString.Token.{
  NoDelim, NoDelim-append, is_end, strtok, strtok-split, strtok-whole,
}
use homework_module.EpollServer.{is_colon, last_name, storage_name}
use homework_module.ForkServer.{
  make_file, save, World, done, exited, dostuff, receive_file, named, sized, store_as, receive_loop,
  read_or_exit,
}
use homework_module.ForkServer.Sum.{bind-done, read_or_exit-done, seen}
use homework_module.ForkServer.Receive.{total, Wanted, receive_loop-saved}
use homework_module.ForkServer.Client.{buffer_size, cut_line, file_header, send_loop, send_file}
use homework_module.CString.Text.{c_str-before}

-- The blocks of a file that is sent.
send_loop-joined :
    (fuel : ℕ) (file : List ℕ)
    → length file < fuel
    → (blocks : List (List ℕ)) × (send_loop fuel file ≡ ok blocks)
      × (joined blocks ≡ file)
      × (total blocks ≡ length file)
      × ((size received : ℕ) → received + length file ≤ size → Wanted size received blocks)
unfolding send_loop
send_loop-joined zero file h = absurd (omega arith)
send_loop-joined (suc fuel) [] h = ([], refl, refl, refl, λ size received fits. tt)
send_loop-joined (suc fuel) (c ∷ cs) h =
    let rest = drop buffer_size (c ∷ cs) in
    let short : length rest ≡ length (c ∷ cs) - buffer_size = length-drop buffer_size (c ∷ cs) in
    let split = take-append-drop buffer_size (c ∷ cs) in
    let whole = length-append {0} (take buffer_size (c ∷ cs)) rest in
    let (blocks, e, join, sum, wanted) = send_loop-joined fuel rest (omega (arith, short)) in
    (
      take buffer_size (c ∷ cs) ∷ blocks,
      rw e refl,
      ap (λ q. take buffer_size (c ∷ cs) ++ q) join ∙ split,
      omega (arith, sum, whole, ap length split),
      λ size received fits. (
        omega arith,
        wanted size (received + length (take buffer_size (c ∷ cs)))
            (omega (arith, whole, ap length split)),
      ),
    )

length-print_size : (n : ℕ) → length (print_size n) ≤ 20
length-print_size n = length-digits 20 n

digit-no_colon : (c : ℕ) → is_digit c ≡ true → is_colon c ≡ false
digit-no_colon c t = ground arith

-- The header in the server's buffer.
header_text :
    (name : List ℕ) (size : ℕ) (stack : List ℕ)
    → NoDelim is_end name
    → length name ≤ 1000
    → c_str (seen stack (file_header name size)) ≡ name ++ b':' ∷ print_size size
unfolding file_header
header_text name size stack none_in short =
    let text = name ++ b':' ∷ print_size size in
    let long = length-append {0} name (b':' ∷ print_size size) in
    let fits : length text ≤ 1023 = omega (arith, long, length-print_size size) in
    let whole : take (buffer_size - 1) text ≡ text = take-whole 1023 text fits in
    let zeros = buffer_size - length text in
    let some_zeros : zeros ≡ suc (1023 - length text) = omega arith in
    let clean =
      NoDelim-append is_end name (b':' ∷ print_size size) none_in
        (refl, print_size-NoDelim is_end size digit-no_end) in
    let behind = drop (length (text ++ replicate zeros 0)) stack in
    ap (λ q. c_str (seen stack (q ++ replicate (buffer_size - length q) 0))) whole
    ∙ ap c_str (append_assoc text (replicate zeros 0) behind)
    ∙ ap (λ n. c_str (text ++ (replicate n 0 ++ behind))) some_zeros
    ∙ c_str-before text (replicate (1023 - length text) 0 ++ behind) clean

named-some :
    (name size_token rest rest' : List ℕ) (w : World)
    → strtok is_colon rest ≡ some (size_token, rest')
    → named (some (name, rest)) w ≡ sized size_token (last_name name) w
unfolding named
named-some name size_token rest rest' w e = rw (e, named) refl

store_as-some :
    (size : ℕ) (base : List ℕ) (w : World)
    → w.mkdir_ok ≡ true
    → w.open_ok ≡ true
    → store_as size (some base) w
      ≡ receive_loop size 0 w.reads
          (record w { effects = w.effects ++ make_file (storage_name w.pid base) ∷ [] })
unfolding store_as
store_as-some size base w made opened = go w.mkdir_ok w.open_ok made opened
  where
    go :
        (m o : Bool)
        → m ≡ true
        → o ≡ true
        → (if not m
            then exited w
            else if not o
            then exited w
            else receive_loop size 0 w.reads
                (record w { effects = w.effects ++ make_file (storage_name w.pid base) ∷ [] }))
          ≡ receive_loop size 0 w.reads
              (record w { effects = w.effects ++ make_file (storage_name w.pid base) ∷ [] })
    go true true p q = refl
    go false o p q = absurd (cc p)
    go true false p q = absurd (cc q)

named-header :
    (name base : List ℕ) (size : ℕ) (w : World)
    → 0 < length name
    → NoDelim is_colon name
    → last_name name ≡ ok (some base)
    → size < 2 ^ 63
    → w.mkdir_ok ≡ true
    → w.open_ok ≡ true
    → named (strtok is_colon (name ++ b':' ∷ print_size size)) w
      ≡ receive_loop size 0 w.reads
          (record w { effects = w.effects ++ make_file (storage_name w.pid base) ∷ [] })
unfolding sized
named-header [] base size w long none_in last small made opened = absurd (omega arith)
named-header (c ∷ cs) base size w long none_in last small made opened =
    let (d, ds, e) = print_size-cons size in
    let none_in_size = print_size-NoDelim is_colon size digit-no_colon in
    let token : strtok is_colon (print_size size) ≡ some (print_size size, []) =
      rw e (strtok-whole is_colon d ds (rw e at none_in_size)) in
    let same : low_bits (pos size) 64 ≡ size = omega arith in
    ap (λ q. named q w) (strtok-split is_colon c cs b':' (print_size size) none_in refl)
    ∙ named-some (c ∷ cs) (print_size size) (print_size size) [] w token
    ∙ ap (λ q. sized (print_size size) q w) last
    ∙ ap (λ q. if at_end q.1 then store_as (low_bits q.0 64) (some base) w else exited w)
        (strtol-print_size size small)
    ∙ ap (λ q. store_as q (some base) w) same
    ∙ store_as-some size base w made opened

dostuff-two :
    (stack bytes : List ℕ) (reads : List (Option (List ℕ))) (w : World)
    → w.reads ≡ some (b'2' ∷ bytes) ∷ reads
    → dostuff stack w ≡ receive_file stack (record w { reads = reads })
unfolding dostuff
dostuff-two stack bytes reads w at =
    bind-done (read_or_exit stack) _ w (seen stack (b'2' ∷ bytes)) (record w { reads = reads })
      (read_or_exit-done stack (b'2' ∷ bytes) reads w at)

-- The client sends a file under a name of 1 to 1000 bytes without a colon, a newline or a zero, and
-- the server's child reads each piece by itself. Where every call succeeds, the child makes the file,
-- named by its pid and the last component of the name, saves the blocks in their order, and these
-- make up the client's file.
pub dostuff-send_file :
    (stack line name base file : List ℕ) (reads : List (Option (List ℕ))) (w : World)
    → cut_line line ≡ name
    → 0 < length name
    → length name ≤ 1000
    → NoDelim is_end name
    → NoDelim is_colon name
    → last_name name ≡ ok (some base)
    → length file < 2 ^ 63
    → w.mkdir_ok ≡ true
    → w.open_ok ≡ true
    → w.writes ≡ []
    → (pieces : List (List ℕ)) × (blocks : List (List ℕ)) × (send_file line file ≡ ok pieces)
      × (dostuff stack (record w { reads = map some pieces ++ reads })
          ≡ done tt (record w {
            reads = reads;
            effects = w.effects ++ make_file (storage_name w.pid base) ∷ map save blocks;
          }))
      × (joined blocks ≡ file)
unfolding send_file
dostuff-send_file stack line name base file reads w cut some_name short none_in no_colon last small
      made opened ok_writes =
    let (blocks, sent, join, sum, wanted) =
      send_loop-joined (suc (length file)) file (omega arith) in
    let header = file_header name (length file) in
    let w_2 = record w { reads = some header ∷ (map some blocks ++ reads) } in
    let w_file = record w { reads = map some blocks ++ reads } in
    let w_made = record w_file {
      effects = w.effects ++ make_file (storage_name w.pid base) ∷ [];
    } in
    (
      (b'2' ∷ 0 ∷ []) ∷ header ∷ blocks,
      blocks,
      rw (sent, cut) refl,
      dostuff-two stack (0 ∷ []) (some header ∷ (map some blocks ++ reads))
            (record w { reads = map some ((b'2' ∷ 0 ∷ []) ∷ header ∷ blocks) ++ reads }) refl
          ∙ unfold receive_file in
            (bind-done (read_or_exit stack) (λ q. named (strtok is_colon (c_str q))) w_2
                (seen stack header) w_file
                (read_or_exit-done stack header (map some blocks ++ reads) w_2 refl)
              ∙ ap (λ q. named (strtok is_colon q) w_file)
                  (header_text name (length file) stack none_in short)
              ∙ named-header name base (length file) w_file some_name no_colon last small made
                  opened
              ∙ (receive_loop-saved (length file) 0 blocks reads w_made
                    (wanted (length file) 0 (omega arith)) (omega (arith, sum)) ok_writes).0
                  (omega (arith, sum))
              ∙ ap (λ q. done tt (record w { reads = reads; effects = q }))
                  (append_assoc w.effects (make_file (storage_name w.pid base) ∷ [])
                    (map save blocks))),
      join,
    )
