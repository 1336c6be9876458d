-- ===== src/UdpPair/Examples.antt =====
-- A first line "hi", and the line "finish", at a server without clients.
use homework_module.Prelude.{
  ℕ, ◌≡◌, ◌≢◌, refl, some, List, [], ◌∷◌, ◌++◌, length-replicate, replicate, ok, arith,
}
use homework_module.CString.{literal}
use homework_module.CString.Number.{print_int}
use homework_module.UdpPair.{
  Client, Cache, received, asks_end, is_fin, on_datagram, on_line, wait_loop,
}
use homework_module.UdpPair.Served.{IsCounted}
use homework_module.UdpPair.Exchange.{ip_header}
use homework_module.UdpPair.Lines.{wait_loop-on_datagram, on_datagram-unanswered}

abbrev empty : Cache
empty = record {
  client_cache = replicate 1024 (record { ip = 0; port = 0; msg_number = 0 });
  cache_size = 0;
}

abbrev zeros : ℕ → ℕ
zeros _ = 0

wait_loop-on_datagram_example :
    (sent : List ℕ) × (cache' : Cache) × (answer : List ℕ) × (on_line 4000 5000
        (literal "hi" ++ 10 ∷ [])
      ≡ some sent)
    × (on_datagram 5000 0 empty (received (ip_header 69 zeros 1 2 ++ sent))
        ≡ ok (cache', some (1, answer)))
    × IsCounted empty 1 4000 cache'
    × (wait_loop 2 4000 ((ip_header 69 zeros 2 1 ++ answer) ∷ []) ≡ some (literal "hi 1"))
unfolding print_int
wait_loop-on_datagram_example =
    wait_loop-on_datagram 69 69 zeros zeros 1 4000 2 5000 0 (literal "hi") empty refl refl refl
      (omega arith) (refl, (refl, tt)) (unfold asks_end in refl)
      (
        omega arith,
        length-replicate {A = Client} 1024 (record { ip = 0; port = 0; msg_number = 0 }),
      )
      (omega arith) (omega arith)

on_datagram-unanswered_example :
    (sent : List ℕ) × (on_line 4000 5000 (literal "finish" ++ 10 ∷ []) ≡ some sent)
    × ((cache' : Cache) (answer : ℕ × List ℕ)
        → on_datagram 5000 0 empty (received (ip_header 69 zeros 1 2 ++ sent))
          ≢ ok (cache', some answer))
on_datagram-unanswered_example =
    on_datagram-unanswered 69 zeros 1 4000 2 5000 0 (literal "finish") empty refl refl (omega arith)
      (refl, (refl, (refl, (refl, (refl, (refl, tt)))))) (unfold asks_end in refl)
      (unfold is_fin in refl)
