-- ===== src/EpollServer/Upload.antt =====
-- Receiving a file in 15/server.c, over the chunks that arrive for it.
use homework_module.Prelude.{
  ℕ, ◌+◌, ◌≤◌, ◌<◌, ◌≡◌, refl, ap, true, false, some, List, [], ◌∷◌, ◌++◌, map, ◌^◌, ◌%◌, leb,
  length, ok, arith,
}
use homework_module.EpollServer.{
  Client, file_receive, file_done, status_ok, status_fatal, reply, save, Calls, dostuff,
  receive_file, reject, dispatch, file_in, receive, not_found,
}
use homework_module.EpollServer.Session.{Turn, play}

leb-false : (a b : ℕ) → b < a → leb a b ≡ false
leb-false a b h = ground arith

le→leb : (a b : ℕ) → a ≤ b → leb a b ≡ true
le→leb a b h = ground arith

abbrev pub total : List (List ℕ) → ℕ
total [] = 0
total (chunk ∷ chunks) = length chunk + total chunks

dostuff-part :
    (calls : Calls) (stack chunk : List ℕ) (client : Client)
    → calls.file_ok ≡ true
    → client.state ≡ file_receive
    → client.file_received + length chunk < client.file_size
    → client.file_size ≤ 2 ^ 64
    → dostuff calls stack (some chunk) client
      ≡ ok (
        record client { file_received = client.file_received + length chunk },
        status_ok,
        save client.fd chunk ∷ [],
      )
unfolding dostuff dispatch receive_file file_in receive
dostuff-part calls stack chunk client file_ok at part fits =
    let below : (client.file_received + length chunk) % 2 ^ 64
        ≡ client.file_received + length chunk =
      omega arith in
    rw (at, file_ok, below, leb-false client.file_size (client.file_received + length chunk) part)
      refl

dostuff-all :
    (calls : Calls) (stack chunk : List ℕ) (client : Client)
    → calls.file_ok ≡ true
    → client.state ≡ file_receive
    → client.file_size ≤ client.file_received + length chunk
    → client.file_received + length chunk < 2 ^ 64
    → dostuff calls stack (some chunk) client
      ≡ ok (
        record client { file_received = client.file_received + length chunk; state = file_done },
        status_ok,
        save client.fd chunk ∷ [],
      )
unfolding dostuff dispatch receive_file file_in receive
dostuff-all calls stack chunk client file_ok at all fits =
    let below : (client.file_received + length chunk) % 2 ^ 64
        ≡ client.file_received + length chunk =
      omega arith in
    rw (at, file_ok, below, le→leb client.file_size (client.file_received + length chunk) all) refl

dostuff-done :
    (calls : Calls) (stack chunk : List ℕ) (client : Client)
    → calls.socket_ok ≡ true
    → client.state ≡ file_done
    → dostuff calls stack (some chunk) client
      ≡ ok (client, status_fatal, reply client.sockfd not_found ∷ [])
unfolding dostuff dispatch reject
dostuff-done calls stack chunk client socket_ok at = rw (at, socket_ok) refl

sums : (a b c d : ℕ) → (a + b) + (c + d) ≡ a + ((b + c) + d)
sums a b c d = omega arith

abbrev turn_of : Calls → (stack chunk : List ℕ) → Turn
turn_of calls stack chunk = (calls, stack, chunk)

-- Where the file and the socket work and the sizes stay below 2 ^ 64, a client that receives a file
-- writes every chunk to it, in order and unchanged, until the chunk that brings the announced size;
-- the event behind that one is answered with an error and is fatal.
pub play-file :
    (calls : Calls) (stack : List ℕ) (chunks : List (List ℕ)) (last next : List ℕ) (client : Client)
    → calls.file_ok ≡ true
    → calls.socket_ok ≡ true
    → client.state ≡ file_receive
    → client.file_received + total chunks < client.file_size
    → client.file_size ≤ client.file_received + (total chunks + length last)
    → client.file_received + (total chunks + length last) < 2 ^ 64
    → play
        (map (turn_of calls stack) chunks ++ (calls, stack, last) ∷ (calls, stack, next) ∷ [])
        client
      ≡ ok (
        record client {
          file_received = client.file_received + (total chunks + length last);
          state = file_done;
        },
        status_fatal,
        map (save client.fd) chunks ++ save client.fd last ∷ reply client.sockfd not_found ∷ [],
      )
play-file calls stack [] last next client file_ok socket_ok at part all fits =
    rw
      (
        dostuff-all calls stack last client file_ok at (omega arith) (omega arith),
        dostuff-done calls stack next
            (record client {
              file_received = client.file_received + length last;
              state = file_done;
            })
            socket_ok refl,
      )
      (ap
        (λ q. ok (
          record client { file_received = q; state = file_done },
          status_fatal,
          save client.fd last ∷ reply client.sockfd not_found ∷ [],
        ))
        (omega arith))
play-file calls stack (chunk ∷ chunks) last next client file_ok socket_ok at part all fits =
    let client' = record client { file_received = client.file_received + length chunk } in
    rw
      (
        dostuff-part calls stack chunk client file_ok at (omega arith) (omega arith),
        play-file calls stack chunks last next client' file_ok socket_ok at (omega arith)
            (omega arith) (omega arith),
      )
      (ap
        (λ q. ok (
          record client { file_received = q; state = file_done },
          status_fatal,
          save client.fd chunk
              ∷ (map (save client.fd) chunks
                  ++ save client.fd last ∷ reply client.sockfd not_found ∷ []),
        ))
        (sums client.file_received (length chunk) (total chunks) (length last)))
