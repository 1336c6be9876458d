-- ===== src/EpollServer/Clients.antt =====
-- The table `clients[100]` with `nclients`, and the body of the event loop of `main` in 15/server.c.
use homework_module.Prelude.{
  ℕ, suc, ◌-◌, Bool, true, false, Option, none, some, List, [], ◌∷◌, ◌++◌, ◌==◌, ltb, if◌then◌else◌,
  length, take, set, get_elem?, Run, ok, fault, and_then,
}
use homework_module.Prelude.Int.{pos}
use homework_module.EpollServer.{
  Client, st_unassigned, StatusCode, status_ok, status_fatal, status_fin, Effect, close_fd, Calls,
  dostuff,
}

-- `clients` has 100 places.
pub record Server : Type 0 where
  pub clients : List Client
  pub nclients : ℕ

-- A client after `memset`.
abbrev pub blank : Client
blank = record {
  sockfd = 0;
  state = st_unassigned;
  math_a = pos 0;
  math_b = pos 0;
  math_op = none;
  filename = [];
  file_size = 0;
  file_received = 0;
  fd = 0;
}

-- A write behind the last place is a fault.
unfoldable pub add_client : Server → (sockfd : ℕ) → Run Server
add_client server sockfd =
    if ltb server.nclients (length server.clients)
    then ok (record {
      clients = set server.clients server.nclients (record blank { sockfd = sockfd });
      nclients = suc server.nclients;
    })
    else fault

-- The loop from `i` on, over the places that are left.
unfoldable pub idx_loop : (sockfd i : ℕ) → List Client → Option ℕ
idx_loop sockfd i [] = none
idx_loop sockfd i (client ∷ clients) =
    if client.sockfd == sockfd then some i else idx_loop sockfd (suc i) clients

-- `none` is -1.
unfoldable pub get_client_idx : Server → (sockfd : ℕ) → Option ℕ
unfolding idx_loop
get_client_idx server sockfd = idx_loop sockfd 0 (take server.nclients server.clients)

-- `memcpy(&clients[nclients - 1], &clients[idx], sizeof(Client)); nclients--`; place -1 is a fault.
unfoldable pub remove_client : Server → (sockfd : ℕ) → Run Server
unfolding get_client_idx
remove_client server sockfd = elim (get_client_idx server sockfd) [
  | none ↦ fault
  | some idx ↦ elim (get_elem? server.clients idx) [
    | none ↦ fault
    | some client ↦ ok (record {
      clients = set server.clients (server.nclients - 1) client;
      nclients = server.nclients - 1;
    })
  ]
]

-- One event of `epoll_wait`: a connection that `accept` gives, or a client with what `read` gives.
pub data Event : Type 0 where
  connected : (newsockfd : ℕ) → Event
  ready : (sockfd : ℕ) → Calls → (stack : List ℕ) → Option (List ℕ) → Event

abbrev pub is_over : StatusCode → Bool
is_over status_ok = false
is_over status_fatal = true
is_over status_fin = true

abbrev pub closed : Client → List Effect
closed client = close_fd client.sockfd ∷ (if client.fd == 0 then [] else close_fd client.fd ∷ [])

-- Behind `dostuff`, which has changed the client at `idx`.
unfoldable pub finish :
    Server → (idx : ℕ) → Client × StatusCode × List Effect → Run (Server × List Effect)
unfolding remove_client
finish server idx (client, status, effects) =
    let stepped = record server { clients = set server.clients idx client } in
    if is_over status
    then and_then (remove_client stepped client.sockfd)
        (λ removed. ok (removed, effects ++ closed client))
    else ok (stepped, effects)

unfoldable pub handle : Server → Event → Run (Server × List Effect)
unfolding add_client get_client_idx finish dostuff
handle server (connected newsockfd) =
    and_then (add_client server newsockfd) (λ added. ok (added, []))
handle server (ready sockfd calls stack chunk) = elim (get_client_idx server sockfd) [
  | none ↦ fault
  | some idx ↦ elim (get_elem? server.clients idx) [
    | none ↦ fault
    | some client ↦ and_then (dostuff calls stack chunk client) (finish server idx)
  ]
]
