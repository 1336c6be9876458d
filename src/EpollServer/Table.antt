-- ===== src/EpollServer/Table.antt =====
-- What the operations of the client table do with the clients that are in it (15/server.c).
use homework_module.Prelude.{
  take-set_outside, take-set_next, take-take, get_elem?-some, ℕ, zero, suc, ◌+◌, ◌-◌, ◌<◌, ◌≤◌, ◌≡◌,
  refl, sym, true, none, some, List, [], ◌∷◌, ◌++◌, ◌==◌, if◌then◌else◌, length, take, set,
  get_elem?, ok, arith, Bool-cases, inl, inr, length-take, lt→ltb,
}
use homework_module.EpollServer.{Client}
use homework_module.EpollServer.Clients.{
  Server, blank, add_client, idx_loop, get_client_idx, remove_client,
}

-- The places in use.
abbrev pub registered : Server → List Client
registered server = take server.nclients server.clients

module _ (fd : ℕ) where
  -- The place that the search finds is one of those searched.
  pub idx_loop-found :
      (i : ℕ) (cs : List Client) {k : ℕ} → idx_loop fd i cs ≡ some k → (i ≤ k) × (k < i + length cs)
  unfolding idx_loop
  idx_loop-found i [] e = absurd (ground arith)
  idx_loop-found i (c ∷ cs) e = elim (Bool-cases (c.sockfd == fd)) [
    | inl t ↦ ground (arith, t)
    | inr f ↦ let (from, to) = idx_loop-found (suc i) cs (rw f at e) in (omega arith, omega arith)
  ]

  idx_loop-append_none :
      (i : ℕ) (cs : List Client) (c : Client)
      → idx_loop fd i cs ≡ none
      → idx_loop fd i (cs ++ c ∷ []) ≡ (if c.sockfd == fd then some (i + length cs) else none)
  unfolding idx_loop
  idx_loop-append_none i [] c e = ground arith
  idx_loop-append_none i (d ∷ cs) c e = ground (arith, idx_loop-append_none (suc i) cs c)

  idx_loop-append_some :
      (i : ℕ) (cs ds : List Client) (k : ℕ)
      → idx_loop fd i cs ≡ some k
      → idx_loop fd i (cs ++ ds) ≡ some k
  unfolding idx_loop
  idx_loop-append_some i [] ds k e = absurd (ground arith)
  idx_loop-append_some i (d ∷ cs) ds k e = ground (arith, idx_loop-append_some (suc i) cs ds k)

  idx_loop-take :
      (i n : ℕ) (cs : List Client) (k : ℕ)
      → idx_loop fd i cs ≡ some k
      → k < i + n
      → idx_loop fd i (take n cs) ≡ some k
  unfolding idx_loop
  idx_loop-take i n [] k e h = absurd (ground arith)
  idx_loop-take i zero (c ∷ cs) k e h = absurd (omega (arith, idx_loop-found i (c ∷ cs) e))
  idx_loop-take i (suc n) (c ∷ cs) k e h = ground (arith, idx_loop-take (suc i) n cs k)

==_self : (n : ℕ) → (n == n) ≡ true
==_self n = ground arith

length-registered :
    (server : Server)
    → server.nclients ≤ length server.clients
    → length (registered server) ≡ server.nclients
length-registered server h = omega (arith, length-take server.nclients server.clients, h)

abbrev with_client : Server → (sockfd : ℕ) → Server
with_client server sockfd = record {
  clients = set server.clients server.nclients (record blank { sockfd = sockfd });
  nclients = suc server.nclients;
}

add_client-room :
    (server : Server) (sockfd : ℕ)
    → server.nclients < length server.clients
    → add_client server sockfd ≡ ok (with_client server sockfd)
unfolding add_client
add_client-room server sockfd room = rw (lt→ltb server.nclients (length server.clients) room) refl

pub remove_client-found :
    (server : Server) (sockfd k : ℕ) (client : Client)
    → get_client_idx server sockfd ≡ some k
    → get_elem? server.clients k ≡ some client
    → remove_client server sockfd
      ≡ ok (record {
        clients = set server.clients (server.nclients - 1) client;
        nclients = server.nclients - 1;
      })
unfolding remove_client
remove_client-found server sockfd k client found held = ground (arith, found, held)

-- With a free place, adding a client whose descriptor is not in the table appends it: its place is the
-- old `nclients`, and the places of the other clients stay.
pub add_client-get_client_idx :
    (server : Server) (sockfd : ℕ)
    → server.nclients < length server.clients
    → get_client_idx server sockfd ≡ none
    → (added : Server) × (add_client server sockfd ≡ ok added)
      × (registered added ≡ registered server ++ record blank { sockfd = sockfd } ∷ [])
      × (get_client_idx added sockfd ≡ some server.nclients)
      × ((other k : ℕ) → get_client_idx server other ≡ some k → get_client_idx added other ≡ some k)
unfolding get_client_idx
add_client-get_client_idx server sockfd room new =
    let table =
      take-set_next server.clients server.nclients (record blank { sockfd = sockfd }) room in
    (
      with_client server sockfd,
      add_client-room server sockfd room,
      table,
      rw
          (
            table,
            idx_loop-append_none sockfd 0 (registered server) (record blank { sockfd = sockfd })
                new,
            ==_self sockfd,
            length-registered server (omega arith),
          )
          (ground arith),
      λ other k held. rw table (idx_loop-append_some other 0 (registered server) _ k held),
    )

-- Removing a client that the table holds never fails, and leaves the table without its LAST client,
-- whichever client was to be removed.
pub remove_client-registered :
    (server : Server) (sockfd k : ℕ)
    → get_client_idx server sockfd ≡ some k
    → (removed : Server) × (remove_client server sockfd ≡ ok removed)
      × (registered removed ≡ take (server.nclients - 1) server.clients)
unfolding get_client_idx
remove_client-registered server sockfd k found =
    let (client, held) = get_elem?-some server.clients k (
      omega (
        arith,
        idx_loop-found sockfd 0 (registered server) found,
        length-take server.nclients server.clients,
      )) in
    (
      _,
      remove_client-found server sockfd k client found held,
      take-set_outside server.clients (server.nclients - 1) (server.nclients - 1) client
          (omega arith),
    )

-- A client that is found at a place before the last one in use is still found there after its removal.
pub remove_client-get_client_idx :
    (server : Server) (sockfd k : ℕ)
    → get_client_idx server sockfd ≡ some k
    → suc k < server.nclients
    → (removed : Server) × (remove_client server sockfd ≡ ok removed)
      × (get_client_idx removed sockfd ≡ some k)
unfolding get_client_idx
remove_client-get_client_idx server sockfd k found early =
    let (removed, run, table) = remove_client-registered server sockfd k found in
    (
      removed,
      run,
      rw (table, sym (take-take server.clients (server.nclients - 1) server.nclients (omega arith)))
          (idx_loop-take sockfd 0 (server.nclients - 1) (registered server) k found (omega arith)),
    )
