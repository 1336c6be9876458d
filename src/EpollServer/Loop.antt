-- ===== src/EpollServer/Loop.antt =====
-- What the event loop of 15/server.c keeps of its table.
use homework_module.Prelude.{
  Bool, true, not, none, refl, ap, ◌∙◌, take, get_elem?-some, length-take, ℕ, zero, suc, ◌-◌, ◌≤◌,
  ◌≡◌, some, List, [], ◌∷◌, length, set, get_elem?, Run, ok, fault, out_of_fuel, and_then, arith,
  ltb, ltb→lt, length-set, Bool-cases, Option-cases, inl, inr,
}
use homework_module.EpollServer.{Client, StatusCode, Effect, Step, dostuff}
use homework_module.EpollServer.Clients.{
  Server, blank, Event, connected, ready, is_over, add_client, get_client_idx, remove_client,
  finish, handle,
}
use homework_module.EpollServer.Steps.{IsReady, Steps, may_fault, dostuff-Steps}
use homework_module.EpollServer.Table.{idx_loop-found, remove_client-found}
use homework_module.EpollServer.Search.{idx_loop-sockfd, idx_loop-set}

abbrev pub AllReady : List Client → Type 0
AllReady [] = Unit
AllReady (client ∷ clients) = IsReady client × AllReady clients

-- `nclients` stays within the array, and each place, in use or not, holds a client whose operation
-- is set where its state calls it.
abbrev pub IsTable : Server → Type 0
IsTable server = (server.nclients ≤ length server.clients) × AllReady server.clients

-- Where an event may be undefined behaviour: the table is full, the client is not known, or its
-- state is one that computes a result or names a file.
abbrev pub can_fault : Server → Event → Bool
can_fault server (connected newsockfd) = not (ltb server.nclients (length server.clients))
can_fault server (ready sockfd calls stack chunk) = elim (get_client_idx server sockfd) [
  | none ↦ true
  | some idx ↦ elim (get_elem? server.clients idx) [
    | none ↦ true
    | some client ↦ may_fault client.state
  ]
]

-- What is asked of the run of an event, and of the table behind it.
abbrev pub Keeps : (size : ℕ) (can : Bool) → Run (Server × List Effect) → Type 0
Keeps size can (ok (server, effects)) = IsTable server × (length server.clients ≡ size)
Keeps size can fault = can ≡ true
Keeps size can out_of_fuel = ⊥

AllReady-set :
    (clients : List Client) (i : ℕ) (client : Client)
    → AllReady clients
    → IsReady client
    → AllReady (set clients i client)
AllReady-set [] i client all is_ready = tt
AllReady-set (c ∷ clients) zero client (first, all) is_ready = (is_ready, all)
AllReady-set (c ∷ clients) (suc i) client (first, all) is_ready =
    (first, AllReady-set clients i client all is_ready)

AllReady-get_elem? :
    (clients : List Client) (i : ℕ) (client : Client)
    → AllReady clients
    → get_elem? clients i ≡ some client
    → IsReady client
AllReady-get_elem? [] i client all e = absurd (ground arith)
AllReady-get_elem? (c ∷ clients) zero client (first, all) e =
    let same : c ≡ client = cc e in rw same at first
AllReady-get_elem? (c ∷ clients) (suc i) client (first, all) e =
    AllReady-get_elem? clients i client all e

add_client-Keeps :
    (server : Server) (sockfd : ℕ)
    → IsTable server
    → Keeps
        (length server.clients)
        (can_fault server (connected sockfd))
        (handle server (connected sockfd))
unfolding handle add_client
add_client-Keeps server sockfd (fits, all) =
    let entry = record blank { sockfd = sockfd } in
    let same = length-set server.clients server.nclients entry in
    elim (Bool-cases (ltb server.nclients (length server.clients))) [
      | inr f ↦ rw f refl
      | inl t ↦ rw t (
        (
          omega (arith, ltb→lt server.nclients (length server.clients) t, same),
          AllReady-set server.clients server.nclients entry all (λ bad. absurd (ground arith)),
        ),
        same,
      )
    ]

-- Removing a client that is found is no fault.
remove_client-Keeps :
    (server : Server) (sockfd idx : ℕ) (effects : List Effect)
    → IsTable server
    → get_client_idx server sockfd ≡ some idx
    → (removed : Server) × (remove_client server sockfd ≡ ok removed)
      × IsTable removed
      × (length removed.clients ≡ length server.clients)
unfolding get_client_idx
remove_client-Keeps server sockfd idx effects (fits, all) found =
    let (client, held) = get_elem?-some server.clients idx (
      omega (
        arith,
        idx_loop-found sockfd 0 (take server.nclients server.clients) found,
        length-take server.nclients server.clients,
      )) in
    let same = length-set server.clients (server.nclients - 1) client in
    (
      _,
      remove_client-found server sockfd idx client found held,
      (
        omega (arith, same, fits),
        AllReady-set server.clients (server.nclients - 1) client all
            (AllReady-get_elem? server.clients idx client all held),
      ),
      same,
    )

finish-Keeps :
    (server : Server) (idx : ℕ) (client : Client) (status : StatusCode) (effects : List Effect)
    (can : Bool)
    → IsTable server
    → IsReady client
    → get_client_idx server client.sockfd ≡ some idx
    → Keeps (length server.clients) can (finish server idx (client, status, effects))
unfolding finish get_client_idx
finish-Keeps server idx client status effects can (fits, all) is_ready found =
    let same = length-set server.clients idx client in
    let stepped = record server { clients = set server.clients idx client } in
    let table : IsTable stepped =
      (omega (arith, fits, same), AllReady-set server.clients idx client all is_ready) in
    let found' =
      idx_loop-set client.sockfd 0 server.nclients server.clients idx idx client found (omega arith)
        refl in
    let (removed, run, kept, size) =
      remove_client-Keeps stepped client.sockfd idx effects table found' in
    elim (Bool-cases (is_over status)) [
      | inl t ↦ rw (t, run) (kept, size ∙ same)
      | inr f ↦ rw f (table, same)
    ]

stepped-Keeps :
    (server : Server) (idx : ℕ) (client : Client) (run : Run Step)
    → IsTable server
    → Steps client run
    → get_client_idx server client.sockfd ≡ some idx
    → Keeps (length server.clients) (may_fault client.state) (and_then run (finish server idx))
stepped-Keeps server idx client (ok (client', status, effects)) table (is_ready, edge, same) found =
    finish-Keeps server idx client' status effects (may_fault client.state) table is_ready
      (ap (get_client_idx server) same ∙ found)
stepped-Keeps server idx client fault table steps found = steps
stepped-Keeps server idx client out_of_fuel table steps found = steps

known-Keeps :
    (server : Server) (sockfd idx : ℕ) (client : Client) (run : Run Step)
    → IsTable server
    → Steps client run
    → get_client_idx server sockfd ≡ some idx
    → get_elem? server.clients idx ≡ some client
    → Keeps (length server.clients) (may_fault client.state) (and_then run (finish server idx))
unfolding get_client_idx
known-Keeps server sockfd idx client run table steps found held =
    let here =
      idx_loop-sockfd sockfd 0 server.nclients server.clients idx idx client found (omega arith)
        held in
    stepped-Keeps server idx client run table steps (ap (get_client_idx server) here ∙ found)

-- An event that is handled on a well formed table leaves a well formed table of the same size, unless
-- it is undefined behaviour, and that it is at most where the table is full, the client is not known,
-- or its state computes a result or names a file; it never runs out of fuel.
pub handle-Keeps :
    (server : Server) (event : Event)
    → IsTable server
    → Keeps (length server.clients) (can_fault server event) (handle server event)
unfolding handle
handle-Keeps server (connected sockfd) table = add_client-Keeps server sockfd table
handle-Keeps server (ready sockfd calls stack chunk) table =
    elim (Option-cases (get_client_idx server sockfd)) [
      | inl e ↦ rw (e, handle, can_fault) refl
      | inr (idx, e) ↦ elim (Option-cases (get_elem? server.clients idx)) [
        | inl e' ↦ rw (e, e', handle, can_fault) refl
        | inr (client, e') ↦
            rw (e, e', handle, can_fault)
              (known-Keeps server sockfd idx client (dostuff calls stack chunk client) table
                (dostuff-Steps calls stack chunk client
                  (AllReady-get_elem? server.clients idx client table.1 e'))
                e e')
      ]
    ]
