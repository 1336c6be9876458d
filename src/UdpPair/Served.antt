-- ===== src/UdpPair/Served.antt =====
-- One datagram of a client, as the server of cross1/ counts and answers it.
use homework_module.Prelude.{
  ℕ, suc, ◌+◌, ◌^◌, ◌≤◌, ◌<◌, ◌≡◌, inl, inr, refl, sym, ap, ◌∙◌, true, false, Option, none, some,
  List, [], ◌∷◌, ◌++◌, ◌==◌, length, length-set, length-take, take, take-set_outside, take-set_next,
  drop, get_elem?, get_elem?-set_self, set, Run, ok, fault, out_of_fuel, and_then, arith, lt→ltb,
  Option-cases,
}
use homework_module.UdpPair.{
  Client, Cache, client_cache_size, find_loop, get_or_add, count_message, get16, get32, header_size,
  asks_end, response, on_datagram,
}
use homework_module.UdpPair.Counts.{
  messages, clients_of, counted, Differ, numbered, find_loop-IsFound, find_loop-none,
  messages-append_own, messages-append_other, take-set_inside, get_elem?-take,
}

-- The clients in use are within the array of 1024.
abbrev pub IsCache : Cache → Type 0
IsCache cache =
    (cache.cache_size ≤ client_cache_size) × (length cache.client_cache ≡ client_cache_size)

-- One client's count has grown by one, and no other's has changed.
abbrev pub IsCounted : Cache → (ip port : ℕ) → Cache → Type 0
IsCounted cache ip port cache' =
    IsCache cache'
    × (counted cache' ip port ≡ suc (counted cache ip port))
    × ((ip' port' : ℕ)
        → Differ ip port ip' port'
        → counted cache' ip' port' ≡ counted cache ip' port')

count_message-some :
    (idx : ℕ) (cache : Cache) (client : Client)
    → get_elem? cache.client_cache idx ≡ some client
    → suc client.msg_number < 2 ^ 31
    → count_message idx cache
      ≡ ok (
        record cache {
          client_cache = set cache.client_cache idx (numbered client (suc client.msg_number));
        },
        suc client.msg_number,
      )
unfolding count_message
count_message-some idx cache client e small =
    rw (e, count_message) (rw (lt→ltb (suc client.msg_number) (2 ^ 31) small) refl)

get_or_add-some :
    (ip port : ℕ) (cache : Cache) (i : ℕ)
    → find_loop ip port 0 (clients_of cache) ≡ some i
    → get_or_add ip port cache ≡ ok (cache, i)
unfolding get_or_add
get_or_add-some ip port cache i e = rw (e, get_or_add) refl

get_or_add-none :
    (ip port : ℕ) (cache : Cache)
    → find_loop ip port 0 (clients_of cache) ≡ none
    → cache.cache_size < client_cache_size
    → get_or_add ip port cache
      ≡ ok (
        record {
          client_cache =
              set cache.client_cache cache.cache_size
                (record { ip = ip; port = port; msg_number = 0 });
          cache_size = suc cache.cache_size;
        },
        cache.cache_size,
      )
unfolding get_or_add
get_or_add-none ip port cache e room =
    rw (e, get_or_add) (rw (lt→ltb cache.cache_size client_cache_size room) refl)

-- `get_or_add`, and the count.
abbrev pub serve : (ip port : ℕ) → Cache → Run (Cache × ℕ)
serve ip port cache = and_then (get_or_add ip port cache) (λ r. count_message r.1 r.0)

serve-found :
    (ip port : ℕ) (cache : Cache) (j : ℕ)
    → IsCache cache
    → find_loop ip port 0 (clients_of cache) ≡ some j
    → suc (counted cache ip port) < 2 ^ 31
    → (cache' : Cache) × (serve ip port cache ≡ ok (cache', suc (counted cache ip port)))
      × IsCounted cache ip port cache'
serve-found ip port cache j (within, places) e small =
    let (k, client, at, inside, elem, number, own, others) =
      find_loop-IsFound ip port 0 j (clients_of cache) e in
    let size = length-take cache.cache_size cache.client_cache in
    let below : j < cache.cache_size = omega (arith, at, inside, size) in
    let k_is : k ≡ j = omega (arith, at) in
    let there : get_elem? cache.client_cache j ≡ some client =
      sym (get_elem?-take cache.client_cache cache.cache_size j below)
      ∙ ap (get_elem? (clients_of cache)) (sym k_is)
      ∙ elem in
    let next = numbered client (suc client.msg_number) in
    let taken : take cache.cache_size (set cache.client_cache j next)
        ≡ set (clients_of cache) k next =
      take-set_inside cache.client_cache cache.cache_size j next below
      ∙ ap (λ q. set (clients_of cache) q next) (sym k_is) in
    (
      record cache { client_cache = set cache.client_cache j next },
      rw
          (
            get_or_add-some ip port cache j e,
            count_message-some j cache client there (omega (arith, number)),
          )
          (ap (λ n. ok (record cache { client_cache = set cache.client_cache j next }, suc n))
            (sym number)),
      (
        (within, omega (arith, length-set cache.client_cache j next)),
        ap (messages ip port) taken ∙ own (suc client.msg_number) ∙ ap suc (sym number),
        λ ip' port' differ.
            ap (messages ip' port') taken ∙ others (suc client.msg_number) ip' port' differ,
      ),
    )

serve-new :
    (ip port : ℕ) (cache : Cache)
    → IsCache cache
    → find_loop ip port 0 (clients_of cache) ≡ none
    → cache.cache_size < client_cache_size
    → (cache' : Cache) × (serve ip port cache ≡ ok (cache', suc (counted cache ip port)))
      × IsCounted cache ip port cache'
serve-new ip port cache (within, places) e room =
    let n = cache.cache_size in
    let fresh : Client = record { ip = ip; port = port; msg_number = 0 } in
    let first : Client = numbered fresh 1 in
    let added = set cache.client_cache n fresh in
    let grown : Cache = record { client_cache = added; cache_size = suc n } in
    let long = length-set cache.client_cache n fresh in
    let last : take (suc n) (set added n first) ≡ clients_of cache ++ first ∷ [] =
      take-set_next added n first (omega (arith, long))
      ∙ ap (λ q. q ++ first ∷ []) (take-set_outside cache.client_cache n n fresh (omega arith)) in
    let before = find_loop-none ip port 0 (clients_of cache) e in
    (
      record grown { client_cache = set added n first },
      rw
          (
            get_or_add-none ip port cache e room,
            count_message-some n grown fresh
                (get_elem?-set_self cache.client_cache n fresh (omega arith)) (omega arith),
          )
          (ap (λ m. ok (record grown { client_cache = set added n first }, suc m)) (sym before)),
      (
        (omega arith, omega (arith, long, length-set added n first)),
        ap (messages ip port) last
            ∙ messages-append_own ip port 0 1 (clients_of cache) e
            ∙ ap suc (sym before),
        λ ip' port' differ.
            ap (messages ip' port') last
            ∙ messages-append_other ip port ip' port' 1 (clients_of cache) differ,
      ),
    )

pub serve-IsCounted :
    (ip port : ℕ) (cache : Cache)
    → IsCache cache
    → cache.cache_size < client_cache_size
    → suc (counted cache ip port) < 2 ^ 31
    → (cache' : Cache) × (serve ip port cache ≡ ok (cache', suc (counted cache ip port)))
      × IsCounted cache ip port cache'
serve-IsCounted ip port cache is room small =
    elim (Option-cases (find_loop ip port 0 (clients_of cache))) [
      | inl e ↦ serve-new ip port cache is e room
      | inr (j, e) ↦ serve-found ip port cache j is e small
    ]

and_then_assoc :
    {A B C : Type 0} (m : Run A) (k : A → Run B) (f : B → Run C)
    → and_then m (λ a. and_then (k a) f) ≡ and_then (and_then m k) f
and_then_assoc (ok a) k f = refl
and_then_assoc fault k f = refl
and_then_assoc out_of_fuel k f = refl

-- A datagram for the server's port from another one, whose text does not begin with "fin", at a cache
-- with a free place and a count below 2 ^ 31 - 1: the sender's count, by its address and port, grows by
-- one, no other changes, and the answer goes to the sender with its text and the new count.
pub on_datagram-IsCounted :
    (listen_port start ip source : ℕ) (cache : Cache) (buffer : List ℕ)
    → IsCache cache
    → cache.cache_size < client_cache_size
    → suc (counted cache ip source) < 2 ^ 31
    → get32 buffer 12 ≡ ip
    → get16 buffer (header_size buffer) ≡ source
    → get16 buffer (header_size buffer + 2) ≡ listen_port
    → (source == listen_port) ≡ false
    → asks_end (drop (header_size buffer + 8) buffer) ≡ false
    → (cache' : Cache) × (on_datagram listen_port start cache buffer
        ≡ ok (
          cache',
          some (
            ip,
            response listen_port source
                (get16 buffer (header_size buffer + 4))
                (drop (header_size buffer + 8) buffer)
                (suc (counted cache ip source)),
          ),
        ))
      × IsCounted cache ip source cache'
unfolding on_datagram
on_datagram-IsCounted listen_port start ip source cache buffer is room small at_ip at_source at_dest
      apart goes_on =
    let (cache', e, counts) = serve-IsCounted ip source cache is room small in
    let answer : Cache × ℕ → Run (Cache × Option (ℕ × List ℕ)) = λ q. ok (
      q.0,
      some (
        ip,
        response listen_port source (get16 buffer (header_size buffer + 4))
            (drop (header_size buffer + 8) buffer) q.1,
      ),
    ) in
    let here : (listen_port == listen_port) ≡ true = ground arith in
    (
      cache',
      rw (at_ip, at_source, at_dest, here, apart, goes_on)
          (and_then_assoc (get_or_add ip source cache) (λ r. count_message r.1 r.0) answer
            ∙ ap (λ q. and_then q answer) e),
      counts,
    )
