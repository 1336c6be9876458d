-- ===== src/UdpPair/Counts.antt =====
-- The counts that the server of cross1/ keeps for its clients.
use homework_module.Prelude.{
  ℕ, zero, suc, ◌+◌, ◌<◌, ◌≡◌, inl, inr, refl, ap, false, none, some, List, [], ◌∷◌, ◌++◌,
  if◌then◌else◌, length, take, get_elem?, set, arith, Bool-cases,
}
use homework_module.UdpPair.{Client, Cache, is_client, find_loop}

-- The number of the first client of this address and port; 0 where there is none.
abbrev pub messages : (ip port : ℕ) → List Client → ℕ
messages ip port [] = 0
messages ip port (client ∷ clients) =
    if is_client ip port client then client.msg_number else messages ip port clients

abbrev pub clients_of : Cache → List Client
clients_of cache = take cache.cache_size cache.client_cache

abbrev pub counted : Cache → (ip port : ℕ) → ℕ
counted cache ip port = messages ip port (clients_of cache)

abbrev pub Differ : (ip port ip' port' : ℕ) → Type 0
Differ ip port ip' port' = ip' ≡ ip → port' ≡ port → ⊥

abbrev pub numbered : Client → ℕ → Client
numbered client n = record client { msg_number = n }

-- What is known of a client that is found `k` places behind `i`.
abbrev pub IsFound : (ip port i j : ℕ) → List Client → Type 0
IsFound ip port i j clients =
    (k : ℕ) × (client : Client) × (j ≡ i + k)
    × (k < length clients)
    × (get_elem? clients k ≡ some client)
    × (messages ip port clients ≡ client.msg_number)
    × ((n : ℕ) → messages ip port (set clients k (numbered client n)) ≡ n)
    × ((n ip' port' : ℕ)
        → Differ ip port ip' port'
        → messages ip' port' (set clients k (numbered client n)) ≡ messages ip' port' clients)

pub find_loop-IsFound :
    (ip port i j : ℕ) (clients : List Client)
    → find_loop ip port i clients ≡ some j
    → IsFound ip port i j clients
unfolding find_loop
find_loop-IsFound ip port i j [] e = absurd (cc e)
find_loop-IsFound ip port i j (client ∷ clients) e = elim (Bool-cases (is_client ip port client)) [
  | inl same ↦
      let at : i ≡ j = ground (arith, e, same) in
      (
        0,
        client,
        omega (arith, at),
        omega arith,
        refl,
        rw same refl,
        λ n. rw same refl,
        λ n ip' port' differ.
            let other : is_client ip' port' client ≡ false = ground (arith, same, differ) in
            rw other refl,
      )
  | inr other ↦
      let rest : find_loop ip port (suc i) clients ≡ some j = rw other at e in
      let (k, found, at, inside, elem, number, own, others) =
        find_loop-IsFound ip port (suc i) j clients rest in
      (
        suc k,
        found,
        omega (arith, at),
        omega (arith, inside),
        elem,
        rw other number,
        λ n. rw other (own n),
        λ n ip' port' differ. ground (arith, others n ip' port' differ),
      )
]

pub find_loop-none :
    (ip port i : ℕ) (clients : List Client)
    → find_loop ip port i clients ≡ none
    → messages ip port clients ≡ 0
unfolding find_loop
find_loop-none ip port i [] e = refl
find_loop-none ip port i (client ∷ clients) e = elim (Bool-cases (is_client ip port client)) [
  | inl same ↦ absurd (ground (arith, same, e))
  | inr other ↦ rw other (find_loop-none ip port (suc i) clients (rw other at e))
]

pub messages-append_own :
    (ip port i n : ℕ) (clients : List Client)
    → find_loop ip port i clients ≡ none
    → messages ip port (clients ++ record { ip = ip; port = port; msg_number = n } ∷ []) ≡ n
unfolding find_loop
messages-append_own ip port i n [] e = ground arith
messages-append_own ip port i n (client ∷ clients) e =
    elim (Bool-cases (is_client ip port client)) [
      | inl same ↦ absurd (ground (arith, same, e))
      | inr other ↦ rw other (messages-append_own ip port (suc i) n clients (rw other at e))
    ]

pub messages-append_other :
    (ip port ip' port' n : ℕ) (clients : List Client)
    → Differ ip port ip' port'
    → messages ip' port' (clients ++ record { ip = ip; port = port; msg_number = n } ∷ [])
      ≡ messages ip' port' clients
messages-append_other ip port ip' port' n [] differ = ground (arith, differ)
messages-append_other ip port ip' port' n (client ∷ clients) differ =
    ground (arith, messages-append_other ip port ip' port' n clients differ)

pub take-set_inside :
    (xs : List Client) (n i : ℕ) (v : Client) → i < n → take n (set xs i v) ≡ set (take n xs) i v
take-set_inside [] zero i v h = refl
take-set_inside [] (suc n) i v h = refl
take-set_inside (x ∷ xs) zero i v h = absurd (omega arith)
take-set_inside (x ∷ xs) (suc n) zero v h = refl
take-set_inside (x ∷ xs) (suc n) (suc i) v h =
    ap (λ q. x ∷ q) (take-set_inside xs n i v (omega arith))

pub get_elem?-take : (xs : List Client) (n i : ℕ) → i < n → get_elem? (take n xs) i ≡ get_elem? xs i
get_elem?-take [] zero i h = absurd (omega arith)
get_elem?-take [] (suc n) i h = refl
get_elem?-take (x ∷ xs) zero i h = absurd (omega arith)
get_elem?-take (x ∷ xs) (suc n) zero h = refl
get_elem?-take (x ∷ xs) (suc n) (suc i) h = get_elem?-take xs n i (omega arith)
