-- ===== src/MessageServer/Clients.antt =====
-- What adding and deleting do with the clients that are registered (06/server.c).
use homework_module.Prelude.{
  take-set_next, ℕ, zero, suc, ◌+◌, ◌-◌, ◌%◌, ◌≤◌, ◌<◌, ◌≡◌, refl, ap, sym, ◌∙◌, none, some, List,
  [], ◌∷◌, ◌++◌, if◌then◌else◌, length, take, set, get_or, ok, arith, Bool-cases, Option-cases, inl,
  inr, lt→ltb, length-set, length-take,
}
use homework_module.Prelude.Int.{ℤ, pos, eqb_ℤ}
use homework_module.MessageServer.{Registry, try_add_client, find_loop, shift_loop, delete_client}

abbrev pub registered : Registry → List ℤ
registered registry = take registry.client_count registry.clients

-- The list without the first such id.
abbrev pub erase : ℤ → List ℤ → List ℤ
erase id [] = []
erase id (client ∷ clients) = if eqb_ℤ client id then clients else client ∷ erase id clients

-- With an array of 100 places and one of them free, a client is registered behind the others.
pub try_add_client-registered :
    (id : ℤ) (registry : Registry)
    → registry.client_count < length registry.clients
    → length registry.clients ≡ 100
    → (added : Registry) × (try_add_client id registry ≡ ok added)
      × (registered added ≡ registered registry ++ id ∷ [])
      × (length added.clients ≡ 100)
unfolding try_add_client
try_add_client-registered id registry room places =
    let one_more : (registry.client_count + 1) % 256 ≡ suc registry.client_count = omega arith in
    (
      record {
        clients = set registry.clients registry.client_count id;
        client_count = (registry.client_count + 1) % 256;
      },
      rw (lt→ltb registry.client_count (length registry.clients) room) refl,
      rw one_more (take-set_next registry.clients registry.client_count id room),
      length-set registry.clients registry.client_count id ∙ places,
    )

shift_loop-cons :
    (count i : ℕ) (x : ℤ) (xs : List ℤ)
    → shift_loop count (suc i) (x ∷ xs) ≡ x ∷ shift_loop count i xs
unfolding shift_loop
shift_loop-cons zero i x xs = refl
shift_loop-cons (suc count) i x xs =
    shift_loop-cons count (suc i) x (set xs i (get_or xs (suc i) (pos 0)))

-- The first `count` places behind a shift hold what stood one place further.
shift_loop-front :
    (count : ℕ) (x : ℤ) (xs : List ℤ)
    → count ≤ length xs
    → take count (shift_loop count 0 (x ∷ xs)) ≡ take count xs
unfolding shift_loop
shift_loop-front zero x xs h = refl
shift_loop-front (suc count) x [] h = absurd (omega arith)
shift_loop-front (suc count) x (y ∷ xs) h =
    ap (take (suc count)) (shift_loop-cons count 0 y (y ∷ xs))
    ∙ ap (λ q. y ∷ q) (shift_loop-front count y xs (omega arith))

abbrev erase_at : ℕ → List ℤ → List ℤ
erase_at i [] = []
erase_at zero (x ∷ xs) = xs
erase_at (suc i) (x ∷ xs) = x ∷ erase_at i xs

-- Clearing a place and shifting `rest` places behind it takes it out of the first ones.
shift_loop-erase_at :
    (idx rest total : ℕ) (xs : List ℤ)
    → total ≡ idx + rest
    → total < length xs
    → take total (shift_loop rest idx (set xs idx (pos 0))) ≡ erase_at idx (take (suc total) xs)
shift_loop-erase_at idx rest total [] e h = absurd (omega arith)
shift_loop-erase_at zero rest total (x ∷ xs) e h =
    let same : total ≡ rest = omega arith in
    rw same (shift_loop-front rest (pos 0) xs (omega arith))
shift_loop-erase_at (suc idx) rest zero (x ∷ xs) e h = absurd (omega arith)
shift_loop-erase_at (suc idx) rest (suc total) (x ∷ xs) e h =
    ap (take (suc total)) (shift_loop-cons rest idx x (set xs idx (pos 0)))
    ∙ ap (λ q. x ∷ q) (shift_loop-erase_at idx rest total xs (omega arith) (omega arith))

find_loop-erase :
    (id : ℤ) (i : ℕ) (xs : List ℤ) (k : ℕ)
    → find_loop id i xs ≡ some k
    → (j : ℕ) × (k ≡ i + j) × (j < length xs) × (erase_at j xs ≡ erase id xs)
unfolding find_loop
find_loop-erase id i [] k e = absurd (ground arith)
find_loop-erase id i (x ∷ xs) k e = elim (Bool-cases (eqb_ℤ x id)) [
  | inl t ↦ let same : i ≡ k = cc (rw t at e) in (0, omega arith, omega arith, rw t refl)
  | inr f ↦
      let (j, at, inside, erased) = find_loop-erase id (suc i) xs k (rw f at e) in
      (suc j, omega arith, omega arith, rw f (ap (λ q. x ∷ q) erased))
]

find_loop-none : (id : ℤ) (i : ℕ) (xs : List ℤ) → find_loop id i xs ≡ none → erase id xs ≡ xs
unfolding find_loop
find_loop-none id i [] e = refl
find_loop-none id i (x ∷ xs) e = elim (Bool-cases (eqb_ℤ x id)) [
  | inl t ↦ absurd (ground (arith, t))
  | inr f ↦ rw f (ap (λ q. x ∷ q) (find_loop-none id (suc i) xs (rw f at e)))
]

length-registered : (registry : Registry) → length (registered registry) ≤ registry.client_count
length-registered registry = omega (arith, length-take registry.client_count registry.clients)

delete_client-none :
    (id : ℤ) (registry : Registry)
    → find_loop id 0 (registered registry) ≡ none
    → delete_client id registry ≡ registry
unfolding delete_client
delete_client-none id registry e = rw (e, delete_client) refl

delete_client-some :
    (id : ℤ) (registry : Registry) (idx : ℕ)
    → find_loop id 0 (registered registry) ≡ some idx
    → delete_client id registry ≡ record {
      clients = shift_loop (registry.client_count - 1 - idx) idx (set registry.clients idx (pos 0));
      client_count = registry.client_count - 1;
    }
unfolding delete_client
delete_client-some id registry idx e = rw (e, delete_client) refl

-- With a count within the array, deleting an id takes its first place out of the registered ones
-- and moves the others up; an id that is not registered changes nothing.
pub delete_client-registered :
    (id : ℤ) (registry : Registry)
    → registry.client_count ≤ length registry.clients
    → registered (delete_client id registry) ≡ erase id (registered registry)
delete_client-registered id registry fits =
    elim (Option-cases (find_loop id 0 (registered registry))) [
      | inl e ↦
          ap registered (delete_client-none id registry e)
          ∙ sym (find_loop-none id 0 (registered registry) e)
      | inr (idx, e) ↦
          let (j, at, inside, erased) = find_loop-erase id 0 (registered registry) idx e in
          let same : j ≡ idx = omega arith in
          let below : idx < registry.client_count = omega (arith, length-registered registry) in
          let whole : suc (registry.client_count - 1) ≡ registry.client_count = omega arith in
          ap registered (delete_client-some id registry idx e)
          ∙ (shift_loop-erase_at idx (registry.client_count - 1 - idx) (registry.client_count - 1)
                registry.clients (omega arith) (omega arith)
              ∙ (ap (λ n. erase_at idx (take n registry.clients)) whole
                  ∙ (ap (λ n. erase_at n (registered registry)) (sym same) ∙ erased)))
    ]
