-- ===== src/EpollServer/Search.antt =====
-- The search of 15/server.c for a client by its descriptor.
use homework_module.Prelude.{
  ℕ, zero, suc, ◌+◌, ◌≡◌, ◌==◌, some, List, [], ◌∷◌, set, take, get_elem?, arith, Bool-cases, inl,
  inr,
}
use homework_module.EpollServer.{Client}
use homework_module.EpollServer.Clients.{idx_loop}
use homework_module.EpollServer.Table.{idx_loop-found}

module _ (fd : ℕ) where
  -- The client that is found has the descriptor.
  pub idx_loop-sockfd :
      (i n : ℕ) (clients : List Client) (k j : ℕ) (client : Client)
      → idx_loop fd i (take n clients) ≡ some k
      → k ≡ i + j
      → get_elem? clients j ≡ some client
      → client.sockfd ≡ fd
  unfolding idx_loop
  idx_loop-sockfd i zero clients k j client e at held = absurd (ground arith)
  idx_loop-sockfd i (suc n) [] k j client e at held = absurd (ground arith)
  idx_loop-sockfd i (suc n) (c ∷ clients) k zero client e at held =
      elim (Bool-cases (c.sockfd == fd)) [
        | inl t ↦
            let same : c ≡ client = cc held in
            let here : c.sockfd ≡ fd = ground (arith, t) in rw same at here
        | inr f ↦
            let (from, to) = idx_loop-found fd (suc i) (take n clients) (rw f at e) in
            absurd (omega arith)
      ]
  idx_loop-sockfd i (suc n) (c ∷ clients) k (suc j) client e at held =
      elim (Bool-cases (c.sockfd == fd)) [
        | inl t ↦ absurd (ground (arith, t))
        | inr f ↦ idx_loop-sockfd (suc i) n clients k j client (rw f at e) (omega arith) held
      ]

  -- Putting a client with the descriptor in its place changes nothing of the search.
  pub idx_loop-set :
      (i n : ℕ) (clients : List Client) (k j : ℕ) (client : Client)
      → idx_loop fd i (take n clients) ≡ some k
      → k ≡ i + j
      → client.sockfd ≡ fd
      → idx_loop fd i (take n (set clients j client)) ≡ some k
  unfolding idx_loop
  idx_loop-set i zero clients k j client e at here = absurd (ground arith)
  idx_loop-set i (suc n) [] k j client e at here = absurd (ground arith)
  idx_loop-set i (suc n) (c ∷ clients) k zero client e at here = ground (arith, here, at)
  idx_loop-set i (suc n) (c ∷ clients) k (suc j) client e at here =
      elim (Bool-cases (c.sockfd == fd)) [
        | inl t ↦ absurd (ground (arith, t))
        | inr f ↦ rw f (idx_loop-set (suc i) n clients k j client (rw f at e) (omega arith) here)
      ]
