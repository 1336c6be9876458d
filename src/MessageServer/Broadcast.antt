-- ===== src/MessageServer/Broadcast.antt =====
-- Whom `broadcast_message` of 06/server.c sends a text to.
use homework_module.Prelude.{
  ℕ, suc, ◌≡◌, refl, Bool, true, List, [], ◌∷◌, map, replicate, if◌then◌else◌, Bool-cases, inl, inr,
}
use homework_module.Prelude.Int.{ℤ, eqb_ℤ}
use homework_module.CString.{strncpy}
use homework_module.MessageServer.{Registry, Message, text_max, broadcast_loop, broadcast_message}
use homework_module.MessageServer.Clients.{registered}

-- The clients but this one.
abbrev pub others : ℤ → List ℤ → List ℤ
others id [] = []
others id (client ∷ clients) =
    if eqb_ℤ client id then others id clients else client ∷ others id clients

abbrev pub addressed : (text : List ℕ) (client : ℤ) → Message
addressed text client = record {
  type = client;
  text = strncpy (replicate text_max 0) text text_max;
}

broadcast_loop-others :
    (sent : ℕ → Bool) (i : ℕ) (id : ℤ) (text : List ℕ) (clients : List ℤ)
    → ((k : ℕ) → sent k ≡ true)
    → broadcast_loop sent i id text clients ≡ (true, map (addressed text) (others id clients))
unfolding broadcast_loop
broadcast_loop-others sent i id text [] all_sent = refl
broadcast_loop-others sent i id text (client ∷ clients) all_sent =
    elim (Bool-cases (eqb_ℤ client id)) [
      | inl t ↦ rw (broadcast_loop-others sent (suc i) id text clients all_sent, t) refl
      | inr f ↦ rw (broadcast_loop-others sent (suc i) id text clients all_sent, f, all_sent i) refl
    ]

-- Where every `msgsnd` works, the text goes once to each registered client but the sender, in the order
-- in which they are registered.
pub broadcast_message-others :
    (sent : ℕ → Bool) (id : ℤ) (text : List ℕ) (registry : Registry)
    → ((k : ℕ) → sent k ≡ true)
    → broadcast_message sent id text registry
      ≡ (true, map (addressed text) (others id (registered registry)))
unfolding broadcast_message
broadcast_message-others sent id text registry all_sent =
    broadcast_loop-others sent 0 id text (registered registry) all_sent
