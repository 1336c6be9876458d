-- ===== src/Chat/Heard.antt =====
-- A message of the client of 07/ that comes back to it.
use homework_module.Prelude.{
  ℕ, ◌≡◌, refl, ap, ◌∙◌, false, none, some, List, [], ◌∷◌, ◌++◌, ◌==◌, if◌then◌else◌, length,
  get_or, arith,
}
use homework_module.Chat.{
  Message, asks, awaits, left, State, cut_line, enqueue, send, prio_of, client_sends,
  client_receives, client_at, client_step, client_moves, Reach, next,
}
use homework_module.Chat.Turns.{owed, Reach-IsTurn}

-- The state behind a line of the client that the client itself receives.
abbrev pub heard : (line : List ℕ) → State → State
heard line s = record s {
  queue = [];
  client = asks;
  client_shows = s.client_shows ++ cut_line line ∷ [];
}

sent_state : (line : List ℕ) → State → State
sent_state line s = record s {
  queue = record { text = cut_line line; prio = 1 } ∷ [];
  client = awaits;
}

client_sends-free :
    (line : List ℕ) (s : State) (queue : List Message)
    → send (record { text = cut_line line; prio = prio_of line 1 }) s.queue ≡ some queue
    → client_sends line s
      ≡ some (record s { queue = queue; client = if prio_of line 1 == 0 then left else awaits })
unfolding client_sends
client_sends-free line s queue e = rw (e, client_sends) refl

send-empty : (m : Message) → send m [] ≡ some (m ∷ [])
unfolding send enqueue
send-empty m = refl

client_step-sends :
    (line : List ℕ) (s : State)
    → s.client ≡ asks
    → s.queue ≡ []
    → (get_or line 0 0 == 10) ≡ false
    → client_step (some line) s ≡ some (sent_state line s)
unfolding client_step client_at sent_state
client_step-sends line s at free goes =
    let one : prio_of line 1 ≡ 1 = rw goes refl in
    let m : Message = record { text = cut_line line; prio = prio_of line 1 } in
    ap (λ q. client_at q (some line) s) at
    ∙ client_sends-free line s (m ∷ []) (ap (send m) free ∙ send-empty m)
    ∙ ap
        (λ p. some (record s {
          queue = record { text = cut_line line; prio = p } ∷ [];
          client = if p == 0 then left else awaits;
        }))
        one

client_step-hears :
    (line : List ℕ) (s : State) → client_step none (sent_state line s) ≡ some (heard line s)
unfolding client_step client_at client_receives sent_state
client_step-hears line s = refl

-- From every state that is reached and in which the client reads a line: where the line does not
-- start with its newline, the client may receive its own message, show it as one of the server and
-- read the next line, while the server has got nothing.
pub Reach-heard :
    (line : List ℕ) (s : State)
    → Reach s
    → s.client ≡ asks
    → (get_or line 0 0 == 10) ≡ false
    → Reach (heard line s)
Reach-heard line s reach at goes =
    let turn = Reach-IsTurn s reach in
    let free : s.queue ≡ [] = nothing s.queue (omega (arith, turn, ap owed at)) in
    next (next reach (client_moves (some line) (client_step-sends line s at free goes)))
      (client_moves none (client_step-hears line s))
  where
    nothing : (queue : List Message) → length queue ≡ 0 → queue ≡ []
    nothing [] e = refl
    nothing (m ∷ queue) e = absurd (omega (arith, e))
