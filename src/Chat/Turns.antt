-- ===== src/Chat/Turns.antt =====
-- Whose turn it is between the two processes of 07/.
use homework_module.Prelude.{
  ℕ, suc, ◌+◌, ◌≤◌, ◌≡◌, refl, sym, ap, ◌∙◌, Bool, true, false, Option, none, some, List, [], ◌∷◌,
  ◌++◌, ◌==◌, ltb, if◌then◌else◌, length, arith,
}
use homework_module.Chat.{
  max_messages, Message, ClientPhase, asks, awaits, left, ServerPhase, listens, answers, ended,
  State, cut_line, enqueue, send, prio_of, client_sends, client_receives, client_at, client_step,
  server_sends, server_receives, server_at, server_step, Step, client_moves, server_moves, Reach,
  here, next,
}

-- Whether the server has a message to answer, and whether a message may be under way.
abbrev pub answering : ServerPhase → ℕ
answering (answers prio) = 1
answering listens = 0
answering ended = 0

abbrev pub owed : ClientPhase → ℕ
owed asks = 0
owed awaits = 1
owed left = 1

abbrev pub IsTurn : State → Type 0
IsTurn s = length s.queue + answering s.server ≤ owed s.client

length-enqueue :
    (m : Message) (queue : List Message) → length (enqueue m queue) ≡ suc (length queue)
unfolding enqueue
length-enqueue m [] = refl
length-enqueue m (first ∷ queue) = go (length-enqueue m queue) (ltb first.prio m.prio)
  where
    go :
        length (enqueue m queue) ≡ suc (length queue)
        → (before : Bool)
        → length (if before then m ∷ (first ∷ queue) else first ∷ enqueue m queue)
          ≡ suc (length (first ∷ queue))
    go rest true = refl
    go rest false = ap suc rest

send-length :
    (m : Message) (queue queue' : List Message)
    → send m queue ≡ some queue'
    → length queue' ≡ suc (length queue)
unfolding send
send-length m queue queue' e = go (ltb (length queue) max_messages) e
  where
    go :
        (room : Bool)
        → (if room then some (enqueue m queue) else none) ≡ some queue'
        → length queue' ≡ suc (length queue)
    go true p =
        let same : enqueue m queue ≡ queue' = cc p in sym (ap length same) ∙ length-enqueue m queue
    go false p = cc p

owed_if : (b : Bool) → owed (if b then left else awaits) ≡ 1
owed_if true = refl
owed_if false = refl

answering_if : (b : Bool) → answering (if b then ended else listens) ≡ 0
answering_if true = refl
answering_if false = refl

client_sends-IsTurn :
    (line : List ℕ) (s t : State)
    → s.client ≡ asks
    → client_sends line s ≡ some t
    → IsTurn s
    → IsTurn t
unfolding client_sends
client_sends-IsTurn line s t at e turn = go (send m s.queue) refl e
  where
    m : Message
    m = record { text = cut_line line; prio = prio_of line 1 }

    go :
        (sent : Option (List Message))
        → send m s.queue ≡ sent
        → (elim sent as (λ _. Option State) [
          | none ↦ none
          | some queue ↦
              some
                (record s { queue = queue; client = if prio_of line 1 == 0 then left else awaits })
        ])
          ≡ some t
        → IsTurn t
    go none p q = cc q
    go (some queue) p q =
        let more = send-length m s.queue queue p in
        let asked : owed s.client ≡ 0 = ap owed at in
        let same : record s { queue = queue; client = if prio_of line 1 == 0 then left else awaits }
            ≡ t =
          cc q in
        rw (sym same) (omega (arith, more, turn, asked, owed_if (prio_of line 1 == 0)))

client_receives-IsTurn :
    (queue : List Message) (s t : State)
    → s.queue ≡ queue
    → s.client ≡ awaits
    → client_receives queue s ≡ some t
    → IsTurn s
    → IsTurn t
unfolding client_receives
client_receives-IsTurn [] s t same at e turn = cc e
client_receives-IsTurn (m ∷ queue) s t same at e turn = go (m.prio == 0) e
  where
    go :
        (closes : Bool)
        → some (
            if closes then record s { queue = queue; client = left } else record s {
              queue = queue;
              client = asks;
              client_shows = s.client_shows ++ m.text ∷ [];
            })
          ≡ some t
        → IsTurn t
    go true p =
        let now : record s { queue = queue; client = left } ≡ t = cc p in
        rw (sym now) (omega (arith, turn, ap owed at, ap length same))
    go false p =
        let now : record s {
          queue = queue;
          client = asks;
          client_shows = s.client_shows ++ m.text ∷ [];
        }
            ≡ t =
          cc p in
        rw (sym now) (omega (arith, turn, ap owed at, ap length same))

client_at-IsTurn :
    (phase : ClientPhase) (input : Option (List ℕ)) (s t : State)
    → s.client ≡ phase
    → client_at phase input s ≡ some t
    → IsTurn s
    → IsTurn t
unfolding client_at
client_at-IsTurn asks none s t at e turn =
    let now : record s { client = left } ≡ t = cc e in
    rw (sym now) (omega (arith, turn, ap owed at))
client_at-IsTurn asks (some line) s t at e turn = client_sends-IsTurn line s t at e turn
client_at-IsTurn awaits input s t at e turn = client_receives-IsTurn s.queue s t refl at e turn
client_at-IsTurn left input s t at e turn = cc e

server_sends-IsTurn :
    (line : List ℕ) (prio : ℕ) (s t : State)
    → s.server ≡ answers prio
    → server_sends line prio s ≡ some t
    → IsTurn s
    → IsTurn t
unfolding server_sends
server_sends-IsTurn line prio s t at e turn = go (send m s.queue) refl e
  where
    m : Message
    m = record { text = cut_line line; prio = prio_of line prio }

    go :
        (sent : Option (List Message))
        → send m s.queue ≡ sent
        → (elim sent as (λ _. Option State) [
          | none ↦ none
          | some queue ↦ some (record s {
            queue = queue;
            server = if prio_of line prio == 0 then ended else listens;
          })
        ])
          ≡ some t
        → IsTurn t
    go none p q = cc q
    go (some queue) p q =
        let more = send-length m s.queue queue p in
        let asked : answering s.server ≡ 1 = ap answering at in
        let same : record s {
          queue = queue;
          server = if prio_of line prio == 0 then ended else listens;
        }
            ≡ t =
          cc q in
        rw (sym same) (omega (arith, more, turn, asked, answering_if (prio_of line prio == 0)))

server_receives-IsTurn :
    (queue : List Message) (s t : State)
    → s.queue ≡ queue
    → s.server ≡ listens
    → server_receives queue s ≡ some t
    → IsTurn s
    → IsTurn t
unfolding server_receives
server_receives-IsTurn [] s t same at e turn = cc e
server_receives-IsTurn (m ∷ queue) s t same at e turn = go (m.prio == 0) e
  where
    go :
        (closes : Bool)
        → some (
            if closes then record s { queue = queue; server = ended } else record s {
              queue = queue;
              server = answers m.prio;
              server_shows = s.server_shows ++ m.text ∷ [];
            })
          ≡ some t
        → IsTurn t
    go true p =
        let now : record s { queue = queue; server = ended } ≡ t = cc p in
        rw (sym now) (omega (arith, turn, ap answering at, ap length same))
    go false p =
        let now : record s {
          queue = queue;
          server = answers m.prio;
          server_shows = s.server_shows ++ m.text ∷ [];
        }
            ≡ t =
          cc p in
        rw (sym now) (omega (arith, turn, ap answering at, ap length same))

server_at-IsTurn :
    (phase : ServerPhase) (input : Option (List ℕ)) (s t : State)
    → s.server ≡ phase
    → server_at phase input s ≡ some t
    → IsTurn s
    → IsTurn t
unfolding server_at
server_at-IsTurn listens input s t at e turn = server_receives-IsTurn s.queue s t refl at e turn
server_at-IsTurn (answers prio) none s t at e turn =
    let now : record s { server = ended } ≡ t = cc e in
    rw (sym now) (omega (arith, turn, ap answering at))
server_at-IsTurn (answers prio) (some line) s t at e turn =
    server_sends-IsTurn line prio s t at e turn
server_at-IsTurn ended input s t at e turn = cc e

Step-IsTurn : (s t : State) → Step s t → IsTurn s → IsTurn t
unfolding client_step server_step
Step-IsTurn s t (client_moves input e) turn = client_at-IsTurn s.client input s t refl e turn
Step-IsTurn s t (server_moves input e) turn = server_at-IsTurn s.server input s t refl e turn

-- In every order of the calls of the two, whatever is typed: the messages in the queue and the one
-- that the server answers are at most one, and none while the client reads a line. So `mq_send`
-- never waits.
pub Reach-IsTurn : (s : State) → Reach s → IsTurn s
Reach-IsTurn s here = omega arith
Reach-IsTurn s (next {s = t} reach step) = Step-IsTurn t s step (Reach-IsTurn t reach)
