-- ===== src/Chat.antt =====
-- 07/server.c and 07/client.c: two processes that take turns over one POSIX message queue, which
-- both read and write. Its calls are taken to succeed, and to wait where the queue is full or
-- empty.
pub mod Turns
pub mod Heard
mod Examples
use homework_module.Prelude.{
  ℕ, zero, suc, ◌+◌, ◌≡◌, Bool, true, false, ◌||◌, Option, none, some, List, [], ◌∷◌, ◌++◌, ◌==◌,
  ltb, if◌then◌else◌, length, get_or,
}

-- `mq_maxmsg`.
abbrev pub max_messages : ℕ
max_messages = 2

pub record Message : Type 0 where
  pub text : List ℕ
  pub prio : ℕ

-- The client reads a line, waits for an answer, or has left its loop.
pub data ClientPhase : Type 0 where
  asks awaits left : ClientPhase

-- The server waits for a message, reads the answer to one of priority `prio`, or has left its loop.
pub data ServerPhase : Type 0 where
  listens : ServerPhase
  answers : (prio : ℕ) → ServerPhase
  ended : ServerPhase

-- The queue, the one that is received next first; the two processes; and the texts that each has shown
-- as those of the other.
pub record State : Type 0 where
  pub queue : List Message
  pub client : ClientPhase
  pub server : ServerPhase
  pub client_shows : List (List ℕ)
  pub server_shows : List (List ℕ)

abbrev pub started : State
started = record {
  queue = [];
  client = asks;
  server = listens;
  client_shows = [];
  server_shows = [];
}

-- `buffer[strcspn(buffer, "\n")] = '\0'`.
unfoldable pub cut_line : List ℕ → List ℕ
cut_line [] = []
cut_line (c ∷ cs) = if c == 0 || c == 10 then [] else c ∷ cut_line cs

-- A message stands behind all of its priority and above.
unfoldable pub enqueue : Message → List Message → List Message
enqueue m [] = m ∷ []
enqueue m (first ∷ queue) =
    if ltb first.prio m.prio then m ∷ (first ∷ queue) else first ∷ enqueue m queue

-- `mq_send`, where `none` waits.
unfoldable pub send : Message → List Message → Option (List Message)
unfolding enqueue
send m queue = if ltb (length queue) max_messages then some (enqueue m queue) else none

-- A line that starts with its newline closes the connection.
abbrev pub prio_of : (line : List ℕ) (prio : ℕ) → ℕ
prio_of line prio = if get_or line 0 0 == 10 then 0 else prio

client_sends : (line : List ℕ) → State → Option State
unfolding send cut_line
client_sends line s =
    let prio = prio_of line 1 in
    elim (send (record { text = cut_line line; prio = prio }) s.queue) [
      | none ↦ none
      | some queue ↦ some (record s { queue = queue; client = if prio == 0 then left else awaits })
    ]

client_receives : (queue : List Message) → State → Option State
client_receives [] s = none
client_receives (m ∷ queue) s = some (
    if m.prio == 0
    then record s { queue = queue; client = left }
    else record s { queue = queue; client = asks; client_shows = s.client_shows ++ m.text ∷ [] })

client_at : ClientPhase → (input : Option (List ℕ)) → State → Option State
unfolding client_sends client_receives
client_at asks none s = some (record s { client = left })
client_at asks (some line) s = client_sends line s
client_at awaits input s = client_receives s.queue s
client_at left input s = none

-- The next call of the client on the queue, with what `fgets` gives in front of it.
unfoldable pub client_step : (input : Option (List ℕ)) → State → Option State
unfolding client_at
client_step input s = client_at s.client input s

server_sends : (line : List ℕ) (prio : ℕ) → State → Option State
unfolding send cut_line
server_sends line prio s =
    let prio' = prio_of line prio in
    elim (send (record { text = cut_line line; prio = prio' }) s.queue) [
      | none ↦ none
      | some queue ↦
          some (record s { queue = queue; server = if prio' == 0 then ended else listens })
    ]

server_receives : (queue : List Message) → State → Option State
server_receives [] s = none
server_receives (m ∷ queue) s = some (
    if m.prio == 0 then record s { queue = queue; server = ended } else record s {
      queue = queue;
      server = answers m.prio;
      server_shows = s.server_shows ++ m.text ∷ [];
    })

server_at : ServerPhase → (input : Option (List ℕ)) → State → Option State
unfolding server_sends server_receives
server_at listens input s = server_receives s.queue s
server_at (answers prio) none s = some (record s { server = ended })
server_at (answers prio) (some line) s = server_sends line prio s
server_at ended input s = none

unfoldable pub server_step : (input : Option (List ℕ)) → State → Option State
unfolding server_at
server_step input s = server_at s.server input s

pub data Step (s : State) : State → Type 0 where
  client_moves : {t : State} → (input : Option (List ℕ)) → client_step input s ≡ some t → Step s t
  server_moves : {t : State} → (input : Option (List ℕ)) → server_step input s ≡ some t → Step s t

pub data Reach : State → Type 0 where
  here : Reach started
  next : {s t : State} → Reach s → Step s t → Reach t
