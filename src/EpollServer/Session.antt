-- ===== src/EpollServer/Session.antt =====
-- The steps of one client of 15/server.c in a row, as `main` makes them until the client is closed.
use homework_module.Prelude.{
  ℕ, ◌&&◌, some, List, [], ◌∷◌, ◌++◌, if◌then◌else◌, length, drop, Run, ok, and_then,
}
use homework_module.Prelude.Int.{ℤ, is_zero}
use homework_module.CString.Number.{print_int}
use homework_module.EpollServer.{
  Client, status_ok, Effect, Calls, Step, dostuff, is_divide, zero_division,
}
use homework_module.EpollServer.Arithmetic.{Operation, call}
use homework_module.EpollServer.Clients.{is_over}

-- What one event brings: the results of the calls, the stack under the buffer, and the bytes read.
abbrev pub Turn : Type 0
Turn = Calls × List ℕ × List ℕ

-- The buffer after `read`.
abbrev pub seen : (stack bytes : List ℕ) → List ℕ
seen stack bytes = bytes ++ drop (length bytes) stack

abbrev pub continue : Step → (Client → Run Step) → Run Step
continue (client, status, effects) next =
    if is_over status
    then ok (client, status, effects)
    else and_then (next client) (λ step. ok (step.0, step.1, effects ++ step.2))

abbrev pub play : List Turn → Client → Run Step
play [] client = ok (client, status_ok, [])
play ((calls, stack, bytes) ∷ turns) client =
    and_then (dostuff calls stack (some bytes) client) (λ step. continue step (play turns))

-- What a client is told of a sum.
abbrev pub math_reply : Operation → ℤ → ℤ → Run (List ℕ)
math_reply op a b =
    if is_divide op && is_zero b
    then ok zero_division
    else and_then (call op a b) (λ n. ok (print_int n ++ 10 ∷ []))

behind : Effect → Step → Run Step
behind effect step = ok (step.0, step.1, effect ∷ step.2)
