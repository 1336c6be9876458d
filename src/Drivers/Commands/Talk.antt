-- ===== src/Drivers/Commands/Talk.antt =====
-- What a request of cross2/main.c does with a driver that is in step with the master.
use homework_module.Prelude.{
  ℕ, ◌≡◌, refl, ap, ◌∙◌, true, some, List, [], ◌∷◌, ◌++◌, set, get_elem?, Run, ok, fault, and_then,
}
use homework_module.Prelude.Int.{ℤ}
use homework_module.CString.{c_str}
use homework_module.Drivers.{Driver, returned, waits, Result}
use homework_module.Drivers.Routine.{DriverState, status_message}
use homework_module.Drivers.Routine.Answers.{
  Request, status, message_of, IsRequest, answer, on_message-answer,
}
use homework_module.Drivers.Commands.{get_driver_by_pid, read_reply, talk, talk_at, get_status}

-- The routine of the driver runs, and no reply is left in its pipe.
abbrev pub InStep : Driver → Type 0
InStep driver = (driver.process.alive ≡ true) × (driver.to_master ≡ [])

-- The driver at place `i` with its new state; its first reply is printed, or waited for.
abbrev pub settled : List Driver → (i : ℕ) → Driver → DriverState × List (List ℕ) → Result
settled drivers i driver (process, []) =
    (set drivers i (record driver { process = process; to_master = [] }), waits, [])
settled drivers i driver (process, reply ∷ replies) = (
  set drivers i (record driver { process = process; to_master = replies }),
  returned true,
  (driver.pid, c_str reply) ∷ [],
)

read_reply-settled :
    (drivers : List Driver) (i : ℕ) (driver : Driver) (process : DriverState)
    (replies : List (List ℕ))
    → read_reply drivers i (record driver { process = process; to_master = [] }) replies
      ≡ settled drivers i driver (process, replies)
unfolding read_reply
read_reply-settled drivers i driver process [] = refl
read_reply-settled drivers i driver process (reply ∷ replies) = refl

talk-settled :
    (drivers : List Driver) (i : ℕ) (driver : Driver) (request : Request)
    → InStep driver
    → IsRequest request
    → talk drivers i driver (message_of request)
      ≡ ok (settled drivers i driver (answer driver.process request))
unfolding talk
talk-settled drivers i driver request (alive, unread) valid =
    let (process, replies) = answer driver.process request in
    ap
      (λ run. and_then run (λ step. ok (
        read_reply drivers i (record driver { process = step.0; to_master = [] })
          (driver.to_master ++ step.1))))
      (on_message-answer driver.process request alive valid)
    ∙ (ap
          (λ q. ok (
            read_reply drivers i (record driver { process = process; to_master = [] })
              (q ++ replies)))
          unread
        ∙ ap ok (read_reply-settled drivers i driver process replies))

talk_at-found :
    (drivers : List Driver) (i : ℕ) (driver : Driver) (missing : Run Result) (message : List ℕ)
    → get_elem? drivers i ≡ some driver
    → talk_at drivers (some i) missing message ≡ talk drivers i driver message
unfolding talk_at
talk_at-found drivers i driver missing message held = rw (held, talk_at) refl

-- `get_status` of a driver that is found, whose routine runs and whose pipe holds no reply prints the
-- driver's status and leaves the driver as it was.
pub get_status-settled :
    (drivers : List Driver) (pid : ℤ) (i : ℕ) (driver : Driver)
    → get_driver_by_pid drivers pid ≡ some i
    → get_elem? drivers i ≡ some driver
    → InStep driver
    → get_status pid drivers ≡ ok (settled drivers i driver (answer driver.process status))
unfolding get_status
get_status-settled drivers pid i driver found held in_step =
    ap (λ q. talk_at drivers q fault status_message) found
    ∙ (talk_at-found drivers i driver fault status_message held
        ∙ talk-settled drivers i driver status in_step tt)
