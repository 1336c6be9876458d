-- ===== src/Drivers/Commands.antt =====
-- The master's operations on its drivers (cross2/main.c).
pub mod Talk
use homework_module.Prelude.{
  ℕ, zero, suc, Bool, true, false, ◌&&◌, Option, none, some, List, [], ◌∷◌, ◌++◌, map, ltb,
  if◌then◌else◌, length, set, get_elem?, Run, ok, fault, and_then,
}
use homework_module.Prelude.Int.{ℤ, pos, eqb_ℤ}
use homework_module.CString.{c_str}
use homework_module.Drivers.{Driver, Outcome, returned, waits, Result, max_drivers}
use homework_module.Drivers.Routine.{
  DriverState, available, on_message, task_message, status_message,
}

-- The loop of `get_driver_by_pid` from `i` on.
unfoldable pub pid_loop : (pid : ℤ) (i : ℕ) → List Driver → Option ℕ
pid_loop pid i [] = none
pid_loop pid i (driver ∷ drivers) =
    if eqb_ℤ driver.pid pid then some i else pid_loop pid (suc i) drivers

-- The place of the driver; `none` is NULL.
unfoldable pub get_driver_by_pid : List Driver → (pid : ℤ) → Option ℕ
unfolding pid_loop
get_driver_by_pid drivers pid = pid_loop pid 0 drivers

-- What the system calls of `create_driver` return: the two pipes made, both opened, and the pid.
pub record CreateCalls : Type 0 where
  pub made : Bool
  pub opened : Bool
  pub fork : Option ℤ

abbrev pub new_driver : ℤ → Driver
new_driver pid = record {
  pid = pid;
  process = record { status = available; it_value = pos 0; alive = true };
  to_master = [];
}

-- A write behind the last of the 128 places is a fault.
unfoldable pub create_driver : CreateCalls → List Driver → Run Result
create_driver calls drivers =
    if calls.made && calls.opened
    then elim calls.fork [
      | none ↦ ok (drivers, returned false, [])
      | some pid ↦
          if ltb (length drivers) max_drivers
          then ok (drivers ++ new_driver pid ∷ [], returned true, [])
          else fault
    ]
    else ok (drivers, returned false, [])

-- `read` takes the first reply that is in the pipe, or waits for ever.
read_reply : List Driver → (i : ℕ) → Driver → (replies : List (List ℕ)) → Result
read_reply drivers i driver [] = (set drivers i driver, waits, [])
read_reply drivers i driver (reply ∷ replies) = (
  set drivers i (record driver { to_master = replies }),
  returned true,
  (driver.pid, c_str reply) ∷ [],
)

-- A message to the driver at place `i`, and its reply.
talk : List Driver → (i : ℕ) → Driver → (message : List ℕ) → Run Result
unfolding read_reply
talk drivers i driver message = and_then (on_message driver.process message) (λ step. ok (
    read_reply drivers i (record driver { process = step.0; to_master = [] })
      (driver.to_master ++ step.1)))

talk_at : List Driver → Option ℕ → (missing : Run Result) (message : List ℕ) → Run Result
unfolding talk
talk_at drivers none missing message = missing
talk_at drivers (some i) missing message = elim (get_elem? drivers i) [
  | none ↦ fault
  | some driver ↦ talk drivers i driver message
]

unfoldable pub send_task : (pid timer : ℤ) → List Driver → Run Result
unfolding talk_at get_driver_by_pid
send_task pid timer drivers =
    talk_at drivers (get_driver_by_pid drivers pid) (ok (drivers, returned false, []))
      (task_message timer)

-- The NULL of a pid that is not known is read: a fault.
unfoldable pub get_status : (pid : ℤ) → List Driver → Run Result
unfolding talk_at get_driver_by_pid
get_status pid drivers = talk_at drivers (get_driver_by_pid drivers pid) fault status_message

-- What is printed before, with what follows; waiting ends all.
then_rest : Result → (List Driver → Run Result) → Run Result
then_rest (drivers, waits, out) rest = ok (drivers, waits, out)
then_rest (drivers, returned b, out) rest = and_then (rest drivers) (λ r. ok (r.0, r.1, out ++ r.2))

unfoldable pub statuses_loop : (pids : List ℤ) → List Driver → Run Result
unfolding get_status then_rest
statuses_loop [] drivers = ok (drivers, returned true, [])
statuses_loop (pid ∷ pids) drivers =
    and_then (get_status pid drivers) (λ result. then_rest result (statuses_loop pids))

unfoldable pub get_drivers : List Driver → Run Result
unfolding statuses_loop
get_drivers drivers = statuses_loop (map (λ driver. driver.pid) drivers) drivers
