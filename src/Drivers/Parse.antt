-- ===== src/Drivers/Parse.antt =====
-- `execute` of cross2/main.c: a command line and what it calls.
pub mod Roundtrip
use homework_module.Prelude.{
  ℕ, Bool, true, false, Option, none, some, is_some, List, [], ◌∷◌, if◌then◌else◌, replicate, Run,
  ok, fault,
}
use homework_module.Prelude.Int.{ℤ}
use homework_module.CString.{c_str, strncpy}
use homework_module.CString.Number.{strtol, to_int, at_end, is_space}
use homework_module.CString.Token.{strtok}
use homework_module.Drivers.{Driver, Result, returned}
use homework_module.Drivers.Routine.{is_word}
use homework_module.Drivers.Commands.{
  CreateCalls, create_driver, send_task, get_status, get_drivers,
}

abbrev pub max_command_size : ℕ
max_command_size = 64

-- The next word as an `int`, and what follows; `none` is a message on a missing or an invalid argument.
unfoldable pub int_argument : (rest : List ℕ) → Option (ℤ × List ℕ)
int_argument rest = elim (strtok is_space rest) [
  | none ↦ none
  | some (token, rest') ↦
      if at_end (strtol token).1 then some (to_int (strtol token).0, rest') else none
]

-- A command that is not carried out returns 0.
abbrev idle : List Driver → Run Result
idle drivers = ok (drivers, returned true, [])

task_command : Option (ℤ × List ℕ) → List Driver → Run Result
unfolding int_argument send_task
task_command none drivers = idle drivers
task_command (some (pid, rest)) drivers = elim (int_argument rest) [
  | none ↦ idle drivers
  | some (timer, rest') ↦ send_task pid timer drivers
]

status_command : Option (ℤ × List ℕ) → List Driver → Run Result
unfolding get_status
status_command none drivers = idle drivers
status_command (some (pid, rest)) drivers = get_status pid drivers

command_of : CreateCalls → (token rest : List ℕ) → List Driver → Run Result
unfolding create_driver task_command status_command get_drivers int_argument
command_of calls token rest drivers =
    if is_word token "create_driver"
    then if is_some (strtok is_space rest) then idle drivers else create_driver calls drivers
    else if is_word token "send_task"
    then task_command (int_argument rest) drivers
    else if is_word token "get_status"
    then status_command (int_argument rest) drivers
    else if is_word token "get_drivers"
    then if is_some (strtok is_space rest) then idle drivers else get_drivers drivers
    else idle drivers

-- A line without a word compares a NULL token: a fault.
unfoldable pub execute : CreateCalls → (command : List ℕ) → List Driver → Run Result
unfolding command_of
execute calls command drivers =
    elim (strtok is_space
      (c_str (strncpy (replicate max_command_size 0) command max_command_size))) [
        | none ↦ fault
        | some (token, rest) ↦ command_of calls token rest drivers
      ]
