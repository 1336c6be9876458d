-- ===== src/Drivers.antt =====
-- cross2/main.c: a master that makes driver processes and sends them tasks over named pipes.
pub mod Routine
pub mod Commands
pub mod Parse
mod Examples
use homework_module.Prelude.{
  ℕ, zero, suc, ◌<◌, Bool, true, false, Option, none, some, is_some, List, [], ◌∷◌, ◌++◌, map, ◌==◌,
  ltb, if◌then◌else◌, length, set, get_elem?, replicate, Run, ok, fault, and_then,
}
use homework_module.Prelude.Int.{ℤ}
use homework_module.Drivers.Routine.{
  DriverState, available, on_message, task_message, status_message,
}

abbrev pub max_drivers : ℕ
max_drivers = 128

-- A driver as the master knows it, with the process behind its pipes: its state, and the replies that
-- wait in its pipe to the master.
pub record Driver : Type 0 where
  pub pid : ℤ
  pub process : DriverState
  pub to_master : List (List ℕ)

-- How an operation ends: it returns 0 (`true`) or -1, or it waits for a reply that does not come.
pub data Outcome : Type 0 where
  returned : Bool → Outcome
  waits : Outcome

-- The replies that are printed, with the pid that they are printed for.
abbrev pub Result : Type 0
Result = List Driver × Outcome × List (ℤ × List ℕ)
