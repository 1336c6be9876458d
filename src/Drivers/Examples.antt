-- ===== src/Drivers/Examples.antt =====
-- The theorems about cross2/main.c at two drivers.
use homework_module.Prelude.{◌≡◌, true, some, List, [], ◌∷◌, arith}
use homework_module.Prelude.Int.{pos, negsuc}
use homework_module.Drivers.{Driver}
use homework_module.Drivers.Routine.{busy}
use homework_module.Drivers.Commands.{CreateCalls, new_driver, send_task}
use homework_module.Drivers.Parse.{execute}
use homework_module.Drivers.Parse.Roundtrip.{send_task_line, execute-send_task_line}

abbrev working : Driver
working = record (new_driver (pos 42)) {
  process = record { status = busy; it_value = pos 5; alive = true };
}

abbrev drivers : List Driver
drivers = new_driver (pos 41) ∷ working ∷ []

abbrev calls : CreateCalls
calls = record { made = true; opened = true; fork = some (pos 43) }

execute-send_task_line_example :
    execute calls (send_task_line (pos 41) (negsuc 4)) drivers
    ≡ send_task (pos 41) (negsuc 4) drivers
execute-send_task_line_example =
    execute-send_task_line calls (pos 41) (negsuc 4) drivers (omega arith) (omega arith)
