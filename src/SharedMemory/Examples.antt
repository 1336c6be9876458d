-- ===== src/SharedMemory/Examples.antt =====
-- The theorems about 10/main.c at concrete numbers and steps.
use homework_module.Prelude.{ℕ, ◌≡◌, true, false, some}
use homework_module.Prelude.Int.{ℤ, pos}
use homework_module.SharedMemory.{produce_data, System, started, at_access}
use homework_module.SharedMemory.Start.{
  Calls, fresh, init, writer_cleanup, all_removed, writer_cleanup-init,
}

abbrev none_yet : ℤ × ℤ
none_yet = (pos 0, pos 0)

abbrev rand : ℕ → ℕ
rand i = i

-- The parent has pushed and locked, and stands at the shared memory.
abbrev entered : System
entered = record started {
  sems = record { mutex = 0; empty = 0; full = 1 };
  parent = at_access;
  data_in_hand = produce_data rand;
}

-- The segment is made and cannot be attached.
abbrev no_attach : Calls
no_attach = record {
  shm_key = true;
  shmget = some 5;
  shmat = false;
  sem_key = true;
  semget = some 6;
  setval = λ _. true;
}

writer_cleanup-init_example :
    ((writer_cleanup all_removed (init no_attach fresh).0).0.segment ≡ true)
    × ((writer_cleanup all_removed (init no_attach fresh).0).0.semset ≡ false)
    × ((writer_cleanup all_removed (init no_attach fresh).0).0.attached ≡ false)
writer_cleanup-init_example = writer_cleanup-init no_attach
