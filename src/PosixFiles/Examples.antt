-- ===== src/PosixFiles/Examples.antt =====
-- A run of 09/ in which the writer has put one line and the reader stands in front of it.
use homework_module.Prelude.{◌≡◌, refl, true, none}
use homework_module.PosixFiles.{
  System, at_file, put_step, get_step, Step, writes, reads, created, Reach, here, next, SemNames,
  writer_main,
}
use homework_module.PosixFiles.Protocol.{IsOrderly, Reach-IsOrderly, Reach-Step}

abbrev one_line : System
one_line = record created { empty = 999; lines_written = 1; full = 1 }

abbrev found_line : System
found_line = record one_line { mutex = 0; full = 0; reader = at_file }

one_line-Reach : Reach one_line
unfolding put_step
one_line-Reach =
    next (next (next (next (next here (writes refl)) (writes refl)) (writes refl)) (writes refl))
      (writes refl)

found_line-Reach : Reach found_line
unfolding get_step
found_line-Reach = next (next one_line-Reach (reads refl)) (reads refl)

Reach-IsOrderly_example : IsOrderly found_line
Reach-IsOrderly_example = Reach-IsOrderly found_line found_line-Reach

Reach-Step_example : (t : System) × Step found_line t
Reach-Step_example = Reach-Step found_line found_line-Reach

abbrev no_names : SemNames
no_names = record { mutex_name = none; empty_name = none; full_name = none }

-- The first run ends in EXIT_SUCCESS.
first_run : (writer_main (λ names. (names, true)) true no_names).1 ≡ true
unfolding writer_main
first_run = refl
