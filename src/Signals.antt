-- ===== src/Signals.antt =====
-- 05/main.c: a counter that ends behind the third SIGINT and logs the signals. A signal is handled
-- between two steps of `main`.
pub mod Log
pub mod Ends
mod Examples
use homework_module.Prelude.{
  ℕ, zero, suc, ◌+◌, ◌%◌, ◌^◌, ◌≡◌, Bool, true, false, Option, none, some, List, [], ◌∷◌, ◌++◌,
  ◌==◌, if◌then◌else◌,
}
use homework_module.CString.{literal}

-- The two signals that a handler is set for.
pub data Signal : Type 0 where
  sigint sigquit : Signal

-- Where `main` stands in its loop: before the test of `sig_to_write`, the call of `write_file`, the
-- reset of `sig_to_write`, the test of `remains`, the counting, and behind the loop.
pub data Phase : Type 0 where
  at_test at_write at_reset at_check at_count at_end : Phase

-- `counter` has 32 bits and `remains` 8; `sig_to_write` is `none` for -1.
pub record State : Type 0 where
  pub counter : ℕ
  pub remains : ℕ
  pub sig_to_write : Option Signal
  pub phase : Phase
  pub log : List (List ℕ)

-- The globals at the start, and `file.log` behind `unlink` and `open`.
abbrev pub started : State
started = record { counter = 1; remains = 3; sig_to_write = none; phase = at_test; log = [] }

unfoldable pub handler : Signal → State → State
handler sigint s = record s { remains = (s.remains + 255) % 256; sig_to_write = some sigint }
handler sigquit s = record s { sig_to_write = some sigquit }

abbrev pub signal_name : Signal → List ℕ
signal_name sigint = literal "SIGINT "
signal_name sigquit = literal "SIGQUIT"

abbrev pub log_line : Signal → List ℕ
log_line sig = signal_name sig ++ literal " signal received and processed.\n"

-- A failed `write` is only told of.
unfoldable pub write_file :
    (write_ok : Bool) → Option Signal → (log : List (List ℕ)) → List (List ℕ)
write_file write_ok none log = log
write_file true (some sig) log = log ++ log_line sig ∷ []
write_file false (some sig) log = log

pub main_at : (write_ok : Bool) → Phase → State → State
unfolding write_file
main_at write_ok at_test s = elim s.sig_to_write [
  | none ↦ record s { phase = at_check }
  | some _ ↦ record s { phase = at_write }
]
main_at write_ok at_write s = record s {
  log = write_file write_ok s.sig_to_write s.log;
  phase = at_reset;
}
main_at write_ok at_reset s = record s { sig_to_write = none; phase = at_check }
main_at write_ok at_check s = record s { phase = if s.remains == 0 then at_end else at_count }
main_at write_ok at_count s = record s { counter = (s.counter + 1) % 2 ^ 32; phase = at_test }
main_at write_ok at_end s = record s { phase = at_end }

-- The next step of `main`, where `write_ok` says whether a `write` works.
unfoldable pub main_step : (write_ok : Bool) → State → State
unfolding main_at
main_step write_ok s = main_at write_ok s.phase s

-- The states that are reached, each with the signals that were handled so far.
pub data Reach : (received : List Signal) → State → Type 0 where
  here : Reach [] started
  moves :
      {received : List Signal} {s : State}
      → (write_ok : Bool) → Reach received s
      → Reach received (main_step write_ok s)
  handles :
      {received : List Signal} {s : State}
      → (sig : Signal) → Reach received s
      → Reach (received ++ sig ∷ []) (handler sig s)

-- `main` alone, for a number of steps.
unfoldable pub run_main : (steps : ℕ) → (write_ok : Bool) → State → State
unfolding main_step
run_main zero write_ok s = s
run_main (suc steps) write_ok s = run_main steps write_ok (main_step write_ok s)
