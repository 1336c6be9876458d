-- ===== src/Signals/Ends.antt =====
-- Where the loop of 05/main.c ends.
use homework_module.Prelude.{
  ℕ, zero, suc, ◌%◌, ◌≡◌, ◌≢◌, refl, sym, ap, ◌∙◌, Bool, Option, none, some, List, arith,
}
use homework_module.Signals.{
  Signal, Phase, at_test, at_write, at_reset, at_check, at_count, at_end, State, main_at, main_step,
  Reach, run_main,
}
use homework_module.Signals.Log.{interrupts, Reach-IsLogged, main_at-same}

last_steps :
    (write_ok : Bool) (counter : ℕ) (waiting : Option Signal) (phase : Phase) (log : List (List ℕ))
    → (run_main 5 write_ok (record {
      counter = counter;
      remains = 0;
      sig_to_write = waiting;
      phase = phase;
      log = log;
    })).phase
      ≡ at_end
unfolding run_main main_step main_at
last_steps write_ok counter none at_test log = refl
last_steps write_ok counter (some sig) at_test log = refl
last_steps write_ok counter waiting at_write log = refl
last_steps write_ok counter waiting at_reset log = refl
last_steps write_ok counter waiting at_check log = refl
last_steps write_ok counter none at_count log = refl
last_steps write_ok counter (some sig) at_count log = refl
last_steps write_ok counter waiting at_end log = refl

-- In every state that is reached with 3 SIGINTs, modulo 256, and where no further signal comes,
-- `main` is behind its loop after at most five more steps.
pub run_main-at_end :
    (received : List Signal) (s : State) (write_ok : Bool)
    → Reach received s
    → interrupts received % 256 ≡ 3
    → (run_main 5 write_ok s).phase ≡ at_end
run_main-at_end received s write_ok reach three =
    let is = Reach-IsLogged received s reach in
    let spent : s.remains ≡ 0 = omega (arith, is.counted, is.byte, three) in
    ap (λ n. (run_main 5 write_ok (record s { remains = n })).phase) spent
    ∙ last_steps write_ok s.counter s.sig_to_write s.phase s.log

main_step-goes_on :
    (write_ok : Bool) (phase : Phase) (s : State)
    → s.remains ≢ 0
    → phase ≢ at_end
    → (main_at write_ok phase s).phase ≢ at_end
unfolding main_at
main_step-goes_on write_ok at_test s left before e = go s.sig_to_write e
  where
    go :
        (waiting : Option Signal)
        → (elim waiting as (λ _. State) [
          | none ↦ record s { phase = at_check }
          | some _ ↦ record s { phase = at_write }
        ]).phase
          ≢ at_end
    go none e = cc e
    go (some sig) e = cc e
main_step-goes_on write_ok at_write s left before e = cc e
main_step-goes_on write_ok at_reset s left before e = cc e
main_step-goes_on write_ok at_check s left before e = ground arith
main_step-goes_on write_ok at_count s left before e = cc e
main_step-goes_on write_ok at_end s left before e = absurd (before refl)

run_main-remains :
    (steps : ℕ) (write_ok : Bool) (s : State)
    → s.remains ≢ 0
    → s.phase ≢ at_end
    → (run_main steps write_ok s).phase ≢ at_end
unfolding run_main main_step
run_main-remains zero write_ok s left before = before
run_main-remains (suc steps) write_ok s left before =
    run_main-remains steps write_ok (main_step write_ok s)
      (λ e. left (sym (main_at-same write_ok s.phase s) ∙ e))
      (main_step-goes_on write_ok s.phase s left before)

-- In every state that is reached within the loop with another number of SIGINTs, modulo 256, such
-- as 4, and where no further signal comes, `main` never leaves the loop.
pub run_main-goes_on :
    (received : List Signal) (s : State) (steps : ℕ) (write_ok : Bool)
    → Reach received s
    → interrupts received % 256 ≢ 3
    → s.phase ≢ at_end
    → (run_main steps write_ok s).phase ≢ at_end
run_main-goes_on received s steps write_ok reach other before =
    let is = Reach-IsLogged received s reach in
    run_main-remains steps write_ok s (λ e. other (omega (arith, is.counted, is.byte, e))) before
