-- ===== src/Signals/Examples.antt =====
-- Signals at 05/main.c: three SIGINTs with a SIGQUIT between them, and four SIGINTs.
use homework_module.Prelude.{◌+◌, ◌%◌, ◌≡◌, ◌≢◌, refl, true, [], ◌∷◌, arith}
use homework_module.Signals.{
  sigint, sigquit, at_end, State, started, handler, log_line, main_step, Reach, here, moves,
  handles, run_main,
}
use homework_module.Signals.Log.{AreLines, Reach-AreLines}
use homework_module.Signals.Ends.{run_main-at_end, run_main-goes_on}

-- The SIGQUIT overwrites the first SIGINT; the other two come behind the writing.
abbrev logged_state : State
logged_state =
    handler sigint
      (handler sigint (main_step true (main_step true (handler sigquit (handler sigint started)))))

logged_state-Reach : Reach (sigint ∷ sigquit ∷ sigint ∷ sigint ∷ []) logged_state
logged_state-Reach =
    handles sigint
      (handles sigint (moves true (moves true (handles sigquit (handles sigint here)))))

logged_state-log : logged_state.log ≡ log_line sigquit ∷ []
unfolding main_step handler
logged_state-log = refl

abbrev four_state : State
four_state = handler sigint (handler sigint (handler sigint (handler sigint started)))

four_state-Reach : Reach (sigint ∷ sigint ∷ sigint ∷ sigint ∷ []) four_state
four_state-Reach = handles sigint (handles sigint (handles sigint (handles sigint here)))

Reach-AreLines_example :
    ((logged_state.remains + 3) % 256 ≡ 3)
    × AreLines logged_state.log (sigint ∷ sigquit ∷ sigint ∷ sigint ∷ [])
Reach-AreLines_example =
    Reach-AreLines (sigint ∷ sigquit ∷ sigint ∷ sigint ∷ []) logged_state logged_state-Reach

run_main-at_end_example : (run_main 5 true logged_state).phase ≡ at_end
run_main-at_end_example =
    run_main-at_end (sigint ∷ sigquit ∷ sigint ∷ sigint ∷ []) logged_state true logged_state-Reach
      refl

four_state-goes_on : (run_main 1000 true four_state).phase ≢ at_end
unfolding handler
four_state-goes_on =
    run_main-goes_on (sigint ∷ sigint ∷ sigint ∷ sigint ∷ []) four_state 1000 true four_state-Reach
      (λ e. absurd (omega (arith, e))) (λ e. cc e)
