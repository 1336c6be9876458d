-- ===== src/Signals/Log.antt =====
-- What 05/main.c counts and logs, for every order of its steps and the signals.
use homework_module.Prelude.{
  ℕ, suc, ◌+◌, ◌%◌, ◌<◌, ◌≡◌, refl, Bool, true, false, Option, none, some, List, [], ◌∷◌, ◌++◌,
  ◌==◌, if◌then◌else◌, arith,
}
use homework_module.Signals.{
  Signal, sigint, sigquit, Phase, at_test, at_write, at_reset, at_check, at_count, at_end, State,
  handler, log_line, write_file, main_at, main_step, Reach, here, moves, handles,
}

-- The number of SIGINTs.
abbrev pub interrupts : List Signal → ℕ
interrupts [] = 0
interrupts (sigint ∷ received) = suc (interrupts received)
interrupts (sigquit ∷ received) = interrupts received

-- The lines belong to some of the signals, each to one of its own, in their order.
pub data AreLines : (lines : List (List ℕ)) (received : List Signal) → Type 0 where
  no_lines : AreLines [] []
  lost :
      {lines : List (List ℕ)} {received : List Signal}
      → (sig : Signal) → AreLines lines received
      → AreLines lines (sig ∷ received)
  logged :
      {lines : List (List ℕ)} {received : List Signal}
      → (sig : Signal) → AreLines lines received
      → AreLines (log_line sig ∷ lines) (sig ∷ received)

lost_last :
    (lines : List (List ℕ)) (received : List Signal) (sig : Signal)
    → AreLines lines received
    → AreLines lines (received ++ sig ∷ [])
lost_last lines received sig no_lines = lost sig no_lines
lost_last lines received sig (lost other are) = lost other (lost_last _ _ sig are)
lost_last lines received sig (logged other are) = logged other (lost_last _ _ sig are)

logged_last :
    (lines : List (List ℕ)) (received : List Signal) (sig : Signal)
    → AreLines lines received
    → AreLines (lines ++ log_line sig ∷ []) (received ++ sig ∷ [])
logged_last lines received sig no_lines = logged sig no_lines
logged_last lines received sig (lost other are) = lost other (logged_last _ _ sig are)
logged_last lines received sig (logged other are) = logged other (logged_last _ _ sig are)

interrupts_last :
    (received : List Signal) (sig : Signal)
    → interrupts (received ++ sig ∷ []) ≡ interrupts received + interrupts (sig ∷ [])
interrupts_last [] sig = omega arith
interrupts_last (sigint ∷ received) sig = let e = interrupts_last received sig in omega (arith, e)
interrupts_last (sigquit ∷ received) sig = interrupts_last received sig

-- The log holds lines of signals in front of the one that waits to be written, if there is one.
abbrev pub Waits : Option Signal → (lines : List (List ℕ)) (received : List Signal) → Type 0
Waits none lines received = AreLines lines received
Waits (some sig) lines received =
    (before : List Signal) × (received ≡ before ++ sig ∷ []) × AreLines lines before

-- In the phase behind the writing the signal is no longer waiting.
abbrev pub Logs : Phase → Option Signal → (lines : List (List ℕ)) (received : List Signal) → Type 0
Logs at_reset waiting lines received = AreLines lines received
Logs _ waiting lines received = Waits waiting lines received

Waits-AreLines :
    (waiting : Option Signal) (lines : List (List ℕ)) (received : List Signal)
    → Waits waiting lines received
    → AreLines lines received
Waits-AreLines none lines received waits = waits
Waits-AreLines (some sig) lines received (before, e, are) = rw e (lost_last lines before sig are)

Logs-AreLines :
    (phase : Phase) (waiting : Option Signal) (lines : List (List ℕ)) (received : List Signal)
    → Logs phase waiting lines received
    → AreLines lines received
Logs-AreLines at_test waiting lines received logs = Waits-AreLines waiting lines received logs
Logs-AreLines at_write waiting lines received logs = Waits-AreLines waiting lines received logs
Logs-AreLines at_reset waiting lines received logs = logs
Logs-AreLines at_check waiting lines received logs = Waits-AreLines waiting lines received logs
Logs-AreLines at_count waiting lines received logs = Waits-AreLines waiting lines received logs
Logs-AreLines at_end waiting lines received logs = Waits-AreLines waiting lines received logs

handler-Logs :
    (sig : Signal) (s : State) (received : List Signal)
    → Logs s.phase s.sig_to_write s.log received
    → Logs s.phase (some sig) s.log (received ++ sig ∷ [])
handler-Logs sig s received logs = go s.phase logs
  where
    late : AreLines s.log received → Waits (some sig) s.log (received ++ sig ∷ [])
    late are = (received, refl, are)

    go :
        (phase : Phase)
        → Logs phase s.sig_to_write s.log received
        → Logs phase (some sig) s.log (received ++ sig ∷ [])
    go at_reset logs = lost_last s.log received sig logs
    go at_test logs = late (Logs-AreLines at_test s.sig_to_write s.log received logs)
    go at_write logs = late (Logs-AreLines at_write s.sig_to_write s.log received logs)
    go at_check logs = late (Logs-AreLines at_check s.sig_to_write s.log received logs)
    go at_count logs = late (Logs-AreLines at_count s.sig_to_write s.log received logs)
    go at_end logs = late (Logs-AreLines at_end s.sig_to_write s.log received logs)

write_file-AreLines :
    (write_ok : Bool) (waiting : Option Signal) (lines : List (List ℕ)) (received : List Signal)
    → Waits waiting lines received
    → AreLines (write_file write_ok waiting lines) received
unfolding write_file
write_file-AreLines write_ok none lines received waits = waits
write_file-AreLines true (some sig) lines received (before, e, are) =
    rw e (logged_last lines before sig are)
write_file-AreLines false (some sig) lines received (before, e, are) =
    rw e (lost_last lines before sig are)

-- What holds in every state: the 8 bits of `remains` count the SIGINTs down from 3, and the log.
pub record IsLogged (received : List Signal) (s : State) : Type 0 where
  pub counted : (s.remains + interrupts received) % 256 ≡ 3
  pub byte : s.remains < 256
  pub logs : Logs s.phase s.sig_to_write s.log received

handler-IsLogged :
    (sig : Signal) (received : List Signal) (s : State)
    → IsLogged received s
    → IsLogged (received ++ sig ∷ []) (handler sig s)
unfolding handler
handler-IsLogged sigint received s is =
    let more = interrupts_last received sigint in
    record {
      counted = omega (arith, more, is.counted, is.byte);
      byte = omega arith;
      logs = handler-Logs sigint s received is.logs;
    }
handler-IsLogged sigquit received s is =
    let more = interrupts_last received sigquit in
    record {
      counted = omega (arith, more, is.counted, is.byte);
      byte = is.byte;
      logs = handler-Logs sigquit s received is.logs;
    }

main_at-Logs :
    (write_ok : Bool) (phase : Phase) (received : List Signal) (s : State)
    → Logs phase s.sig_to_write s.log received
    → let t = main_at write_ok phase s in Logs t.phase t.sig_to_write t.log received
unfolding main_at
main_at-Logs write_ok at_test received s logs = go s.sig_to_write
  where
    go :
        (waiting : Option Signal)
        → let t : State = elim waiting [
          | none ↦ record s { phase = at_check }
          | some _ ↦ record s { phase = at_write }
        ] in
          Logs t.phase t.sig_to_write t.log received
    go none = logs
    go (some sig) = logs
main_at-Logs write_ok at_write received s logs =
    write_file-AreLines write_ok s.sig_to_write s.log received logs
main_at-Logs write_ok at_reset received s logs = logs
main_at-Logs write_ok at_check received s logs = go (s.remains == 0)
  where
    go :
        (none_left : Bool)
        → Logs (if none_left then at_end else at_count) s.sig_to_write s.log received
    go true = logs
    go false = logs
main_at-Logs write_ok at_count received s logs = logs
main_at-Logs write_ok at_end received s logs = logs

pub main_at-same :
    (write_ok : Bool) (phase : Phase) (s : State) → (main_at write_ok phase s).remains ≡ s.remains
unfolding main_at
main_at-same write_ok at_test s = go s.sig_to_write
  where
    go :
        (waiting : Option Signal)
        → (elim waiting as (λ _. State) [
          | none ↦ record s { phase = at_check }
          | some _ ↦ record s { phase = at_write }
        ]).remains
          ≡ s.remains
    go none = refl
    go (some sig) = refl
main_at-same write_ok at_write s = refl
main_at-same write_ok at_reset s = refl
main_at-same write_ok at_check s = refl
main_at-same write_ok at_count s = refl
main_at-same write_ok at_end s = refl

main_step-IsLogged :
    (write_ok : Bool) (received : List Signal) (s : State)
    → IsLogged received s
    → IsLogged received (main_step write_ok s)
unfolding main_step
main_step-IsLogged write_ok received s is =
    let same = main_at-same write_ok s.phase s in
    record {
      counted = rw same is.counted;
      byte = rw same is.byte;
      logs = main_at-Logs write_ok s.phase received s is.logs;
    }

pub Reach-IsLogged : (received : List Signal) (s : State) → Reach received s → IsLogged received s
Reach-IsLogged received s here = record { counted = refl; byte = omega arith; logs = no_lines }
Reach-IsLogged received s (moves {s = s'} write_ok reach) =
    main_step-IsLogged write_ok received s' (Reach-IsLogged received s' reach)
Reach-IsLogged received s (handles {received = before} {s = s'} sig reach) =
    handler-IsLogged sig before s' (Reach-IsLogged before s' reach)

-- For every order of the steps of `main` and the signals: `remains` is 3 less the number of SIGINTs
-- modulo 256, and the lines in the log belong to signals that were received, each to one of its own
-- and in their order. A signal may be missing there, since a later one overwrites `sig_to_write`
-- or a `write` fails.
pub Reach-AreLines :
    (received : List Signal) (s : State)
    → Reach received s
    → ((s.remains + interrupts received) % 256 ≡ 3) × AreLines s.log received
Reach-AreLines received s reach =
    let is = Reach-IsLogged received s reach in
    (is.counted, Logs-AreLines s.phase s.sig_to_write s.log received is.logs)
