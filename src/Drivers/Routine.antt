-- ===== src/Drivers/Routine.antt =====
-- `driver_routine` of cross2/main.c: the state of a driver and its answers.
pub mod Answers
use homework_module.Prelude.{
  ℕ, zero, suc, ◌+◌, ◌-◌, ◌≡◌, ◌≢◌, refl, ap, Bool, true, false, ◌||◌, Option, none, some, List, [],
  ◌∷◌, ◌++◌, ◌==◌, if◌then◌else◌, length, drop, take, replicate, Run, ok, fault, and_then, arith,
  Bool-cases, inl, inr,
}
use Prim.Native.String.{String}
use homework_module.Prelude.Int.{ℤ, pos, negsuc, is_zero, is_negative}
use homework_module.CString.{c_str, strcmp, literal}
use homework_module.CString.Number.{strtol, to_int, print_int, low_bits}
use homework_module.CString.Token.{strtok, skip_delims}

pub data DriverStatus : Type 0 where
  available busy : DriverStatus

-- `it_value` is the time that the timer was last set to; `alive` is false once the routine has
-- returned.
pub record DriverState : Type 0 where
  pub status : DriverStatus
  pub it_value : ℤ
  pub alive : Bool

abbrev pub is_colon : ℕ → Bool
is_colon c = c == b':'

-- `strcmp(token, word) == 0`.
abbrev pub is_word : List ℕ → String → Bool
is_word token word = is_zero (strcmp token (literal word))

abbrev pub is_busy : DriverStatus → Bool
is_busy available = false
is_busy busy = true

-- What is printed into the buffer of a status reply; `%zu` prints the time as it was set.
unfoldable pub status_text : DriverState → List ℕ
status_text d =
    if is_busy d.status
    then literal "Busy " ++ print_int (pos (low_bits d.it_value 64))
    else literal "Available"

abbrev pub ok_text : List ℕ
ok_text = literal "ok" ++ 0 ∷ []

-- A buffer of 128 bytes that begins with a text.
abbrev pub padded : List ℕ → List ℕ
padded text = text ++ replicate (128 - length text) 0

-- `timerfd_settime` refuses a negative time, and the routine returns.
settle : DriverState → (time : ℤ) (replies : List (List ℕ)) → DriverState × List (List ℕ)
settle d time replies =
    if is_negative time
    then (record d { it_value = time; alive = false }, replies)
    else (record d { it_value = time; status = busy }, replies ++ ok_text ∷ [])

-- The part behind the status reply, with the text that `token` points to by then.
set_task :
    DriverState
    → (token rest : List ℕ) (replies : List (List ℕ)) → Run (DriverState × List (List ℕ))
unfolding settle
set_task d token rest replies =
    if is_word token "task"
    then elim (strtok is_colon rest) [
      | none ↦ fault
      | some (time, behind) ↦ ok (settle d (to_int (strtol time).0) replies)
    ]
    else ok (d, replies)

-- `token` points into the buffer, `at` bytes behind its start: a status reply, which is made in the
-- same buffer, overwrites the token. No end of a status text is "task", so what follows it is not
-- looked at.
at_token : DriverState → (at : ℕ) (token rest : List ℕ) → Run (DriverState × List (List ℕ))
unfolding set_task status_text
at_token d at token rest =
    if is_word token "status" || is_busy d.status
    then set_task d (c_str (drop at (padded (status_text d)))) [] (padded (status_text d) ∷ [])
    else set_task d token rest []

-- Comparing a NULL token is a fault.
read_message : DriverState → (buffer : List ℕ) → Run (DriverState × List (List ℕ))
unfolding at_token
read_message d buffer = elim (strtok is_colon (c_str buffer)) [
  | none ↦ fault
  | some (token, rest) ↦
      at_token d (length (c_str buffer) - length (skip_delims is_colon (c_str buffer))) token rest
]

-- A message of the master: the state behind it and the replies. Nobody reads it once the routine has
-- returned.
unfoldable pub on_message : DriverState → (buffer : List ℕ) → Run (DriverState × List (List ℕ))
unfolding read_message
on_message d buffer = if d.alive then read_message d buffer else ok (d, [])

-- The timer has run out.
unfoldable pub on_timer : DriverState → DriverState
on_timer d = record d { status = available }

-- What the master sends.
abbrev pub task_message : (timer : ℤ) → List ℕ
task_message timer = padded (literal "task:" ++ print_int timer)

abbrev pub status_message : List ℕ
status_message = literal "status:" ++ 0 ∷ []
