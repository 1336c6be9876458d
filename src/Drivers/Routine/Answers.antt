-- ===== src/Drivers/Routine/Answers.antt =====
-- What a driver of cross2/main.c answers to the two messages of the master.
use homework_module.Prelude.{
  ℕ, zero, suc, ◌-◌, ◌≡◌, refl, ap, sym, ◌∙◌, Bool, true, false, List, [], ◌∷◌, ◌++◌, ◌==◌, some,
  if◌then◌else◌, length, replicate, ok, arith, Bool-cases, inl, inr,
}
use homework_module.Prelude.Int.{ℤ, pos, negsuc, is_negative}
use homework_module.CString.{c_str, strcmp, literal}
use homework_module.CString.Number.{strtol, to_int, print_int, digits}
use homework_module.CString.Number.Decimal.{
  AllDigits, digits-AllDigits, print_int-cons, IsInt, strtol-whole, to_int_id,
}
use homework_module.CString.Token.{
  strtok, strtok-whole, NoDelim, skip_delims, token_of, behind_token,
}
use homework_module.Drivers.Routine.{
  DriverState, busy, is_busy, is_colon, status_text, ok_text, padded, settle, set_task,
  read_message, at_token, on_message, task_message, status_message,
}

pub data Request : Type 0 where
  task : (timer : ℤ) → Request
  status : Request

abbrev pub message_of : Request → List ℕ
message_of (task timer) = task_message timer
message_of status = status_message

-- The timer of a task is an `int`.
abbrev pub IsRequest : Request → Type 0
IsRequest (task timer) = IsInt timer
IsRequest status = Unit

abbrev pub told : DriverState → DriverState × List (List ℕ)
told d = (d, padded (status_text d) ∷ [])

-- What a driver is to do: a free one takes a task and says "ok", a busy one says so and goes on, and
-- a request for the status changes nothing. A negative time ends the driver without a reply.
abbrev pub answer : DriverState → Request → DriverState × List (List ℕ)
answer d status = told d
answer d (task timer) =
    if is_busy d.status
    then told d
    else if is_negative timer
    then (record d { it_value = timer; alive = false }, [])
    else (record d { it_value = timer; status = busy }, ok_text ∷ [])

abbrev IsPlain : List ℕ → Type 0
IsPlain [] = Unit
IsPlain (c ∷ cs) = ((c == 0) ≡ false) × (((c == b':') ≡ false) × IsPlain cs)

AllDigits-IsPlain : (cs : List ℕ) → AllDigits cs → IsPlain cs
AllDigits-IsPlain [] all = tt
AllDigits-IsPlain (c ∷ cs) (t, all) = (ground arith, (ground arith, AllDigits-IsPlain cs all))

print_int-IsPlain : (z : ℤ) → IsPlain (print_int z)
unfolding print_int
print_int-IsPlain (pos n) = AllDigits-IsPlain (digits 10 n) (digits-AllDigits 10 n)
print_int-IsPlain (negsuc n) =
    (refl, (refl, AllDigits-IsPlain (digits 10 (suc n)) (digits-AllDigits 10 (suc n))))

c_str-padded : (cs : List ℕ) (k : ℕ) → IsPlain cs → c_str (cs ++ replicate k 0) ≡ cs
unfolding c_str
c_str-padded [] zero plain = refl
c_str-padded [] (suc k) plain = refl
c_str-padded (c ∷ cs) k (no_zero, (no_colon, plain)) =
    rw no_zero (ap (λ q. c ∷ q) (c_str-padded cs k plain))

IsPlain-NoDelim : (cs : List ℕ) → IsPlain cs → NoDelim is_colon cs
IsPlain-NoDelim [] plain = tt
IsPlain-NoDelim (c ∷ cs) (no_zero, (no_colon, plain)) = (no_colon, IsPlain-NoDelim cs plain)

strtok-print_int : (z : ℤ) → strtok is_colon (print_int z) ≡ some (print_int z, [])
strtok-print_int z =
    let (c, cs, e) = print_int-cons z in
    rw e
      (strtok-whole is_colon c cs (rw e at (IsPlain-NoDelim (print_int z) (print_int-IsPlain z))))

-- A status text in the place of the token is not "task".
set_task-told :
    (d : DriverState) (replies : List (List ℕ))
    → set_task d (c_str (padded (status_text d))) [] replies ≡ ok (d, replies)
unfolding set_task status_text c_str strcmp
set_task-told d replies = elim (Bool-cases (is_busy d.status)) [
  | inl t ↦ rw t refl
  | inr f ↦ rw f refl
]

strtol-time : (z : ℤ) → IsInt z → to_int (strtol (print_int z)).0 ≡ z
strtol-time z fits = ap (λ q. to_int q.0) (strtol-whole z fits) ∙ to_int_id z fits

abbrev task_word : List ℕ
task_word = literal "task"

strtok-task :
    (timer : ℤ) → strtok is_colon (c_str (task_message timer)) ≡ some (task_word, print_int timer)
unfolding c_str strtok skip_delims token_of behind_token
strtok-task timer =
    ap (λ q. some (task_word, q)) (c_str-padded (print_int timer) _ (print_int-IsPlain timer))

minus_self : (n : ℕ) → n - n ≡ 0
minus_self n = omega arith

offset-task :
    (timer : ℤ)
    → length (c_str (task_message timer))
        - length (skip_delims is_colon (c_str (task_message timer)))
      ≡ 0
unfolding c_str skip_delims
offset-task timer = minus_self (length (c_str (task_message timer)))

if-true : {A : Type 0} (b : Bool) (x y : A) → b ≡ true → (if b then x else y) ≡ x
if-true b x y t = rw t refl

if-false : {A : Type 0} (b : Bool) (x y : A) → b ≡ false → (if b then x else y) ≡ y
if-false b x y f = rw f refl

settle-answer :
    (d : DriverState) (timer : ℤ)
    → is_busy d.status ≡ false
    → settle d timer [] ≡ answer d (task timer)
unfolding settle
settle-answer d timer f = sym (if-false (is_busy d.status) (told d) (settle d timer []) f)

set_task-free :
    (d : DriverState) (timer : ℤ)
    → IsInt timer
    → set_task d task_word (print_int timer) [] ≡ ok (settle d timer [])
unfolding set_task strcmp
set_task-free d timer fits = rw (strtok-print_int timer, strtol-time timer fits) refl

at_token-task :
    (d : DriverState) (timer : ℤ)
    → IsInt timer
    → at_token d 0 task_word (print_int timer) ≡ ok (answer d (task timer))
unfolding at_token strcmp
at_token-task d timer fits = elim (Bool-cases (is_busy d.status)) [
  | inl t ↦
      if-true (is_busy d.status) _ (set_task d task_word (print_int timer) []) t
      ∙ (set_task-told d (padded (status_text d) ∷ [])
          ∙ ap ok (sym (if-true (is_busy d.status) (told d) _ t)))
  | inr f ↦
      if-false (is_busy d.status) _ (set_task d task_word (print_int timer) []) f
      ∙ (set_task-free d timer fits ∙ ap ok (settle-answer d timer f))
]

on_message-alive :
    (d : DriverState) (buffer : List ℕ)
    → d.alive ≡ true
    → on_message d buffer ≡ read_message d buffer
unfolding on_message
on_message-alive d buffer alive = if-true d.alive (read_message d buffer) (ok (d, [])) alive

read_message-token :
    (d : DriverState) (buffer token rest : List ℕ)
    → strtok is_colon (c_str buffer) ≡ some (token, rest)
    → read_message d buffer
      ≡ at_token d (length (c_str buffer) - length (skip_delims is_colon (c_str buffer))) token rest
unfolding read_message
read_message-token d buffer token rest e = rw (e, read_message) refl

read_message-task :
    (d : DriverState) (timer : ℤ)
    → IsInt timer
    → read_message d (task_message timer) ≡ ok (answer d (task timer))
read_message-task d timer fits =
    read_message-token d (task_message timer) task_word (print_int timer) (strtok-task timer)
    ∙ (ap (λ q. at_token d q task_word (print_int timer)) (offset-task timer)
        ∙ at_token-task d timer fits)

read_message-status : (d : DriverState) → read_message d status_message ≡ ok (told d)
unfolding read_message at_token c_str strtok skip_delims token_of behind_token strcmp
read_message-status d = set_task-told d (padded (status_text d) ∷ [])

pub on_message-answer :
    (d : DriverState) (request : Request)
    → d.alive ≡ true
    → IsRequest request
    → on_message d (message_of request) ≡ ok (answer d request)
on_message-answer d (task timer) alive fits =
    on_message-alive d (task_message timer) alive ∙ read_message-task d timer fits
on_message-answer d status alive fits =
    on_message-alive d status_message alive ∙ read_message-status d
