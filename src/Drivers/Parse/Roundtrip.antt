-- ===== src/Drivers/Parse/Roundtrip.antt =====
-- The command lines that `execute` of cross2/main.c takes for a task.
use homework_module.Prelude.{
  ℕ, zero, suc, ◌≤◌, ◌≡◌, refl, ap, ◌∙◌, true, false, some, List, [], ◌∷◌, ◌++◌, length,
  length-append, replicate, arith,
}
use homework_module.Prelude.Int.{ℤ}
use homework_module.CString.{c_str, strncpy, literal, strcmp}
use homework_module.CString.Number.{is_space, is_digit, print_int}
use homework_module.CString.Number.Decimal.{
  print_int-NoDelim, print_int-cons, length-print_int, IsInt, strtol-whole, digit-no_end, to_int_id,
}
use homework_module.CString.Token.{
  strtok, strtok-split, strtok-whole, NoDelim, NoDelim-append, is_end,
}
use homework_module.Drivers.{Driver}
use homework_module.Drivers.Commands.{CreateCalls, send_task}
use homework_module.Drivers.Parse.{
  max_command_size, int_argument, task_command, command_of, execute,
}

abbrev pub send_task_line : (pid timer : ℤ) → List ℕ
send_task_line pid timer = literal "send_task " ++ (print_int pid ++ b' ' ∷ print_int timer)

-- A text that fits is copied whole.
c_str-strncpy_whole :
    (n : ℕ) (src : List ℕ)
    → length src ≤ n
    → NoDelim is_end src
    → c_str (strncpy (replicate n 0) src n) ≡ src
unfolding strncpy c_str
c_str-strncpy_whole zero [] fits none_in = refl
c_str-strncpy_whole zero (c ∷ src) fits none_in = absurd (omega arith)
c_str-strncpy_whole (suc n) [] fits none_in = refl
c_str-strncpy_whole (suc n) (c ∷ src) fits (f, none_in) =
    rw f (ap (λ q. c ∷ q) (c_str-strncpy_whole n src (omega arith) none_in))

digit-no_space : (c : ℕ) → is_digit c ≡ true → is_space c ≡ false
digit-no_space c t = ground arith

send_task_line-no_end : (pid timer : ℤ) → NoDelim is_end (send_task_line pid timer)
send_task_line-no_end pid timer = (
  refl,
  (
    refl,
    (
      refl,
      (
        refl,
        (
          refl,
          (
            refl,
            (
              refl,
              (
                refl,
                (
                  refl,
                  (
                    refl,
                    NoDelim-append is_end (print_int pid) (b' ' ∷ print_int timer)
                        (print_int-NoDelim is_end pid digit-no_end refl)
                        (refl, print_int-NoDelim is_end timer digit-no_end refl),
                  ),
                ),
              ),
            ),
          ),
        ),
      ),
    ),
  ),
)

length-send_task_line : (pid timer : ℤ) → length (send_task_line pid timer) ≤ max_command_size
length-send_task_line pid timer = omega (
  arith,
  length-append (print_int pid) (b' ' ∷ print_int timer),
  length-print_int pid,
  length-print_int timer,
)

-- One printed word, then what follows.
int_argument-token :
    (line rest : List ℕ) (z : ℤ)
    → IsInt z
    → strtok is_space line ≡ some (print_int z, rest)
    → int_argument line ≡ some (z, rest)
unfolding int_argument
int_argument-token line rest z fits e =
    rw (e, int_argument, strtol-whole z fits) (ap (λ q. some (q, rest)) (to_int_id z fits))

int_argument-more :
    (z : ℤ) (rest : List ℕ) → IsInt z → int_argument (print_int z ++ b' ' ∷ rest) ≡ some (z, rest)
int_argument-more z rest fits =
    let (c, cs, e) = print_int-cons z in
    let none_in = print_int-NoDelim is_space z digit-no_space refl in
    int_argument-token (print_int z ++ b' ' ∷ rest) rest z fits
      (rw e (strtok-split is_space c cs b' ' rest (rw e at none_in) refl))

int_argument-last : (z : ℤ) → IsInt z → int_argument (print_int z) ≡ some (z, [])
int_argument-last z fits =
    let (c, cs, e) = print_int-cons z in
    let none_in = print_int-NoDelim is_space z digit-no_space refl in
    int_argument-token (print_int z) [] z fits (rw e (strtok-whole is_space c cs (rw e at none_in)))

abbrev task_word : List ℕ
task_word = literal "send_task"

command_of-task :
    (calls : CreateCalls) (pid timer : ℤ) (drivers : List Driver)
    → IsInt pid
    → IsInt timer
    → command_of calls task_word (print_int pid ++ b' ' ∷ print_int timer) drivers
      ≡ send_task pid timer drivers
unfolding command_of task_command strcmp
command_of-task calls pid timer drivers fits_pid fits_timer =
    rw
      (
        int_argument-more pid (print_int timer) fits_pid,
        int_argument-last timer fits_timer,
        task_command,
      )
      refl

execute-token :
    (calls : CreateCalls) (command token rest : List ℕ) (drivers : List Driver)
    → strtok is_space (c_str (strncpy (replicate max_command_size 0) command max_command_size))
      ≡ some (token, rest)
    → execute calls command drivers ≡ command_of calls token rest drivers
unfolding execute
execute-token calls command token rest drivers e = rw (e, execute) refl

-- The line that names a pid and a timer, both of them an `int`, is carried out as `send_task` of
-- the two.
pub execute-send_task_line :
    (calls : CreateCalls) (pid timer : ℤ) (drivers : List Driver)
    → IsInt pid
    → IsInt timer
    → execute calls (send_task_line pid timer) drivers ≡ send_task pid timer drivers
execute-send_task_line calls pid timer drivers fits_pid fits_timer =
    let line = send_task_line pid timer in
    let tail = print_int pid ++ b' ' ∷ print_int timer in
    execute-token calls line task_word tail drivers (
      ap (strtok is_space) (
        c_str-strncpy_whole max_command_size line (length-send_task_line pid timer)
          (send_task_line-no_end pid timer))
      ∙ strtok-split is_space b's' (literal "end_task") b' ' tail
          (refl, (refl, (refl, (refl, (refl, (refl, (refl, (refl, (refl, tt))))))))) refl)
    ∙ command_of-task calls pid timer drivers fits_pid fits_timer
