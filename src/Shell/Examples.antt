-- ===== src/Shell/Examples.antt =====
-- Lines of 04/main.c: `cat < in|wc >> out`, a line of one blank, and an old word behind the arguments.
use homework_module.Prelude.{
  ℕ, zero, suc, ◌≡◌, refl, true, none, some, List, [], ◌∷◌, ◌++◌, ok, fault, arith,
}
use homework_module.CString.{literal, strcmp}
use homework_module.Shell.{
  Stale, own, Table, Kernel, Parsed, nothing_parsed, parse_command, exec_args, on_line, left,
  ignored, is_space_delim, split_commands, run_loop,
}
use homework_module.CString.Token.{strtok, NoDelim, has_none, has_none-NoDelim}
use homework_module.Shell.Words.{arg, from, onto, apply_all, parse_command-line}

abbrev working : Kernel
working = record { fork_ok = λ _. true; input_ok = λ _. true; output_ok = λ _. true }

abbrev terminal : Table
terminal zero = some (own 0)
terminal (suc zero) = some (own 1)
terminal (suc (suc zero)) = some (own 2)
terminal (suc (suc (suc _))) = none

abbrev clear : Stale
clear = none ∷ none ∷ none ∷ []

blankless : (s : List ℕ) → has_none is_space_delim s ≡ true → NoDelim is_space_delim s
blankless s e = has_none-NoDelim is_space_delim s e

abbrev cat_in : List ℕ
cat_in = literal "cat < in"

abbrev wc_out : List ℕ
wc_out = literal "wc >> out"

parse_command-line_example :
    parse_command clear cat_in
    ≡ ok (some (apply_all (arg (literal "cat") ∷ from (literal "in") ∷ []) nothing_parsed))
unfolding strcmp
parse_command-line_example =
    parse_command-line clear (arg (literal "cat")) (from (literal "in") ∷ []) (literal "cat") []
      (
        (blankless (literal "cat") refl, refl, refl, refl),
        ((blankless (literal "in") refl, omega arith), tt),
      )
      (omega arith) refl

abbrev cat_parsed : Parsed
cat_parsed = apply_all (arg (literal "cat") ∷ from (literal "in") ∷ []) nothing_parsed

abbrev wc_parsed : Parsed
wc_parsed = apply_all (arg (literal "wc") ∷ onto (literal "out") ∷ []) nothing_parsed

-- `main` asks again for a line of a newline, leaves at `exit`, and fails at a line of one blank.
reactions :
    (on_line working clear terminal (10 ∷ 0 ∷ []) ≡ ok ignored)
    × (on_line working clear terminal (literal "exit" ++ 10 ∷ 0 ∷ []) ≡ ok left)
    × (on_line working clear terminal (32 ∷ 10 ∷ 0 ∷ []) ≡ fault)
unfolding on_line strcmp strtok split_commands run_loop parse_command
reactions = (refl, refl, refl)

-- The words that the stack holds behind the arguments are passed to the program as well.
stale_argument :
    exec_args (none ∷ some (literal "old") ∷ none ∷ []) (literal "ls" ∷ [])
    ≡ some (literal "ls" ∷ literal "old" ∷ [])
unfolding exec_args
stale_argument = refl
