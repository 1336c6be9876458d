-- ===== src/Shell.antt =====
-- 04/main.c: a shell that runs a line of commands with pipes between them and with redirections.
-- A descriptor table is a function; `fork` gives the child a copy of it.
pub mod Words
pub mod Descriptors
pub mod Wiring
pub mod Bars
pub mod Pipeline
mod Examples
use homework_module.Prelude.{
  ℕ, zero, suc, ◌+◌, Bool, true, false, ◌&&◌, ◌||◌, not, Option, none, some, List, [], ◌∷◌, ◌++◌,
  ◌==◌, ltb, leb, if◌then◌else◌, length, drop, get_or, Run, ok, fault, out_of_fuel, and_then,
}
use homework_module.Prelude.Int.{is_zero}
use homework_module.CString.{c_str, strcmp, literal}
use homework_module.CString.Token.{strtok}

-- The bytes of `SPACE_DELIM`: blank, \t, \f, \n, \r, \v.
abbrev pub is_space_delim : ℕ → Bool
is_space_delim c = c == 32 || c == 9 || c == 12 || c == 10 || c == 13 || c == 11

abbrev pub is_pipe_delim : ℕ → Bool
is_pipe_delim c = c == b'|'

abbrev pub max_argv_size : ℕ
max_argv_size = 8192

abbrev pub filename_max : ℕ
filename_max = 4096

-- What `parse_command` fills in; `argc` is the length of `argv`.
pub record Parsed : Type 0 where
  pub argv : List (List ℕ)
  pub input_filename : List ℕ
  pub output_filename : List ℕ
  pub append : Bool

abbrev pub nothing_parsed : Parsed
nothing_parsed = record { argv = []; input_filename = []; output_filename = []; append = false }

-- `strcpy` of a token into a name's array: NULL, or a token that does not fit, is a fault.
unfoldable pub strcpy_name : Option (List ℕ × List ℕ) → Run (List ℕ × List ℕ)
strcpy_name none = fault
strcpy_name (some (token, rest)) =
    if ltb (length token) filename_max then ok (token, rest) else fault

abbrev pub same : List ℕ → List ℕ → Bool
same xs ys = is_zero (strcmp xs ys)

-- The body of the loop for one token; `rest` is what `strtok(NULL, …)` goes on with.
unfoldable pub parse_token : (token rest : List ℕ) → Parsed → Run (Parsed × List ℕ)
unfolding strcpy_name
parse_token token rest p =
    if same token (literal "<")
    then and_then (strcpy_name (strtok is_space_delim rest))
        (λ r. ok (record p { input_filename = r.0 }, r.1))
    else if same token (literal ">")
    then and_then (strcpy_name (strtok is_space_delim rest))
        (λ r. ok (record p { output_filename = r.0; append = false }, r.1))
    else if same token (literal ">>")
    then and_then (strcpy_name (strtok is_space_delim rest))
        (λ r. ok (record p { output_filename = r.0; append = true }, r.1))
    else ok (record p { argv = p.argv ++ token ∷ [] }, rest)

-- `do … while (token != NULL && *argc < MAX_ARGV_SIZE)`: `strcmp` of a NULL token is a fault.
unfoldable pub parse_loop : (fuel : ℕ) → Option (List ℕ × List ℕ) → Parsed → Run Parsed
parse_loop zero next p = out_of_fuel
parse_loop (suc fuel) none p = fault
parse_loop (suc fuel) (some (token, rest)) p = and_then (parse_token token rest p) (λ r.
    let next = strtok is_space_delim r.1 in
    let more = parse_loop fuel next r.0 in
    elim next [
      | none ↦ ok r.0
      | some _ ↦ if ltb (length r.0.argv) max_argv_size then more else ok r.0
    ])

-- The words of the uninitialised array `argv`, behind those that the parser wrote.
abbrev pub Stale : Type 0
Stale = List (Option (List ℕ))

-- `argv[0] == NULL`, where the parser may have written nothing.
unfoldable pub lacks_command : Stale → (argv : List (List ℕ)) → Bool
lacks_command stale (arg ∷ args) = false
lacks_command (none ∷ stale) [] = true
lacks_command (some _ ∷ stale) [] = false
lacks_command [] [] = false

-- `none` is the return value -1.
unfoldable pub parse_command : Stale → (command : List ℕ) → Run (Option Parsed)
unfolding parse_loop lacks_command
parse_command stale command =
    and_then (parse_loop (suc (length command)) (strtok is_space_delim command) nothing_parsed)
      (λ p. ok (if lacks_command stale p.argv then none else some p))

until_null : Stale → Option (List (List ℕ))
until_null [] = none
until_null (none ∷ stale) = some []
until_null (some arg ∷ stale) = elim (until_null stale) [
  | none ↦ none
  | some args ↦ some (arg ∷ args)
]

-- The arguments that `execvp` reads: it goes on to the first NULL, which the parser does not write.
unfoldable pub exec_args : Stale → (argv : List (List ℕ)) → Option (List (List ℕ))
unfolding until_null
exec_args stale argv = elim (until_null (drop (length argv) stale)) [
  | none ↦ none
  | some args ↦ some (argv ++ args)
]

-- What a descriptor stands for: one of the shell's own, an end of the pipe before command `i + 1`,
-- or a file.
pub data Target : Type 0 where
  own : ℕ → Target
  pipe_read pipe_write : (i : ℕ) → Target
  read_file : (name : List ℕ) → Target
  write_file : (name : List ℕ) (append : Bool) → Target

abbrev pub Table : Type 0
Table = ℕ → Option Target

unfoldable pub put : Table → ℕ → Option Target → Table
put t fd target x = if x == fd then target else t x

unfoldable pub close : Table → ℕ → Table
unfolding put
close t fd = put t fd none

-- A descriptor that is not open leaves the table as it is.
unfoldable pub dup2 : Table → (from to : ℕ) → Table
unfolding put
dup2 t from to = elim (t from) [ none ↦ t | some target ↦ put t to (some target) ]

-- The lowest free descriptor, which `open` and `pipe` give.
unfoldable pub lowest : (fuel fd : ℕ) → Table → ℕ
lowest zero fd t = fd
lowest (suc fuel) fd t = elim (t fd) [ none ↦ fd | some _ ↦ lowest fuel (suc fd) t ]

abbrev pub open_max : ℕ
open_max = 1024

unfoldable pub open_fd : Table → Target → Table × ℕ
unfolding lowest put
open_fd t target = let fd = lowest open_max 0 t in (put t fd (some target), fd)

-- Whether the calls for command `i` succeed.
pub record Kernel : Type 0 where
  pub fork_ok : ℕ → Bool
  pub input_ok : ℕ → Bool
  pub output_ok : ℕ → Bool

-- `if (filename[0] != '\0')`: open, `dup2` onto `to`, close; `none` is `exit(1)`.
unfoldable pub redirect :
    (opens : Bool) (filename : List ℕ) → Target → (to : ℕ) → Table → Option Table
unfolding open_fd dup2 close
redirect opens [] target to t = some t
redirect opens (c ∷ name) target to t =
    if opens then (let (t', fd) = open_fd t target in some (close (dup2 t' fd to) fd)) else none

-- `if (prev_pipefd != -1)`: the read end of the pipe before becomes the standard input.
pub take_stdin : (prev_pipefd : Option ℕ) → Table → Table
unfolding dup2 close
take_stdin none t = t
take_stdin (some fd) t = close (dup2 t fd 0) fd

-- The child's part of `execute_command`, up to `execvp`.
unfoldable pub child_table :
    Kernel
    → (i : ℕ) → Parsed
    → (prev_pipefd : Option ℕ) (infd outfd : ℕ) (not_last : Bool) → Table
    → Option Table
unfolding take_stdin redirect dup2 close
child_table kernel i p prev_pipefd infd outfd not_last t =
    let joined = take_stdin prev_pipefd t in
    let piped = if not_last then close (close (dup2 joined outfd 1) infd) outfd else joined in
    elim (redirect (kernel.input_ok i) p.input_filename (read_file p.input_filename) 0 piped) [
      | none ↦ none
      | some t' ↦
          redirect (kernel.output_ok i) p.output_filename (write_file p.output_filename p.append) 1
            t'
    ]

-- A child: its arguments, and its descriptors at `execvp`, or `none` after `exit(1)`.
pub record Child : Type 0 where
  pub args : Option (List (List ℕ))
  pub table : Option Table

-- `if (not_last) pipe(pipefd)`: the table, and the two ends.
pub make_pipe : (not_last : Bool) (i : ℕ) → Table → Table × ℕ × ℕ
unfolding open_fd
make_pipe false i t = (t, 0, 0)
make_pipe true i t =
    let (t_in, infd) = open_fd t (pipe_read i) in
    let (t_out, outfd) = open_fd t_in (pipe_write i) in (t_out, infd, outfd)

-- What the parent closes behind the fork.
pub parent_table : (prev_pipefd : Option ℕ) (not_last : Bool) (outfd : ℕ) → Table → Table
unfolding close
parent_table none not_last outfd t = if not_last then close t outfd else t
parent_table (some fd) not_last outfd t =
    let left = close t fd in if not_last then close left outfd else left

-- The rounds of the loop of `run` from command `i` on, with the pipe's ends and the parent's table.
-- A failed parse returns at once.
unfoldable pub run_loop :
    Kernel
    → Stale
    → (i : ℕ) (prev_pipefd : Option ℕ) → Table
    → (commands : List (List ℕ)) → Run (List Child × Table)
unfolding parse_command child_table exec_args make_pipe parent_table
run_loop kernel stale i prev_pipefd t [] = ok ([], t)
run_loop kernel stale i prev_pipefd t (command ∷ commands) =
    and_then (parse_command stale command) (λ parsed. elim parsed [
      | none ↦ ok ([], t)
      | some p ↦
          (let not_last = ltb 0 (length commands) in
            let (t', infd, outfd) = make_pipe not_last i t in
            let child : Child = record {
              args = exec_args stale p.argv;
              table = child_table kernel i p prev_pipefd infd outfd not_last t';
            } in
            let next =
              run_loop kernel stale (suc i) (if not_last then some infd else prev_pipefd)
                (parent_table prev_pipefd not_last outfd t') commands in
            and_then next (λ r. ok (if kernel.fork_ok i then child ∷ r.0 else r.0, r.1)))
    ])

-- `do { commands[commands_count++] = token; … } while (…)`; a NULL command makes `strncpy` a fault.
unfoldable pub split_commands : (fuel count : ℕ) → Option (List ℕ × List ℕ) → Run (List (List ℕ))
split_commands zero count next = out_of_fuel
split_commands (suc fuel) count none = fault
split_commands (suc fuel) count (some (token, rest)) =
    let next = strtok is_pipe_delim rest in
    let more = split_commands fuel (suc count) next in
    elim next [
      | none ↦ ok (token ∷ [])
      | some _ ↦
          if ltb (suc count) max_argv_size
          then and_then more (λ tokens. ok (token ∷ tokens))
          else ok (token ∷ [])
    ]

unfoldable pub run : Kernel → Stale → Table → (input : List ℕ) → Run (List Child × Table)
unfolding split_commands run_loop
run kernel stale t input =
    and_then (split_commands (suc (length input)) 0 (strtok is_pipe_delim input))
      (run_loop kernel stale 0 none t)

-- `input[strcspn(input, "\r\n")] = '\0'`.
unfoldable pub cut_line : List ℕ → List ℕ
cut_line [] = []
cut_line (c ∷ cs) = if c == 0 || c == 10 || c == 13 then [] else c ∷ cut_line cs

-- What `main` does with a line: it asks again, leaves, or asks again behind `run`.
pub data Reaction : Type 0 where
  ignored left : Reaction
  ran : List Child → Table → Reaction

unfoldable pub on_line : Kernel → Stale → Table → (input : List ℕ) → Run Reaction
unfolding cut_line run
on_line kernel stale t input =
    if get_or input 0 0 == 10
    then ok ignored
    else if same (cut_line input) (literal "exit")
    then ok left
    else and_then (run kernel stale t (cut_line input)) (λ r. ok (ran r.0 r.1))
