-- ===== src/Shell/Bars.antt =====
-- How a line of 04/main.c is cut into commands at its bars.
use homework_module.Prelude.{
  ℕ, zero, suc, ◌+◌, ◌≤◌, ◌<◌, ◌≡◌, refl, ap, some, List, [], ◌∷◌, ◌++◌, length, length-append, ok,
  and_then, arith, lt→ltb,
}
use homework_module.CString.Token.{NoDelim, strtok, strtok-whole, strtok-split}
use homework_module.Shell.{is_pipe_delim, max_argv_size, split_commands}

-- The commands of a line with `|` between them.
abbrev pub bar_join : List (List ℕ) → List ℕ
bar_join [] = []
bar_join (command ∷ []) = command
bar_join (command ∷ next ∷ commands) = command ++ b'|' ∷ bar_join (next ∷ commands)

-- A command of the line: not empty, and without a bar.
abbrev pub AllParts : List (List ℕ) → Type 0
AllParts [] = Unit
AllParts ([] ∷ commands) = ⊥
AllParts ((c ∷ cs) ∷ commands) = NoDelim is_pipe_delim (c ∷ cs) × AllParts commands

strtok-bar_join :
    (command : List ℕ) (commands : List (List ℕ))
    → AllParts (command ∷ commands)
    → (rest : List ℕ) × (strtok is_pipe_delim (bar_join (command ∷ commands))
        ≡ some (command, rest))
strtok-bar_join [] commands parts = elim parts [ ]
strtok-bar_join (c ∷ cs) [] (none_in, parts) = ([], strtok-whole is_pipe_delim c cs none_in)
strtok-bar_join (c ∷ cs) (next ∷ commands) (none_in, parts) = (
  bar_join (next ∷ commands),
  strtok-split is_pipe_delim c cs b'|' (bar_join (next ∷ commands)) none_in refl,
)

split_commands-more :
    (fuel count : ℕ) (token rest : List ℕ) (next : List ℕ × List ℕ)
    → strtok is_pipe_delim rest ≡ some next
    → suc count < max_argv_size
    → split_commands (suc fuel) count (some (token, rest))
      ≡ and_then
          (split_commands fuel (suc count) (strtok is_pipe_delim rest))
          (λ tokens. ok (token ∷ tokens))
unfolding split_commands
split_commands-more fuel count token rest next e room =
    rw (e, split_commands)
      (rw (lt→ltb (suc count) max_argv_size room)
        (ap (λ q. and_then (split_commands fuel (suc count) q) (λ tokens. ok (token ∷ tokens))) e))

pub split_commands-bar_join :
    (fuel count : ℕ) (command : List ℕ) (commands : List (List ℕ))
    → AllParts (command ∷ commands)
    → length commands < fuel
    → count + length (command ∷ commands) ≤ max_argv_size
    → split_commands fuel count (strtok is_pipe_delim (bar_join (command ∷ commands)))
      ≡ ok (command ∷ commands)
unfolding split_commands
split_commands-bar_join zero count command commands parts m few = absurd (omega arith)
split_commands-bar_join (suc fuel) count [] commands parts m few = elim parts [ ]
split_commands-bar_join (suc fuel) count (c ∷ cs) [] (none_in, parts) m few =
    rw (strtok-whole is_pipe_delim c cs none_in, split_commands) (unfold strtok in refl)
split_commands-bar_join (suc fuel) count (c ∷ cs) ([] ∷ commands) (none_in, parts) m few =
    elim parts [ ]
split_commands-bar_join (suc fuel) count (c ∷ cs) ((d ∷ ds) ∷ commands) (none_in, parts) m few =
    let (rest, e) = strtok-bar_join (d ∷ ds) commands parts in
    let ih =
      split_commands-bar_join fuel (suc count) (d ∷ ds) commands parts (omega arith)
        (omega arith) in
    rw
      (
        strtok-split is_pipe_delim c cs b'|' (bar_join ((d ∷ ds) ∷ commands)) none_in refl,
        split_commands-more fuel count (c ∷ cs) (bar_join ((d ∷ ds) ∷ commands)) (d ∷ ds, rest) e
            (omega arith),
        ih,
      )
      refl

pub length-bar_join :
    (command : List ℕ) (commands : List (List ℕ))
    → length commands ≤ length (bar_join (command ∷ commands))
length-bar_join command [] = omega arith
length-bar_join command (next ∷ commands) = omega (
  arith,
  length-append {0} command (b'|' ∷ bar_join (next ∷ commands)),
  length-bar_join next commands,
)
