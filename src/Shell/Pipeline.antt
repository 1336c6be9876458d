-- ===== src/Shell/Pipeline.antt =====
-- A whole line of 04/main.c: its commands, joined by pipes.
use homework_module.Prelude.{
  ℕ, suc, ◌≡◌, refl, Bool, true, false, Option, none, some, List, [], ◌∷◌, ltb, if◌then◌else◌,
  length, ok, and_then, arith, lt→ltb,
}
use homework_module.Shell.{
  Parsed, Stale, Target, own, pipe_read, pipe_write, read_file, write_file, Table, Kernel, Child,
  child_table, make_pipe, parent_table, run_loop, parse_command, exec_args,
}
use homework_module.Shell.Descriptors.{Holds}
use homework_module.Shell.Wiring.{
  IsParent, joined, round, redirected, redirect_stdin, redirect_stdout,
}

-- Every fork and every `open` succeeds.
abbrev pub AllWork : Kernel → Type 0
AllWork kernel =
    ((i : ℕ) → kernel.fork_ok i ≡ true)
    × ((i : ℕ) → kernel.input_ok i ≡ true)
    × ((i : ℕ) → kernel.output_ok i ≡ true)

-- The commands are parsed as these.
abbrev pub AllParsed : Stale → List (List ℕ) → List Parsed → Type 0
AllParsed stale [] [] = Unit
AllParsed stale (command ∷ commands) (p ∷ ps) =
    (parse_command stale command ≡ ok (some p)) × AllParsed stale commands ps
AllParsed stale _ _ = ⊥

abbrev pub stdout_of : (i : ℕ) (rest : List Parsed) → Target
stdout_of i [] = own 1
stdout_of i (_ ∷ _) = pipe_write i

-- A child with these ends, and no descriptor behind the first three.
abbrev pub IsChild : Stale → (source target : Target) → Parsed → Child → Type 0
IsChild stale source target p child =
    (child.args ≡ exec_args stale p.argv)
    × ((t : Table) × (child.table ≡ some t)
        × Holds (redirected p.input_filename (read_file p.input_filename) source)
            (redirected p.output_filename (write_file p.output_filename p.append) target) 3 none t)

-- One child for each command: it reads from the pipe that the command before writes to.
abbrev pub IsPipeline : Stale → (i : ℕ) → (source : Target) → List Parsed → List Child → Type 0
IsPipeline stale i source [] [] = Unit
IsPipeline stale i source (p ∷ ps) (child ∷ children) =
    IsChild stale source (stdout_of i ps) p child
    × IsPipeline stale (suc i) (pipe_read i) ps children
IsPipeline stale i source _ _ = ⊥

run_loop-cons :
    (kernel : Kernel) (stale : Stale) (i : ℕ) (prev : Option ℕ) (t : Table) (command : List ℕ)
    (commands : List (List ℕ)) (p : Parsed) (not_last : Bool) (t' : Table) (infd outfd : ℕ)
    → parse_command stale command ≡ ok (some p)
    → ltb 0 (length commands) ≡ not_last
    → make_pipe not_last i t ≡ (t', infd, outfd)
    → kernel.fork_ok i ≡ true
    → run_loop kernel stale i prev t (command ∷ commands)
      ≡ and_then
          (run_loop kernel stale
            (suc i)
            (if not_last then some infd else prev)
            (parent_table prev not_last outfd t')
            commands)
          (λ r. ok (
            record {
              args = exec_args stale p.argv;
              table = child_table kernel i p prev infd outfd not_last t';
            }
                ∷ r.0,
            r.1,
          ))
unfolding run_loop
run_loop-cons kernel stale i prev t command commands p not_last t' infd outfd is more made forked =
    rw (is, more, made, forked) refl

module _ (kernel : Kernel) (work : AllWork kernel) where
  child_table-Holds :
      (i : ℕ) (p : Parsed) (prev : Option ℕ) (infd outfd : ℕ) (not_last : Bool) (t : Table)
      {source target : Target}
      → Holds source target 3 none (joined prev infd outfd not_last t)
      → (t' : Table) × (child_table kernel i p prev infd outfd not_last t ≡ some t')
        × Holds
            (redirected p.input_filename (read_file p.input_filename) source)
            (redirected p.output_filename (write_file p.output_filename p.append) target)
            3
            none
            t'
  unfolding child_table
  child_table-Holds i p prev infd outfd not_last t holds =
      let (t_in, e_in, holds_in) =
        redirect_stdin (kernel.input_ok i) p.input_filename (read_file p.input_filename)
          (joined prev infd outfd not_last t) (work.1 i) holds in
      let (t_out, e_out, holds_out) =
        redirect_stdout (kernel.output_ok i) p.output_filename
          (write_file p.output_filename p.append) t_in (work.2 i) holds_in in
      (t_out, rw (e_in, child_table) e_out, holds_out)

  pub run_loop-IsPipeline :
      (stale : Stale) (i : ℕ) (prev : Option ℕ) (source : Target) (t : Table) (command : List ℕ)
      (commands : List (List ℕ)) (ps : List Parsed)
      → IsParent prev source t
      → AllParsed stale (command ∷ commands) ps
      → (children : List Child) × (t' : Table) × (run_loop kernel stale i prev t
            (command ∷ commands)
          ≡ ok (children, t'))
        × IsPipeline stale i source ps children
        × Holds (own 0) (own 1) 3 none t'
  run_loop-IsPipeline stale i prev source t command commands [] parent parsed = elim parsed [ ]
  run_loop-IsPipeline stale i prev source t command [] (p ∷ []) parent (is, parsed) =
      let (holds, closed) = round prev source i false t parent in
      let (t_child, e_child, holds_child) = child_table-Holds i p prev 0 0 false t holds in
      (
        record { args = exec_args stale p.argv; table = child_table kernel i p prev 0 0 false t }
            ∷ [],
        parent_table prev false 0 t,
        rw
            (run_loop-cons kernel stale i prev t command [] p false t 0 0 is refl
              (unfold make_pipe in refl) (work.0 i))
            (unfold run_loop in refl),
        ((refl, (t_child, e_child, holds_child)), tt),
        closed,
      )
  run_loop-IsPipeline stale i prev source t command [] (p ∷ q ∷ ps) parent (is, parsed) =
      elim parsed [ ]
  run_loop-IsPipeline stale i prev source t command (next ∷ commands) (p ∷ []) parent (is, parsed) =
      elim parsed [ ]
  run_loop-IsPipeline stale i prev source t command (next ∷ commands) (p ∷ q ∷ ps) parent
        (is, parsed) =
      let (t', infd, outfd, made, holds, parent') = round prev source i true t parent in
      let (t_child, e_child, holds_child) = child_table-Holds i p prev infd outfd true t' holds in
      let (children, t_end, e_rest, pipeline, closed) =
        run_loop-IsPipeline stale (suc i) (some infd) (pipe_read i)
          (parent_table prev true outfd t') next commands (q ∷ ps) parent' parsed in
      (
        record {
          args = exec_args stale p.argv;
          table = child_table kernel i p prev infd outfd true t';
        }
            ∷ children,
        t_end,
        rw
            (
              run_loop-cons kernel stale i prev t command (next ∷ commands) p true t' infd outfd is
                  (lt→ltb 0 (length (next ∷ commands)) (omega arith)) made (work.0 i),
              e_rest,
            )
            refl,
        ((refl, (t_child, e_child, holds_child)), pipeline),
        closed,
      )
