-- ===== src/Shell/Wiring.antt =====
-- Which descriptors the children of 04/main.c and the shell itself hold.
use homework_module.Prelude.{
  ℕ, ◌≤◌, ◌≡◌, ◌⊎◌, inl, inr, refl, sym, Bool, true, false, Option, none, some, List, [], ◌∷◌,
  if◌then◌else◌, arith,
}
use mathlib.Core.Path.{subst}
use homework_module.Shell.{
  Target, own, pipe_read, pipe_write, Table, put, close, dup2, open_fd, redirect, take_stdin,
  make_pipe, parent_table,
}
use homework_module.Shell.Descriptors.{
  Holds, lowest_3, make_pipe-none, make_pipe-3, make_pipe-4, piped,
}

-- What the shell holds between two rounds: the read end of the last pipe, if there is one.
abbrev pub IsParent : (prev_pipefd : Option ℕ) → (source : Target) → Table → Type 0
IsParent none source t = (source ≡ own 0) × Holds (own 0) (own 1) 3 none t
IsParent (some fd) source t = ((fd ≡ 3) ⊎ (fd ≡ 4)) × Holds (own 0) (own 1) fd (some source) t

-- The child's table before the redirections.
abbrev pub joined : (prev_pipefd : Option ℕ) (infd outfd : ℕ) (not_last : Bool) → Table → Table
joined prev_pipefd infd outfd not_last t =
    let base = take_stdin prev_pipefd t in
    if not_last then close (close (dup2 base outfd 1) infd) outfd else base

-- A round: what the child has, and what the shell keeps for the next one.
abbrev pub IsRound : Option ℕ → Target → (i : ℕ) → Bool → Table → Type 0
IsRound prev source i true t =
    (t' : Table) × (infd : ℕ) × (outfd : ℕ) × (make_pipe true i t ≡ (t', infd, outfd))
    × Holds source (pipe_write i) 3 none (joined prev infd outfd true t')
    × IsParent (some infd) (pipe_read i) (parent_table prev true outfd t')
IsRound prev source i false t =
    Holds source (own 1) 3 none (joined prev 0 0 false t)
    × Holds (own 0) (own 1) 3 none (parent_table prev false 0 t)

dup2-some :
    (t : Table) (from to : ℕ) {target : Target}
    → t from ≡ some target
    → dup2 t from to ≡ put t to (some target)
unfolding dup2
dup2-some t from to e = rw (e, dup2) refl

-- The child's table where it reads from a pipe, as the calls leave it.
abbrev spliced : Table → (fd infd outfd i : ℕ) (source : Target) → Table
spliced t fd infd outfd i source =
    close
      (close (put (close (put (piped t i infd outfd) 0 (some source)) fd) 1 (some (pipe_write i)))
        infd)
      outfd

joined-some :
    (t : Table) (fd infd outfd i : ℕ) (source : Target)
    → piped t i infd outfd fd ≡ some source
    → close (put (piped t i infd outfd) 0 (some source)) fd outfd ≡ some (pipe_write i)
    → joined (some fd) infd outfd true (piped t i infd outfd) ≡ spliced t fd infd outfd i source
unfolding take_stdin
joined-some t fd infd outfd i source held end =
    rw
      (
        dup2-some (piped t i infd outfd) fd 0 held,
        dup2-some (close (put (piped t i infd outfd) 0 (some source)) fd) outfd 1 end,
      )
      refl

Holds-transport :
    {source target : Target} {t u : Table}
    → t ≡ u
    → Holds source target 3 none u
    → Holds source target 3 none t
Holds-transport {source} {target} e holds = subst (Holds source target 3 none) (sym e) holds

IsRound-none : (t : Table) (i : ℕ) → Holds (own 0) (own 1) 3 none t → IsRound none (own 0) i true t
unfolding put close dup2 take_stdin parent_table
IsRound-none t i (p0, p1, p2, p3, free) = (
  piped t i 3 4,
  3,
  4,
  make_pipe-none t i (p0, p1, p2, p3, free),
  (p0, refl, p2, refl, λ fd le ne. ground (arith, free fd)),
  (inl refl, (p0, p1, p2, refl, λ fd le ne. ground (arith, free fd))),
)

IsRound-3 :
    (t : Table) (i : ℕ) (source : Target)
    → Holds (own 0) (own 1) 3 (some source) t
    → IsRound (some 3) source i true t
unfolding put close parent_table
IsRound-3 t i source (p0, p1, p2, p3, free) = (
  piped t i 4 5,
  4,
  5,
  make_pipe-3 t i (p0, p1, p2, p3, free),
  Holds-transport (joined-some t 3 4 5 i source p3 refl)
      (refl, refl, p2, refl, λ fd le ne. ground (arith, free fd)),
  (inr refl, (p0, p1, p2, refl, λ fd le ne. ground (arith, free fd))),
)

IsRound-4 :
    (t : Table) (i : ℕ) (source : Target)
    → Holds (own 0) (own 1) 4 (some source) t
    → IsRound (some 4) source i true t
unfolding put close parent_table
IsRound-4 t i source (p0, p1, p2, p4, free) = (
  piped t i 3 5,
  3,
  5,
  make_pipe-4 t i (p0, p1, p2, p4, free),
  Holds-transport (joined-some t 4 3 5 i source p4 refl)
      (refl, refl, p2, refl, λ fd le ne. ground (arith, free fd)),
  (inl refl, (p0, p1, p2, refl, λ fd le ne. ground (arith, free fd))),
)

last_some :
    (t : Table) (i fd : ℕ) (source : Target)
    → 3 ≤ fd
    → Holds (own 0) (own 1) fd (some source) t
    → IsRound (some fd) source i false t
unfolding put close take_stdin parent_table
last_some t i fd source le (p0, p1, p2, kept, free) = (
  rw (dup2-some t fd 0 kept) (
    ground arith,
    ground arith,
    ground arith,
    ground (arith, free 3),
    λ q le_q ne. ground (arith, free q),
  ),
  (
    ground arith,
    ground arith,
    ground arith,
    ground (arith, free 3),
    λ q le_q ne. ground (arith, free q),
  ),
)

pub round :
    (prev : Option ℕ) (source : Target) (i : ℕ) (not_last : Bool) (t : Table)
    → IsParent prev source t
    → IsRound prev source i not_last t
unfolding take_stdin parent_table
round none source i true t (e, holds) = rw e (IsRound-none t i holds)
round none source i false t (e, holds) = rw e (holds, holds)
round (some fd) source i true t (inl e, holds) = rw e (IsRound-3 t i source (rw e at holds))
round (some fd) source i true t (inr e, holds) = rw e (IsRound-4 t i source (rw e at holds))
round (some fd) source i false t (inl e, holds) = last_some t i fd source (omega arith) holds
round (some fd) source i false t (inr e, holds) = last_some t i fd source (omega arith) holds

-- What a redirection leaves at its descriptor.
abbrev pub redirected : (filename : List ℕ) (file before : Target) → Target
redirected [] file before = before
redirected (c ∷ name) file before = file

pub redirect_stdin :
    (opens : Bool) (filename : List ℕ) (file : Target) (t : Table) {source target : Target}
    → opens ≡ true
    → Holds source target 3 none t
    → (t' : Table) × (redirect opens filename file 0 t ≡ some t')
      × Holds (redirected filename file source) target 3 none t'
unfolding redirect
redirect_stdin opens [] file t works holds = (t, refl, holds)
redirect_stdin opens (c ∷ name) file t works (p0, p1, p2, p3, free) = (
  close (dup2 (put t 3 (some file)) 3 0) 3,
  unfold open_fd in rw (works, lowest_3 t p0 p1 p2 p3) refl,
  unfold put close dup2 in (refl, p1, p2, refl, λ fd le ne. ground (arith, free fd)),
)

pub redirect_stdout :
    (opens : Bool) (filename : List ℕ) (file : Target) (t : Table) {source target : Target}
    → opens ≡ true
    → Holds source target 3 none t
    → (t' : Table) × (redirect opens filename file 1 t ≡ some t')
      × Holds source (redirected filename file target) 3 none t'
unfolding redirect
redirect_stdout opens [] file t works holds = (t, refl, holds)
redirect_stdout opens (c ∷ name) file t works (p0, p1, p2, p3, free) = (
  close (dup2 (put t 3 (some file)) 3 1) 3,
  unfold open_fd in rw (works, lowest_3 t p0 p1 p2 p3) refl,
  unfold put close dup2 in (p0, refl, p2, refl, λ fd le ne. ground (arith, free fd)),
)
