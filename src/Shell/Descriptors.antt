-- ===== src/Shell/Descriptors.antt =====
-- The first descriptors of a process of 04/main.c, and the pipes that it opens.
use homework_module.Prelude.{ℕ, ◌≤◌, ◌≡◌, ◌≢◌, refl, true, Option, none, some, arith}
use homework_module.Shell.{
  Target, own, pipe_read, pipe_write, Table, put, lowest, open_fd, open_max, make_pipe,
}

-- The first three descriptors, and nothing behind them but `keep`.
abbrev pub Holds : (stdin stdout : Target) → (keep : ℕ) → Option Target → Table → Type 0
Holds stdin stdout keep kept t =
    (t 0 ≡ some stdin)
    × (t 1 ≡ some stdout)
    × (t 2 ≡ some (own 2))
    × (t keep ≡ kept)
    × ((fd : ℕ) → 3 ≤ fd → fd ≢ keep → t fd ≡ none)

pub lowest_3 :
    (t : Table) {a b c : Target}
    → t 0 ≡ some a
    → t 1 ≡ some b
    → t 2 ≡ some c
    → t 3 ≡ none
    → lowest open_max 0 t ≡ 3
unfolding lowest
lowest_3 t p0 p1 p2 p3 = rw (p0, p1, p2, p3) refl

lowest_4 :
    (t : Table) {a b c d : Target}
    → t 0 ≡ some a
    → t 1 ≡ some b
    → t 2 ≡ some c
    → t 3 ≡ some d
    → t 4 ≡ none
    → lowest open_max 0 t ≡ 4
unfolding lowest
lowest_4 t p0 p1 p2 p3 p4 = rw (p0, p1, p2, p3, p4) refl

lowest_5 :
    (t : Table) {a b c d e : Target}
    → t 0 ≡ some a
    → t 1 ≡ some b
    → t 2 ≡ some c
    → t 3 ≡ some d
    → t 4 ≡ some e
    → t 5 ≡ none
    → lowest open_max 0 t ≡ 5
unfolding lowest
lowest_5 t p0 p1 p2 p3 p4 p5 = rw (p0, p1, p2, p3, p4, p5) refl

-- The table behind `pipe`.
abbrev pub piped : Table → (i infd outfd : ℕ) → Table
piped t i infd outfd = put (put t infd (some (pipe_read i))) outfd (some (pipe_write i))

pub make_pipe-none :
    (t : Table) (i : ℕ) {source target : Target}
    → Holds source target 3 none t
    → make_pipe true i t ≡ (piped t i 3 4, 3, 4)
unfolding make_pipe open_fd put
make_pipe-none t i (p0, p1, p2, p3, free) =
    rw
      (
        lowest_3 t p0 p1 p2 p3,
        lowest_4 (put t 3 (some (pipe_read i))) p0 p1 p2 refl (free 4 (omega arith) (omega arith)),
      )
      refl

pub make_pipe-3 :
    (t : Table) (i : ℕ) {source target kept : Target}
    → Holds source target 3 (some kept) t
    → make_pipe true i t ≡ (piped t i 4 5, 4, 5)
unfolding make_pipe open_fd put
make_pipe-3 t i (p0, p1, p2, p3, free) =
    rw
      (
        lowest_4 t p0 p1 p2 p3 (free 4 (omega arith) (omega arith)),
        lowest_5 (put t 4 (some (pipe_read i))) p0 p1 p2 p3 refl
            (free 5 (omega arith) (omega arith)),
      )
      refl

pub make_pipe-4 :
    (t : Table) (i : ℕ) {source target kept : Target}
    → Holds source target 4 (some kept) t
    → make_pipe true i t ≡ (piped t i 3 5, 3, 5)
unfolding make_pipe open_fd put
make_pipe-4 t i (p0, p1, p2, p4, free) =
    rw
      (
        lowest_3 t p0 p1 p2 (free 3 (omega arith) (omega arith)),
        lowest_5 (put t 3 (some (pipe_read i))) p0 p1 p2 refl p4
            (free 5 (omega arith) (omega arith)),
      )
      refl
