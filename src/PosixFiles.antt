-- ===== src/PosixFiles.antt =====
-- 09/writer.c and 09/reader.c: the writer and the reader of the lines of 08/, each in its own
-- process, over three named POSIX semaphores. One block of the file is one line.
pub mod Protocol
pub mod Names
mod Examples
use homework_module.Prelude.{
  ℕ, zero, suc, ◌+◌, ◌-◌, ◌≤◌, ◌<◌, ◌≡◌, Bool, true, false, ◌&&◌, Option, none, some, List, [], ◌∷◌,
  ◌++◌, is_some, ltb, if◌then◌else◌,
}

abbrev pub empty_max : ℕ
empty_max = 1000

-- Where a process stands in `put_data` or `get_data`: before `sem_trywait`, before
-- `sem_wait(mutex)`, at the file, before `sem_post(mutex)`, and before the post of `full` or
-- `empty`.
pub data Phase : Type 0 where
  at_trywait at_lock at_file at_unlock at_post : Phase

-- The semaphores' values, the lines written and those read, and the two processes.
pub record System : Type 0 where
  pub mutex : ℕ
  pub empty : ℕ
  pub full : ℕ
  pub lines_written : ℕ
  pub lines_read : ℕ
  pub writer : Phase
  pub reader : Phase

-- One call of `put_data`; `none` where `sem_wait` blocks. A failed `sem_trywait` (EAGAIN) returns
-- 1, and the loop tries again.
unfoldable pub put_step : Phase → System → Option System
put_step at_trywait s =
    some (elim s.empty [ zero ↦ s | suc left ↦ record s { empty = left; writer = at_lock } ])
put_step at_lock s = elim s.mutex [
  | zero ↦ none
  | suc left ↦ some (record s { mutex = left; writer = at_file })
]
put_step at_file s = some (record s { lines_written = suc s.lines_written; writer = at_unlock })
put_step at_unlock s = some (record s { mutex = suc s.mutex; writer = at_post })
put_step at_post s = some (record s { full = suc s.full; writer = at_trywait })

-- One call of `get_data`. A `read` at the end of the file gives no line.
unfoldable pub get_step : Phase → System → Option System
get_step at_trywait s =
    some (elim s.full [ zero ↦ s | suc left ↦ record s { full = left; reader = at_lock } ])
get_step at_lock s = elim s.mutex [
  | zero ↦ none
  | suc left ↦ some (record s { mutex = left; reader = at_file })
]
get_step at_file s = some (record s {
  lines_read = if ltb s.lines_read s.lines_written then suc s.lines_read else s.lines_read;
  reader = at_unlock;
})
get_step at_unlock s = some (record s { mutex = suc s.mutex; reader = at_post })
get_step at_post s = some (record s { empty = suc s.empty; reader = at_trywait })

-- Either process makes its next call.
pub data Step (s : System) : System → Type 0 where
  writes : {t : System} → put_step s.writer s ≡ some t → Step s t
  reads : {t : System} → get_step s.reader s ≡ some t → Step s t

-- What the writer's `sem_open`s create.
abbrev pub created : System
created = record {
  mutex = 1;
  empty = empty_max;
  full = 0;
  lines_written = 0;
  lines_read = 0;
  writer = at_trywait;
  reader = at_trywait;
}

pub data Reach : System → Type 0 where
  here : Reach created
  next : {s t : System} → Reach s → Step s t → Reach t

-- The names that exist, each with the value of its semaphore.
pub record SemNames : Type 0 where
  pub mutex_name : Option ℕ
  pub empty_name : Option ℕ
  pub full_name : Option ℕ

-- `sem_open(name, O_CREAT | O_EXCL, 0600, value)`: `false` is SEM_FAILED.
unfoldable pub create_sem : Option ℕ → (value : ℕ) → Option ℕ × Bool
create_sem none value = (some value, true)
create_sem (some old) value = (some old, false)

-- What `main` of the writer does to the names, and whether it ends in EXIT_SUCCESS. `writer_loop` may
-- change the values, and does not remove a name; `sem_close` removes none.
unfoldable pub writer_main :
    (writer_loop : SemNames → SemNames × Bool) (closes : Bool) → SemNames → SemNames × Bool
unfolding create_sem
writer_main writer_loop closes names =
    let (mutex', mutex_made) = create_sem names.mutex_name 1 in
    let (empty', empty_made) = create_sem names.empty_name empty_max in
    let (full', full_made) = create_sem names.full_name 0 in
    let opened : SemNames = record {
      mutex_name = mutex';
      empty_name = empty';
      full_name = full';
    } in
    if mutex_made && (empty_made && full_made)
    then (let (left, looped) = writer_loop opened in (left, looped && closes))
    else (opened, false)
