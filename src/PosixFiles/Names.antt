-- ===== src/PosixFiles/Names.antt =====
-- The named semaphores of 09/ from one run of the writer to the next.
use homework_module.Prelude.{
  ℕ, ◌≡◌, refl, Bool, true, false, ◌&&◌, Option, none, some, is_some, if◌then◌else◌,
}
use homework_module.PosixFiles.{SemNames, create_sem, writer_main, empty_max}

-- All three names are taken.
abbrev pub AllTaken : SemNames → Type 0
AllTaken names =
    (is_some names.mutex_name ≡ true)
    × (is_some names.empty_name ≡ true)
    × (is_some names.full_name ≡ true)

create_sem-taken : (name : Option ℕ) (value : ℕ) → is_some (create_sem name value).0 ≡ true
unfolding create_sem
create_sem-taken none value = refl
create_sem-taken (some old) value = refl

create_sem-fails :
    (name : Option ℕ) (value : ℕ) → is_some name ≡ true → (create_sem name value).1 ≡ false
unfolding create_sem
create_sem-fails none value taken = cc taken
create_sem-fails (some old) value taken = refl

writer_main-AllTaken :
    (writer_loop : SemNames → SemNames × Bool) (closes : Bool) (names : SemNames)
    → ((opened : SemNames) → AllTaken opened → AllTaken (writer_loop opened).0)
    → AllTaken (writer_main writer_loop closes names).0
unfolding writer_main
writer_main-AllTaken writer_loop closes names keeps = go (
    (create_sem names.mutex_name 1).1
    && ((create_sem names.empty_name empty_max).1 && (create_sem names.full_name 0).1))
  where
    opened : SemNames
    opened = record {
      mutex_name = (create_sem names.mutex_name 1).0;
      empty_name = (create_sem names.empty_name empty_max).0;
      full_name = (create_sem names.full_name 0).0;
    }

    taken : AllTaken opened
    taken = (
      create_sem-taken names.mutex_name 1,
      create_sem-taken names.empty_name empty_max,
      create_sem-taken names.full_name 0,
    )

    go :
        (made : Bool)
        → AllTaken
            (if◌then◌else◌ {A = SemNames × Bool} made
              ((writer_loop opened).0, (writer_loop opened).1 && closes)
              (opened, false)).0
    go true = keeps opened taken
    go false = taken

writer_main-taken :
    (writer_loop : SemNames → SemNames × Bool) (closes : Bool) (names : SemNames)
    → is_some names.mutex_name ≡ true
    → (writer_main writer_loop closes names).1 ≡ false
unfolding writer_main
writer_main-taken writer_loop closes names taken =
    rw (create_sem-fails names.mutex_name 1 taken) refl

-- Whatever names there are at first, and where `writer_loop` removes none: behind one run of the
-- writer all three names are taken, and the next run ends in EXIT_FAILURE.
pub writer_main-again :
    (first second : SemNames → SemNames × Bool) (closes closes' : Bool) (names : SemNames)
    → ((opened : SemNames) → AllTaken opened → AllTaken (first opened).0)
    → AllTaken (writer_main first closes names).0
      × ((writer_main second closes' (writer_main first closes names).0).1 ≡ false)
writer_main-again first second closes closes' names keeps =
    let taken = writer_main-AllTaken first closes names keeps in
    (taken, writer_main-taken second closes' (writer_main first closes names).0 taken.0)
