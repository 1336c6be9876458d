-- ===== src/SharedMemory/Start.antt =====
-- `init` and `writer_cleanup` of 10/main.c, with the shared memory and the semaphores that exist
-- outside the process.
use homework_module.Prelude.{
  ℕ, ◌≡◌, Bool, true, false, ◌&&◌, not, Option, none, some, is_some, if◌then◌else◌, arith,
}

-- The globals of the process (`none` is -1, `attached` is `shared != (void *)-1`), and whether the
-- segment and the set of semaphores that it made exist.
pub record Process : Type 0 where
  pub shmid : Option ℕ
  pub semid : Option ℕ
  pub attached : Bool
  pub segment : Bool
  pub semset : Bool

-- What the system calls return.
pub record Calls : Type 0 where
  pub shm_key : Bool
  pub shmget : Option ℕ
  pub shmat : Bool
  pub sem_key : Bool
  pub semget : Option ℕ
  pub setval : ℕ → Bool

-- What the calls of `writer_cleanup` return.
pub record CleanupCalls : Type 0 where
  pub sem_removed : Bool
  pub detached : Bool
  pub shm_removed : Bool

abbrev pub fresh : Process
fresh = record { shmid = none; semid = none; attached = false; segment = false; semset = false }

attach : Calls → (id : ℕ) → Process → Process × Option ℕ
attach calls id p =
    if calls.shmat
    then (record p { segment = true; attached = true }, some id)
    else (record p { segment = true; attached = false }, none)

-- The id that it returns is a local; `init` stores it.
unfoldable pub shm_init : Calls → Process → Process × Option ℕ
unfolding attach
shm_init calls p =
    if calls.shm_key
    then elim calls.shmget [ none ↦ (p, none) | some id ↦ attach calls id p ]
    else (p, none)

set_values : Calls → (id : ℕ) → Process → Process × Option ℕ
set_values calls id p =
    if calls.setval 0 && (calls.setval 1 && calls.setval 2)
    then (record p { semset = true }, some id)
    else (record p { semset = true }, none)

unfoldable pub sem_init : Calls → Process → Process × Option ℕ
unfolding set_values
sem_init calls p =
    if calls.sem_key
    then elim calls.semget [ none ↦ (p, none) | some id ↦ set_values calls id p ]
    else (p, none)

with_semid : Process × Option ℕ → Process × Bool
with_semid (p, none) = (record p { semid = none }, false)
with_semid (p, some id) = (record p { semid = some id }, true)

with_shmid : Calls → Process × Option ℕ → Process × Bool
unfolding with_semid sem_init
with_shmid calls (p, none) = (record p { shmid = none }, false)
with_shmid calls (p, some id) = with_semid (sem_init calls (record p { shmid = some id }))

-- `false` is -1.
unfoldable pub init : Calls → Process → Process × Bool
unfolding with_shmid shm_init
init calls p = with_shmid calls (shm_init calls p)

-- The process behind the cleanup, and `false` where a call failed.
unfoldable pub writer_cleanup : CleanupCalls → Process → Process × Bool
writer_cleanup calls p = (
  record p {
    semset = if is_some p.semid then p.semset && not calls.sem_removed else p.semset;
    attached = p.attached && not calls.detached;
    segment = if is_some p.shmid then p.segment && not calls.shm_removed else p.segment;
  },
  not (is_some p.semid && not calls.sem_removed)
      && (not (p.attached && not calls.detached) && not (is_some p.shmid && not calls.shm_removed)),
)

abbrev pub all_removed : CleanupCalls
all_removed = record { sem_removed = true; detached = true; shm_removed = true }

abbrev pub set_up : Calls → Bool
set_up calls = calls.setval 0 && (calls.setval 1 && calls.setval 2)

-- Behind `init` and a cleanup whose calls all work, the segment is left in the system exactly where it
-- was made and not attached, the semaphores exactly where they were made and not set, and nothing
-- stays attached.
pub writer_cleanup-init :
    (calls : Calls)
    → let left : Process = (writer_cleanup all_removed (init calls fresh).0).0 in
      (left.segment ≡ (calls.shm_key && (is_some calls.shmget && not calls.shmat)))
      × (left.semset ≡ (
          calls.shm_key
          && (is_some calls.shmget
              && (calls.shmat && (calls.sem_key && (is_some calls.semget && not (set_up calls)))))))
      × (left.attached ≡ false)
unfolding writer_cleanup init shm_init sem_init with_shmid with_semid attach set_values
writer_cleanup-init calls = ground arith
