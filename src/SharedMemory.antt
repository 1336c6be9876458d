-- ===== src/SharedMemory.antt =====
-- 10/main.c: a parent that puts arrays of numbers into shared memory and a child that answers with
-- their minimum and maximum, over three System V semaphores. 11/main.c has the same functions over
-- POSIX shared memory.
pub mod Start
pub mod MinMax
pub mod Exclusion
pub mod Lost
mod Examples
use homework_module.Prelude.{
  ℕ, zero, suc, ◌+◌, ◌-◌, ◌*◌, ◌/◌, ◌%◌, ◌≤◌, ◌<◌, ◌≡◌, Bool, true, false, Option, none, some, List,
  [], ◌∷◌, ◌++◌, leb, if◌then◌else◌, length, take, drop, replicate,
}
use homework_module.Prelude.Int.{ℤ, pos, negsuc, ltb_ℤ}

abbrev pub line_max : ℕ
line_max = 1024

abbrev pub empty_max : ℕ
empty_max = 1

pub record SharedData : Type 0 where
  pub numbers : List ℤ
  pub size : ℤ
  pub min : ℤ
  pub max : ℤ

-- The loop of `get_min_max`: a number that is not below the minimum becomes the maximum.
unfoldable pub min_max_loop : List ℤ → (min max : ℤ) → ℤ × ℤ
min_max_loop [] min max = (min, max)
min_max_loop (num ∷ nums) min max =
    if ltb_ℤ num min then min_max_loop nums num max else min_max_loop nums min num

min_max_of : List ℤ → ℤ × ℤ → ℤ × ℤ
unfolding min_max_loop
min_max_of [] old = old
min_max_of (num ∷ nums) old = min_max_loop (num ∷ nums) num num

-- `old` is what `*min` and `*max` hold before.
unfoldable pub get_min_max : (numbers : List ℤ) (size : ℤ) (old : ℤ × ℤ) → ℤ × ℤ
unfolding min_max_of
get_min_max numbers (pos size) old = min_max_of (take size numbers) old
get_min_max numbers (negsuc n) old = old

random_ints : (rand : ℕ → ℕ) (from count : ℕ) → List ℤ
random_ints rand from zero = []
random_ints rand from (suc count) = pos (rand from) ∷ random_ints rand (suc from) count

-- `rand i` is what the call number `i` of `rand` returns.
unfoldable pub produce_data : (rand : ℕ → ℕ) → List ℤ
unfolding random_ints
produce_data rand = random_ints rand 1 (rand 0 % (line_max / 2) + line_max / 2)

-- The semaphores 0, 1 and 2.
pub record Sems : Type 0 where
  pub mutex : ℕ
  pub empty : ℕ
  pub full : ℕ

-- Where a process stands in `put_data` or `get_data`: before the `semop` on `push` or `pop`, on
-- `lock_res`, at the shared memory, and before the `semop` on `rel_res`.
pub data Phase : Type 0 where
  at_start at_lock at_access at_release : Phase

pub record System : Type 0 where
  pub sems : Sems
  pub shared : SharedData
  pub parent : Phase
  pub child : Phase
  -- The array in the parent's hands.
  pub data_in_hand : List ℤ
  pub data_processed : ℕ

-- `semop(semid, push, 2)`: both or, where that would block, none (EAGAIN, and the loop tries again).
push : Sems → Option Sems
push sems =
    if leb 1 sems.empty
    then some (record sems { empty = sems.empty - 1; full = sems.full + 1 })
    else none

pop : Sems → Option Sems
pop sems =
    if leb 1 sems.full
    then some (record sems { empty = sems.empty + 1; full = sems.full - 1 })
    else none

-- `none` is a process that waits.
lock_res : Sems → Option Sems
lock_res sems = if leb 1 sems.mutex then some (record sems { mutex = sems.mutex - 1 }) else none

rel_res : Sems → Sems
rel_res sems = record sems { mutex = sems.mutex + 1 }

abbrev is_answered : ℤ → Bool
is_answered (negsuc zero) = true
is_answered _ = false

-- The parent's access: it counts an answer, and writes its array over the one that is there.
unfoldable pub put_access : System → System
put_access s = record s {
  data_processed = if is_answered s.shared.size then s.data_processed + 1 else s.data_processed;
  shared = record s.shared {
    size = pos (length s.data_in_hand);
    numbers = s.data_in_hand ++ drop (length s.data_in_hand) s.shared.numbers;
  };
  parent = at_release;
}

-- The next step of `put_data`, with the array that the loop has produced for it.
put_at : Phase → (produced : List ℤ) → System → Option System
unfolding push lock_res rel_res put_access
put_at at_start produced s = elim (push s.sems) [
  | none ↦ some s
  | some sems ↦ some (record s { sems = sems; parent = at_lock; data_in_hand = produced })
]
put_at at_lock produced s = elim (lock_res s.sems) [
  | none ↦ none
  | some sems ↦ some (record s { sems = sems; parent = at_access })
]
put_at at_access produced s = some (put_access s)
put_at at_release produced s = some (record s { sems = rel_res s.sems; parent = at_start })

unfoldable pub put_data : (produced : List ℤ) → System → Option System
unfolding put_at
put_data produced s = put_at s.parent produced s

abbrev is_positive : ℤ → Bool
is_positive (pos n) = leb 1 n
is_positive (negsuc n) = false

-- The child's access.
unfoldable pub get_access : System → System
unfolding get_min_max
get_access s =
    if is_positive s.shared.size
    then (let (min, max) =
          get_min_max s.shared.numbers s.shared.size (s.shared.min, s.shared.max) in
        record s {
          shared = record s.shared { min = min; max = max; size = negsuc 0 };
          child = at_release;
        })
    else record s { child = at_release }

get_at : Phase → System → Option System
unfolding pop lock_res rel_res get_access
get_at at_start s = elim (pop s.sems) [
  | none ↦ some s
  | some sems ↦ some (record s { sems = sems; child = at_lock })
]
get_at at_lock s = elim (lock_res s.sems) [
  | none ↦ none
  | some sems ↦ some (record s { sems = sems; child = at_access })
]
get_at at_access s = some (get_access s)
get_at at_release s = some (record s { sems = rel_res s.sems; child = at_start })

unfoldable pub get_data : System → Option System
unfolding get_at
get_data s = get_at s.child s

-- What `sem_init` and a zeroed segment leave.
abbrev pub started : System
started = record {
  sems = record { mutex = 1; empty = empty_max; full = 0 };
  shared = record { numbers = replicate line_max (pos 0); size = pos 0; min = pos 0; max = pos 0 };
  parent = at_start;
  child = at_start;
  data_in_hand = [];
  data_processed = 0;
}

-- One step of either process.
pub data Step : System → System → Type 0 where
  by_parent : {s s' : System} (rand : ℕ → ℕ) → put_data (produce_data rand) s ≡ some s' → Step s s'
  by_child : {s s' : System} → get_data s ≡ some s' → Step s s'

-- The steps of both, in any order.
pub data Reach : System → System → Type 0 where
  stay : (s : System) → Reach s s
  go : {s s' s'' : System} → Reach s s' → Step s' s'' → Reach s s''
