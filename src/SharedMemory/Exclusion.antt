-- ===== src/SharedMemory/Exclusion.antt =====
-- What holds in every state that the parent and the child of 10/main.c reach, in whatever order they
-- step.
use homework_module.Prelude.{
  ℕ, ◌+◌, ◌≤◌, ◌≡◌, refl, Option, none, some, length, arith, length-replicate,
}
use homework_module.Prelude.Int.{ℤ, pos, negsuc}
use homework_module.SharedMemory.{
  line_max, SharedData, get_min_max, Phase, at_start, at_lock, at_access, at_release, System,
  started,
}

-- 1 in the phases between the locking of the mutex and its release.
abbrev pub inside : Phase → ℕ
inside at_start = 0
inside at_lock = 0
inside at_access = 1
inside at_release = 1

abbrev pub IsSize : ℤ → Type 0
IsSize (pos n) = n ≤ line_max
IsSize (negsuc n) = n ≡ 0

-- Where the size is -1, the minimum and the maximum are those of the first `n` of the numbers.
abbrev pub IsAnswered : SharedData → Type 0
IsAnswered shared =
    shared.size ≡ negsuc 0
    → (n : ℕ) × (n ≤ line_max)
      × (old : ℤ × ℤ) × ((shared.min, shared.max) ≡ get_min_max shared.numbers (pos n) old)

-- One process at most is inside; one of `empty` and `full` is up; the arrays keep to their bounds.
pub record IsSafe (s : System) : Type 0 where
  pub alone : s.sems.mutex + (inside s.parent + inside s.child) ≡ 1
  pub one_slot : s.sems.empty + s.sems.full ≡ 1
  pub whole : length s.shared.numbers ≡ line_max
  pub hand_fits : length s.data_in_hand ≤ line_max
  pub sized : IsSize s.shared.size
  pub answered : IsAnswered s.shared

abbrev OnSome : (System → Type 0) → Option System → Type 0
OnSome P none = Unit
OnSome P (some s) = P s

-- The state that `sem_init` and a zeroed segment leave is safe.
pub started-IsSafe : IsSafe started
started-IsSafe = record {
  alone = refl;
  one_slot = refl;
  whole = length-replicate line_max (pos 0);
  hand_fits = omega arith;
  sized = omega arith;
  answered = λ e. absurd (ground arith);
}
