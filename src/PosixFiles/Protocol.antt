-- ===== src/PosixFiles/Protocol.antt =====
-- Every order of the calls of the two processes of 09/.
use native.Mathlib.Decide.{dec_lt}
use homework_module.Prelude.{Option, ℕ, zero, suc, ◌+◌, ◌≤◌, ◌<◌, ◌≡◌, refl, some, none, arith}
use homework_module.PosixFiles.{
  Phase, at_trywait, at_lock, at_file, at_unlock, at_post, System, put_step, get_step, Step, writes,
  reads, Reach, here, next, empty_max,
}

-- Whether a process holds the mutex, has its turn but has not been at the file, or has been there and
-- has not posted yet.
abbrev pub holds : Phase → ℕ
holds at_file = 1
holds at_unlock = 1
holds _ = 0

abbrev pub pending : Phase → ℕ
pending at_lock = 1
pending at_file = 1
pending _ = 0

abbrev unposted : Phase → ℕ
unposted at_unlock = 1
unposted at_post = 1
unposted _ = 0

record IsFair (s : System) : Type 0 where
  exclusive : s.mutex + (holds s.writer + holds s.reader) ≡ 1
  announced : s.full + (s.lines_read + (pending s.reader + unposted s.writer)) ≡ s.lines_written
  bounded :
      s.empty + (pending s.writer + (s.lines_written + unposted s.reader))
      ≡ empty_max + s.lines_read

put_step-IsFair :
    (w : Phase) (s t : System) → s.writer ≡ w → put_step w s ≡ some t → IsFair s → IsFair t
unfolding put_step
put_step-IsFair at_trywait s t at e fair = ground arith
put_step-IsFair at_lock s t at e fair = ground arith
put_step-IsFair at_file s t at e fair = ground arith
put_step-IsFair at_unlock s t at e fair = ground arith
put_step-IsFair at_post s t at e fair = ground arith

get_step-IsFair :
    (r : Phase) (s t : System) → s.reader ≡ r → get_step r s ≡ some t → IsFair s → IsFair t
unfolding get_step
get_step-IsFair at_trywait s t at e fair = ground arith
get_step-IsFair at_lock s t at e fair = ground arith
get_step-IsFair at_file s t at e fair = ground arith
get_step-IsFair at_unlock s t at e fair = ground arith
get_step-IsFair at_post s t at e fair = ground arith

Step-IsFair : (s t : System) → Step s t → IsFair s → IsFair t
Step-IsFair s t (writes e) fair = put_step-IsFair s.writer s t refl e fair
Step-IsFair s t (reads e) fair = get_step-IsFair s.reader s t refl e fair

Reach-IsFair : (s : System) → Reach s → IsFair s
Reach-IsFair s here = ground arith
Reach-IsFair s (next {s = t} reach step) = Step-IsFair t s step (Reach-IsFair t reach)

-- One at most of the mutex and the two processes behind it counts, each turn of the reader has a
-- line in front of it, and the lines that are not read yet, with the writer's turn, are at most
-- 1000.
abbrev pub IsOrderly : System → Type 0
IsOrderly s =
    (s.mutex + (holds s.writer + holds s.reader) ≡ 1)
    × (s.lines_read + pending s.reader ≤ s.lines_written)
    × (s.lines_written + pending s.writer ≤ s.lines_read + empty_max)

-- In every order of the calls of a writer and a reader, from the semaphores that the writer
-- creates: the mutex and the processes that hold it count one, so the two are never at the file at
-- once; each turn that the reader has taken has a whole line in front of it; and the lines that are
-- not read yet, with the one whose turn the writer has taken, are at most 1000.
pub Reach-IsOrderly : (s : System) → Reach s → IsOrderly s
Reach-IsOrderly s reach =
    let fair = Reach-IsFair s reach in
    (fair.exclusive, omega (arith, fair.announced), omega (arith, fair.bounded))

-- A process that does not wait for the mutex can make its call.
writer_moves :
    (w : Phase) (s : System) → (w ≡ at_lock → 0 < s.mutex) → (t : System) × (put_step w s ≡ some t)
unfolding put_step
writer_moves at_trywait s free = (_, refl)
writer_moves at_lock s free = go s.mutex (free refl)
  where
    go :
        (mutex : ℕ)
        → 0 < mutex
        → (t : System) × ((elim mutex as (λ _. Option System) [
          | zero ↦ none
          | suc left ↦ some (record s { mutex = left; writer = at_file })
        ])
            ≡ some t)
    go zero h = absurd (omega arith)
    go (suc left) h = (_, refl)
writer_moves at_file s free = (_, refl)
writer_moves at_unlock s free = (_, refl)
writer_moves at_post s free = (_, refl)

reader_moves : (r : Phase) (s : System) → 0 < holds r → (t : System) × (get_step r s ≡ some t)
unfolding get_step
reader_moves at_trywait s held = absurd (omega arith)
reader_moves at_lock s held = absurd (omega arith)
reader_moves at_file s held = (_, refl)
reader_moves at_unlock s held = (_, refl)
reader_moves at_post s held = absurd (omega arith)

at_lock-holds : (w : Phase) → w ≡ at_lock → holds w ≡ 0
at_lock-holds at_lock e = refl
at_lock-holds at_trywait e = refl
at_lock-holds at_file e = absurd (cc e)
at_lock-holds at_unlock e = absurd (cc e)
at_lock-holds at_post e = refl

-- No order of the calls leads into a deadlock: in every state that is reached, one of the two can make
-- its next call.
pub Reach-Step : (s : System) → Reach s → (t : System) × Step s t
Reach-Step s reach = elim (dec_lt 0 s.mutex) [
  | yes free ↦ let (t, e) = writer_moves s.writer s (λ _. free) in (t, writes e)
  | no taken ↦ elim (dec_lt 0 (holds s.reader)) [
    | yes held ↦ let (t, e) = reader_moves s.reader s held in (t, reads e)
    | no idle ↦
        let fair = Reach-IsFair s reach in
        let (t, e) =
          writer_moves s.writer s (λ at.
            absurd (omega (arith, fair.exclusive, at_lock-holds s.writer at, taken, idle))) in
        (t, writes e)
  ]
]
