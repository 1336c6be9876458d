-- ===== src/Phonebook/Find.antt =====
-- `get_contact` of 03/phonebook.c.
use homework_module.Prelude.{
  ℕ, zero, suc, ◌<◌, ◌≡◌, refl, ◌∙◌, ap, Bool, true, false, Option, Option-cases, none, some, [],
  ◌∷◌, ◌++◌, arith, ◌==◌, if◌then◌else◌, length, is_some, ok, Bool-cases, inl, inr,
}
use mathlib.Core.List.{append_assoc}
use homework_module.LinkedList.{Ptr, null, LinkedList, ListIterator, it_begin, it_has_next, it_next}
use homework_module.LinkedList.Segment.{Cells}
use homework_module.LinkedList.Insert.{IsList}
use homework_module.LinkedList.Iterate.{before, has_next-nil, has_next-cons, it_next-ok}
use homework_module.Phonebook.{Contact, ContactStorage, Contacts, Memory, find_id, get_contact}
use homework_module.Phonebook.Book.{IsBook, IsFilled, IsListed}

has_id : ℕ → Option Contact → Bool
has_id id none = false
has_id id (some c) = id == c.id

-- The first listed contact with the id, or NULL.
pub first_with_id : Contacts → ℕ → Cells → Ptr
unfolding has_id
first_with_id contacts id [] = null
first_with_id contacts id ((p, c) ∷ xs) =
    if has_id id (contacts c) then c else first_with_id contacts id xs

module _ (fuel : ℕ) (s : Memory) (it it' : ListIterator) (id : ℕ) (c : Ptr) {k : Contact}
    (more : it_has_next it ≡ true) (step : it_next it s.nodes ≡ ok ((c, it'), s.nodes))
    (here : s.contacts c ≡ some k) where
  find_id-hit : (id == k.id) ≡ true → find_id (suc fuel) it id s ≡ ok (c, s)
  unfolding find_id
  find_id-hit hit = rw (more, step, here, hit)

  find_id-step : (id == k.id) ≡ false → find_id (suc fuel) it id s ≡ find_id fuel it' id s
  unfolding find_id
  find_id-step other = rw (more, step, here, other)

find_id-none :
    (fuel : ℕ) (s : Memory) (it : ListIterator) (id : ℕ)
    → it_has_next it ≡ false
    → find_id (suc fuel) it id s ≡ ok (null, s)
unfolding find_id
find_id-none fuel s it id stop = rw stop

pub some_contact :
    (contacts : Contacts) (c : Ptr)
    → is_some (contacts c) ≡ true
    → (k : Contact) × (contacts c ≡ some k)
some_contact contacts c here = elim (Option-cases (contacts c)) [
  | inl e ↦ absurd (ground arith)
  | inr found ↦ found
]

find_id-first :
    (fuel : ℕ) (s : Memory) (l : LinkedList) (id : ℕ) (xs ys : Cells)
    → IsList s.nodes l (xs ++ ys)
    → IsFilled s.contacts ys
    → length ys < fuel
    → find_id fuel (before l ys) id s ≡ ok (first_with_id s.contacts id ys, s)
unfolding first_with_id
find_id-first zero s l id xs ys is f m = elim m [ ]
find_id-first (suc fuel) s l id xs [] is f m = find_id-none fuel s (before l []) id (has_next-nil l)
find_id-first (suc fuel) s l id xs ((p, c) ∷ ys) is f m =
    let (k, here) = some_contact s.contacts c f.0 in
    let more = has_next-cons s.nodes l xs p c ys is in
    let step = it_next-ok s.nodes l xs p c ys is in
    elim (Bool-cases (id == k.id)) [
      | inl hit ↦ find_id-hit fuel s _ (before l ys) id c more step here hit ∙ rw (here, hit)
      | inr other ↦
          find_id-step fuel s _ (before l ys) id c more step here other
          ∙ rw (here, other)
              (find_id-first fuel s l id (xs ++ (p, c) ∷ []) ys
                (rw (append_assoc xs ((p, c) ∷ []) ys) is) f.2 (omega arith))
    ]

-- On a well-formed storage, with fuel above the number of its contacts, `get_contact` finds the
-- first listed contact with the id, or returns NULL where none has it, and changes nothing.
pub get_contact-first :
    (fuel : ℕ) (s : Memory) (storage : ContactStorage) (id : ℕ) (xs : Cells)
    → IsBook s storage xs
    → length xs < fuel
    → get_contact fuel storage id s ≡ ok (first_with_id s.contacts id xs, s)
unfolding get_contact first_with_id it_begin it_has_next
get_contact-first fuel s storage id xs book m = found fuel storage.list book.listed m
  where
    found :
        (fuel : ℕ) (list : Option LinkedList)
        → IsListed s list xs
        → length xs < fuel
        → find_id fuel (it_begin list) id s ≡ ok (first_with_id s.contacts id xs, s)
    found zero list is m = elim m [ ]
    found (suc fuel) none is m = rw is (find_id-none fuel s (it_begin none) id refl)
    found (suc fuel) (some l) is m =
        ap (λ q. find_id (suc fuel) (record { list = some l; current = q }) id s) is.head
        ∙ find_id-first (suc fuel) s l id [] xs is book.filled m
