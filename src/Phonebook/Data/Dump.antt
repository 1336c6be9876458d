-- ===== src/Phonebook/Data/Dump.antt =====
-- What `dump_data` of 03/phonebook.c writes.
use homework_module.Prelude.{
  ℕ, zero, suc, ◌<◌, ◌≡◌, refl, ◌∙◌, ap, Bool, true, false, Option, none, some, List, [], ◌∷◌, ◌++◌,
  arith, length, ok,
}
use mathlib.Core.List.{append_assoc}
use homework_module.LinkedList.{Ptr, LinkedList, ListIterator, it_begin, it_has_next, it_next}
use homework_module.LinkedList.Segment.{Cells}
use homework_module.LinkedList.Insert.{IsList}
use homework_module.LinkedList.Iterate.{before, has_next-nil, has_next-cons, it_next-ok}
use homework_module.Phonebook.{Contact, ContactStorage, Contacts, Memory}
use homework_module.Phonebook.Book.{IsBook, IsFilled, IsListed}
use homework_module.Phonebook.Find.{some_contact}
use homework_module.Phonebook.Data.{dump_loop, dump_data}

-- The contacts of the cells, in their order.
abbrev pub contacts_of : Contacts → Cells → List Contact
contacts_of contacts [] = []
contacts_of contacts ((p, c) ∷ xs) = elim (contacts c) [
  | none ↦ contacts_of contacts xs
  | some k ↦ k ∷ contacts_of contacts xs
]

dump_loop-step :
    (wrote : ℕ → Bool) (fuel i : ℕ) (s : Memory) (it it' : ListIterator) (c : Ptr) (k : Contact)
    (rest : List Contact)
    → wrote i ≡ true
    → it_has_next it ≡ true
    → it_next it s.nodes ≡ ok ((c, it'), s.nodes)
    → s.contacts c ≡ some k
    → dump_loop wrote fuel (suc i) it' s ≡ ok ((true, rest), s)
    → dump_loop wrote (suc fuel) i it s ≡ ok ((true, k ∷ rest), s)
unfolding dump_loop
dump_loop-step wrote fuel i s it it' c k rest works more step here tail =
    rw (more, step, here, works, tail) refl

dump_loop-none :
    (wrote : ℕ → Bool) (fuel i : ℕ) (s : Memory) (it : ListIterator)
    → it_has_next it ≡ false
    → dump_loop wrote (suc fuel) i it s ≡ ok ((true, []), s)
unfolding dump_loop
dump_loop-none wrote fuel i s it stop = rw stop refl

module _ (wrote : ℕ → Bool) (works : (i : ℕ) → wrote i ≡ true) where
  dump_loop-contacts_of :
      (fuel i : ℕ) (s : Memory) (l : LinkedList) (xs ys : Cells)
      → IsList s.nodes l (xs ++ ys)
      → IsFilled s.contacts ys
      → length ys < fuel
      → dump_loop wrote fuel i (before l ys) s ≡ ok ((true, contacts_of s.contacts ys), s)
  dump_loop-contacts_of zero i s l xs ys is f m = elim m [ ]
  dump_loop-contacts_of (suc fuel) i s l xs [] is f m =
      dump_loop-none wrote fuel i s (before l []) (has_next-nil l)
  dump_loop-contacts_of (suc fuel) i s l xs ((p, c) ∷ ys) is f m =
      let (k, here) = some_contact s.contacts c f.0 in
      let more = has_next-cons s.nodes l xs p c ys is in
      let step = it_next-ok s.nodes l xs p c ys is in
      let tail =
        dump_loop-contacts_of fuel (suc i) s l (xs ++ (p, c) ∷ []) ys
          (rw (append_assoc xs ((p, c) ∷ []) ys) is) f.2 (omega arith) in
      dump_loop-step wrote fuel i s (before l ((p, c) ∷ ys)) (before l ys) c k
        (contacts_of s.contacts ys) (works i) more step here tail
      ∙ rw (here, contacts_of) refl

  listed-contacts_of :
      (fuel : ℕ) (s : Memory) (list : Option LinkedList) (xs : Cells)
      → IsListed s list xs
      → IsFilled s.contacts xs
      → length xs < fuel
      → dump_loop wrote fuel 0 (it_begin list) s ≡ ok ((true, contacts_of s.contacts xs), s)
  unfolding it_begin it_has_next
  listed-contacts_of zero s list xs is f m = elim m [ ]
  listed-contacts_of (suc fuel) s none xs is f m =
      rw is (dump_loop-none wrote fuel 0 s (it_begin none) refl)
  listed-contacts_of (suc fuel) s (some l) xs is f m =
      ap (λ q. dump_loop wrote (suc fuel) 0 (record { list = some l; current = q }) s) is.head
      ∙ dump_loop-contacts_of (suc fuel) 0 s l [] xs is f m

-- On a well-formed storage, where every write works and the fuel is above the number of its contacts,
-- `dump_data` returns true and writes the contacts that the storage lists, in
-- its order, and changes nothing.
pub dump_data-contacts_of :
    (wrote : ℕ → Bool) (fuel : ℕ) (s : Memory) (storage : ContactStorage) (xs : Cells)
    → ((i : ℕ) → wrote i ≡ true)
    → IsBook s storage xs
    → length xs < fuel
    → dump_data wrote fuel storage s ≡ ok ((true, contacts_of s.contacts xs), s)
unfolding dump_data
dump_data-contacts_of wrote fuel s storage xs works book m =
    listed-contacts_of wrote works fuel s storage.list xs book.listed book.filled m
