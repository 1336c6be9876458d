-- ===== src/Phonebook/Remove.antt =====
-- `remove_contact` of 03/phonebook.c.
use homework_module.Prelude.{
  ℕ, suc, ◌+◌, ◌-◌, ◌%◌, ◌^◌, ◌≤◌, ◌<◌, ◌≡◌, refl, ◌∙◌, ap, Bool, true, false, Option, some, [],
  ◌∷◌, arith, ◌==◌, if◌then◌else◌, length, ok, fault, Ends, Bool-cases, lt→ltb, inl, inr,
}
use homework_module.LinkedList.{Ptr, Heap, CmpFunc, LinkedList, list_remove_value}
use homework_module.LinkedList.Segment.{Cells}
use homework_module.LinkedList.Remove.{
  holds, drop_value, list_remove_value-IsList, list_remove_value-absent, list_remove_value-fault,
}
use homework_module.LinkedList.Order.{IsSorted, NoneLess}
use homework_module.Phonebook.{ContactStorage, Contacts, Memory, lastname_cmp, remove_contact}
use homework_module.Phonebook.Book.{IsBook, IsFilled}

length-drop_value :
    (c : Ptr) (xs : Cells) → holds c xs ≡ true → suc (length (drop_value c xs)) ≡ length xs
length-drop_value c [] h = absurd (ground arith)
length-drop_value c ((p, d) ∷ xs) h = ground (arith, length-drop_value c xs)

holds-drop_value : (c q : Ptr) (xs : Cells) → holds q xs ≡ false → holds q (drop_value c xs) ≡ false
holds-drop_value c q [] h = refl
holds-drop_value c q ((p, d) ∷ xs) h = ground (arith, holds-drop_value c q xs)

filled-drop_value :
    (contacts : Contacts) (c : Ptr) (xs : Cells)
    → IsFilled contacts xs
    → IsFilled contacts (drop_value c xs)
filled-drop_value contacts c [] f = tt
filled-drop_value contacts c ((p, d) ∷ xs) f = elim (Bool-cases (d == c)) [
  | inl hit ↦ rw hit f.2
  | inr other ↦ rw other (f.0, holds-drop_value c d xs f.1, filled-drop_value contacts c xs f.2)
]

pub filled-once :
    (contacts : Contacts) (c : Ptr) (xs : Cells)
    → IsFilled contacts xs
    → holds c (drop_value c xs) ≡ false
filled-once contacts c [] f = refl
filled-once contacts c ((p, d) ∷ xs) f = ground (arith, f.1, filled-once contacts c xs f.2)

NoneLess-drop_value :
    (cmp : CmpFunc) (v c : Ptr) (xs : Cells) → NoneLess cmp v xs → NoneLess cmp v (drop_value c xs)
NoneLess-drop_value cmp v c [] s = tt
NoneLess-drop_value cmp v c ((p, d) ∷ xs) s = elim (Bool-cases (d == c)) [
  | inl hit ↦ rw hit s.1
  | inr other ↦ rw other (s.0, NoneLess-drop_value cmp v c xs s.1)
]

drop_value-IsSorted :
    (cmp : CmpFunc) (c : Ptr) (xs : Cells) → IsSorted cmp xs → IsSorted cmp (drop_value c xs)
drop_value-IsSorted cmp c [] s = tt
drop_value-IsSorted cmp c ((p, d) ∷ xs) s = elim (Bool-cases (d == c)) [
  | inl hit ↦ rw hit s.1
  | inr other ↦ rw other (NoneLess-drop_value cmp d c xs s.0, drop_value-IsSorted cmp c xs s.1)
]

module _ (fuel : ℕ) (storage : ContactStorage) (l : LinkedList) (c : Ptr) (s : Memory)
    (lists : storage.list ≡ some l) where
  remove_contact-run :
      {b : Bool} {l' : Option LinkedList} {g : Heap}
      → list_remove_value fuel (some l) c s.nodes ≡ ok ((b, l'), g)
      → remove_contact fuel storage c s
        ≡ ok (
          record storage {
            list = l';
            size = if b then (storage.size + 2 ^ 64 - 1) % 2 ^ 64 else storage.size;
          },
          record s { nodes = g },
        )
  unfolding remove_contact
  remove_contact-run run = rw (lists, run)

  -- `remove_contact` of a listed contact, where it is not the only one: the storage lists the others
  -- in their order and counts them, and the contact itself stays in memory.
  pub remove_contact-IsBook :
      (xs : Cells)
      → IsBook s storage xs
      → 2 ≤ length xs
      → length xs < 2 ^ 64
      → holds c xs ≡ true
      → length xs ≤ fuel
      → Ends (remove_contact fuel storage c s) (λ storage' s'.
        IsBook s' storage' (drop_value c xs)
        × (storage'.nextid ≡ storage.nextid)
        × (s'.contacts ≡ s.contacts))
  remove_contact-IsBook xs book two small one m =
      let (r, g, run, (l', is_l, same_cmp, is)) =
        list_remove_value-IsList fuel s.nodes l c xs (rw lists at book.listed) two one
          (filled-once s.contacts c xs book.filled) m in
      (
        _,
        _,
        remove_contact-run (run ∙ ap (λ q. ok (q, g)) is_l),
        (
          record {
            listed = is;
            counted = ground (arith, book.counted, length-drop_value c xs one);
            filled = filled-drop_value s.contacts c xs book.filled;
            sorted = drop_value-IsSorted (lastname_cmp s.contacts) c xs book.sorted;
          },
          refl,
          refl,
        ),
      )

  -- `remove_contact` of a contact that is not listed changes no list, but counts one contact less.
  pub remove_contact-absent :
      (xs : Cells)
      → IsBook s storage xs
      → 1 ≤ length xs
      → length xs < 2 ^ 64
      → holds c xs ≡ false
      → length xs ≤ fuel
      → remove_contact fuel storage c s
        ≡ ok (record storage { list = some l; size = length xs - 1 }, s)
  remove_contact-absent xs book one small no_contact m =
      remove_contact-run (
        list_remove_value-absent fuel s.nodes l c xs (rw lists at book.listed) no_contact m
        ∙ ap (λ b. ok ((b, some l), s.nodes)) (lt→ltb 0 (length xs) one))
      ∙ ap (λ n. ok (record storage { list = some l; size = n }, s)) counted_down
    where
      counted_down : (storage.size + 2 ^ 64 - 1) % 2 ^ 64 ≡ length xs - 1
      counted_down = omega (arith, book.counted)

-- On a well-formed storage, `remove_contact` of the only contact reads the list's node after it was
-- freed: undefined behaviour.
pub remove_contact-fault :
    (fuel : ℕ) (storage : ContactStorage) (l : LinkedList) (p c : Ptr) (s : Memory)
    → storage.list ≡ some l
    → IsBook s storage ((p, c) ∷ [])
    → remove_contact (suc (suc fuel)) storage c s ≡ fault
unfolding remove_contact
remove_contact-fault fuel storage l p c s lists book =
    rw (lists, list_remove_value-fault fuel s.nodes l p c (rw lists at book.listed))
