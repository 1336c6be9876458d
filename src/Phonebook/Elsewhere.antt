-- ===== src/Phonebook/Elsewhere.antt =====
-- The storage of 03/phonebook.c where the memory of a contact that it does not list changes.
use homework_module.Prelude.{◌≡◌, refl, false, Option, none, some, [], ◌∷◌, ◌==◌, arith}
use homework_module.LinkedList.{Ptr, LinkedList}
use homework_module.LinkedList.Segment.{Cells}
use homework_module.LinkedList.Remove.{holds}
use homework_module.LinkedList.Order.{IsSorted, NoneLess}
use homework_module.Phonebook.{ContactStorage, Contacts, Memory, lastname_cmp}
use homework_module.Phonebook.Book.{IsBook, IsFilled, IsListed}

IsListed-contacts :
    (s : Memory) (contacts : Contacts) (list : Option LinkedList) (xs : Cells)
    → IsListed s list xs
    → IsListed (record s { contacts = contacts }) list xs
IsListed-contacts s contacts none xs is = is
IsListed-contacts s contacts (some l) xs is = is

module _ (before after : Contacts) (c : Ptr)
    (same : (q : Ptr) → (q == c) ≡ false → after q ≡ before q) where
  IsFilled-elsewhere : (xs : Cells) → holds c xs ≡ false → IsFilled before xs → IsFilled after xs
  IsFilled-elsewhere [] away f = tt
  IsFilled-elsewhere ((p, d) ∷ xs) away f =
      let other : (d == c) ≡ false = ground (arith, away) in
      (rw (same d other) f.0, f.1, IsFilled-elsewhere xs (ground (arith, away)) f.2)

  cmp-elsewhere :
      (u v : Ptr)
      → (u == c) ≡ false
      → (v == c) ≡ false
      → lastname_cmp after u v ≡ lastname_cmp before u v
  unfolding lastname_cmp
  cmp-elsewhere u v e f = rw (same u e, same v f) refl

  NoneLess-elsewhere :
      (v : Ptr) (xs : Cells)
      → (v == c) ≡ false
      → holds c xs ≡ false
      → NoneLess (lastname_cmp before) v xs
      → NoneLess (lastname_cmp after) v xs
  NoneLess-elsewhere v [] other away s = tt
  NoneLess-elsewhere v ((q, u) ∷ xs) other away s =
      let apart : (u == c) ≡ false = ground (arith, away) in
      (
        rw (cmp-elsewhere u v apart other) s.0,
        NoneLess-elsewhere v xs other (ground (arith, away)) s.1,
      )

  IsSorted-elsewhere :
      (xs : Cells)
      → holds c xs ≡ false
      → IsSorted (lastname_cmp before) xs
      → IsSorted (lastname_cmp after) xs
  IsSorted-elsewhere [] away s = tt
  IsSorted-elsewhere ((p, v) ∷ xs) away s =
      let rest : holds c xs ≡ false = ground (arith, away) in
      (NoneLess-elsewhere v xs (ground (arith, away)) rest s.0, IsSorted-elsewhere xs rest s.1)

-- A change of the memory at a contact that is not listed keeps the invariant.
pub IsBook-elsewhere :
    (s : Memory) (storage : ContactStorage) (after : Contacts) (c : Ptr) (xs : Cells)
    → ((q : Ptr) → (q == c) ≡ false → after q ≡ s.contacts q)
    → holds c xs ≡ false
    → IsBook s storage xs
    → IsBook (record s { contacts = after }) storage xs
IsBook-elsewhere s storage after c xs same away book = record {
  listed = IsListed-contacts s after storage.list xs book.listed;
  counted = book.counted;
  filled = IsFilled-elsewhere s.contacts after c same xs away book.filled;
  sorted = IsSorted-elsewhere s.contacts after c same xs away book.sorted;
}
