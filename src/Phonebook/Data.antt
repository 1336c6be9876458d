-- ===== src/Phonebook/Data.antt =====
-- `load_data` and `dump_data` of 03/phonebook.c. The data file is the list of the contacts that it
-- holds, each of the size of a contact.
pub mod Dump
use homework_module.Prelude.{
  ℕ, zero, suc, ◌+◌, Bool, true, false, Option, none, some, List, [], ◌∷◌, if◌then◌else◌, Cmd, Run,
  ok, fault, out_of_fuel, and_then, pure, ◌>>=◌, ◌>>◌,
}
use homework_module.LinkedList.{Ptr, ListIterator, it_begin, it_has_next, it_next}
use homework_module.Phonebook.{
  Contact, ContactStorage, Memory, on_nodes, get, put_contact, add_contact,
}

-- `fresh i` is the address that the allocation number `i` gives. The read at the end of the file is
-- not the size of a contact: the block for it is freed again, and the result is `false`.
load_loop :
    (fresh : ℕ → Ptr) (fuel i : ℕ)
    → List Contact
    → Option ContactStorage
    → Cmd Memory (Bool × Option ContactStorage)
unfolding put_contact add_contact
load_loop fresh fuel i [] storage = pure (false, storage)
load_loop fresh fuel i (stored ∷ file) storage = do
  put_contact (fresh i) (some stored)
  added ← add_contact fuel (fresh (suc i)) storage (fresh i)
  load_loop fresh fuel (suc (suc i)) file added

unfoldable pub load_data :
    (opened : Bool) (fresh : ℕ → Ptr) (fuel : ℕ)
    → List Contact
    → Option ContactStorage
    → Cmd Memory (Bool × Option ContactStorage)
unfolding load_loop
load_data opened fresh fuel file storage =
    if opened then load_loop fresh fuel 0 file storage else pure (false, storage)

-- The result, and the contacts that are written; `wrote i` tells whether the write number `i` works.
unfoldable pub dump_loop :
    (wrote : ℕ → Bool) (fuel i : ℕ) → ListIterator → Cmd Memory (Bool × List Contact)
unfolding get it_next
dump_loop wrote zero i it = λ _. out_of_fuel
dump_loop wrote (suc fuel) i it =
    if it_has_next it
    then (do
      r ← on_nodes (it_next it)
      contact ← get r.0
      if wrote i
          then (do rest ← dump_loop wrote fuel (suc i) r.1; pure (rest.0, contact ∷ rest.1))
          else pure (false, []))
    else pure (true, [])

unfoldable pub dump_data :
    (wrote : ℕ → Bool) (fuel : ℕ) → ContactStorage → Cmd Memory (Bool × List Contact)
unfolding dump_loop
dump_data wrote fuel storage = dump_loop wrote fuel 0 (it_begin storage.list)
