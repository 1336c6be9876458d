-- ===== src/Phonebook/Storage.antt =====
-- `delete_storage` of 03/phonebook.c.
use homework_module.Prelude.{
  ℕ, zero, suc, ◌<◌, ◌≡◌, refl, ◌∙◌, ap, true, false, Option, none, some, [], ◌∷◌, arith, ◌==◌,
  if◌then◌else◌, length, ok, Ends,
}
use homework_module.LinkedList.{
  Ptr, null, Heap, LinkedList, ListIterator, it_begin, it_has_next, it_remove_current,
}
use homework_module.LinkedList.Segment.{Cells}
use homework_module.LinkedList.Insert.{IsList}
use homework_module.LinkedList.Remove.{holds}
use homework_module.LinkedList.Iterate.{
  before, has_next-nil, has_next-cons, it_remove_current-IsRemoved,
}
use homework_module.Phonebook.{
  Contact, ContactStorage, Contacts, Memory, drain, delete_list, delete_storage,
}
use homework_module.Phonebook.Book.{IsBook, IsFilled, IsListed}
use homework_module.Phonebook.Find.{some_contact}

-- The nodes and the contacts of these cells are given back.
abbrev pub IsFreed : Memory → Cells → Type 0
IsFreed s [] = Unit
IsFreed s ((p, c) ∷ xs) = (s.nodes p ≡ none) × (s.contacts c ≡ none) × IsFreed s xs

-- Nothing that is free in the first memory is allocated in the second.
pub record NoneMade (s s' : Memory) : Type 0 where
  pub no_node : (a : Ptr) → s.nodes a ≡ none → s'.nodes a ≡ none
  pub no_contact : (a : Ptr) → s.contacts a ≡ none → s'.contacts a ≡ none

without : Contacts → Ptr → Contacts
without contacts c q = if q == c then none else contacts q

drain-stop :
    (fuel : ℕ) (s : Memory) (it : ListIterator)
    → it_has_next it ≡ false
    → drain (suc fuel) it s ≡ ok (it, s)
unfolding drain
drain-stop fuel s it stop = rw stop

drain-step :
    (fuel : ℕ) (s : Memory) (it it' : ListIterator) (c : Ptr) {k : Contact} {g : Heap}
    → it_has_next it ≡ true
    → it_remove_current it s.nodes ≡ ok ((c, it'), g)
    → (c == null) ≡ false
    → s.contacts c ≡ some k
    → drain (suc fuel) it s ≡ drain fuel it' (record { nodes = g; contacts = without s.contacts c })
unfolding drain without
drain-step fuel s it it' c more step ne here = rw (more, step, ne, here)

without-filled :
    (contacts : Contacts) (c : Ptr) (xs : Cells)
    → holds c xs ≡ false
    → IsFilled contacts xs
    → IsFilled (without contacts c) xs
unfolding without
without-filled contacts c [] out f = tt
without-filled contacts c ((p, d) ∷ xs) out f =
    (ground (arith, f.0), f.1, without-filled contacts c xs (ground arith) f.2)

drain-IsFreed :
    (fuel : ℕ) (s : Memory) (l : LinkedList) (xs : Cells)
    → IsList s.nodes l xs
    → IsFilled s.contacts xs
    → s.contacts null ≡ none
    → length xs < fuel
    → Ends (drain fuel (before l xs) s) (λ _ s'. IsFreed s' xs × NoneMade s s')
unfolding without
drain-IsFreed zero s l xs is f no_null m = elim m [ ]
drain-IsFreed (suc fuel) s l [] is f no_null m = (
  _,
  _,
  drain-stop fuel s (before l []) (has_next-nil l),
  (tt, record { no_node = λ a e. e; no_contact = λ a e. e }),
)
drain-IsFreed (suc fuel) s l ((p, c) ∷ xs) is f no_null m =
    let (k, here) = some_contact s.contacts c f.0 in
    let (r, g, step, (l', is_r, out)) = it_remove_current-IsRemoved s.nodes l p c xs is in
    let s₁ : Memory = record { nodes = g; contacts = without s.contacts c } in
    let (it, s', run, (freed, made)) =
      drain-IsFreed fuel s₁ l' xs out.is_list (without-filled s.contacts c xs f.1 f.2)
        (ground arith) (omega arith) in
    (
      it,
      s',
      drain-step fuel s (before l ((p, c) ∷ xs)) (before l' xs) c
            (has_next-cons s.nodes l [] p c xs is) (step ∙ ap (λ q. ok (q, g)) is_r) (ground arith)
            here
          ∙ run,
      (
        (made.no_node p out.freed, made.no_contact c (ground arith), freed),
        record {
          no_node = λ a e. made.no_node a (out.none_made a e);
          no_contact = λ a e. made.no_contact a (ground arith);
        },
      ),
    )

delete_list-run :
    (fuel : ℕ) (s s' : Memory) (l : LinkedList) (it : ListIterator)
    → drain fuel (record { list = some l; current = l.head }) s ≡ ok (it, s')
    → delete_list fuel (some l) s ≡ ok (tt, s')
unfolding delete_list it_begin
delete_list-run fuel s s' l it run = rw run

-- On a well-formed storage, where no contact stands at NULL, `delete_storage` with fuel for one
-- round ends without a double free, and gives back every node and every listed contact; nothing new
-- is allocated.
pub delete_storage-IsFreed :
    (fuel : ℕ) (s : Memory) (storage : ContactStorage) (xs : Cells)
    → IsBook s storage xs
    → s.contacts null ≡ none
    → length xs < fuel
    → Ends (delete_storage fuel storage s) (λ _ s'. IsFreed s' xs × NoneMade s s')
unfolding delete_storage
delete_storage-IsFreed fuel s storage xs book no_null m = freed storage.list book.listed
  where
    freed :
        (list : Option LinkedList)
        → IsListed s list xs
        → Ends (delete_list fuel list s) (λ _ s'. IsFreed s' xs × NoneMade s s')
    freed none is = rw is (tt, s, refl, (tt, record { no_node = λ a e. e; no_contact = λ a e. e }))
    freed (some l) is =
        let (it, s', run, out) = drain-IsFreed fuel s l xs is book.filled no_null m in
        (
          tt,
          s',
          delete_list-run fuel s s' l it
              (ap (λ q. drain fuel (record { list = some l; current = q }) s) is.head ∙ run),
          out,
        )
