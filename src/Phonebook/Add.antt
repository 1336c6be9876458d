-- ===== src/Phonebook/Add.antt =====
-- `add_contact` of 03/phonebook.c keeps the storage's invariant.
use homework_module.Prelude.{
  ℕ, ◌+◌, ◌%◌, ◌^◌, ◌≤◌, ◌<◌, ◌≡◌, refl, ◌∙◌, ap, ◌≢◌, false, Option, none, some, arith, length, ok,
  Ends,
}
use homework_module.LinkedList.{Ptr, null, Heap, LinkedList, list_create, list_insert}
use homework_module.LinkedList.Segment.{Cells}
use homework_module.LinkedList.Insert.{IsList, insert_sorted, list_insert-IsList}
use homework_module.LinkedList.Remove.{holds}
use homework_module.LinkedList.Order.{insert_sorted-IsSorted}
use homework_module.Phonebook.{
  Contact, ContactStorage, Contacts, Memory, lastname_cmp, insert_target, add_contact,
}
use homework_module.Phonebook.Book.{
  IsBook, IsListed, lastname_cmp-IsOrder, lastname_cmp-id, insert-filled, filled-keeps,
  length-insert_sorted, with_contact,
}

target-IsList :
    (s : Memory) (list : Option LinkedList) (xs : Cells)
    → IsListed s list xs
    → IsList s.nodes (insert_target s.contacts list) xs
unfolding insert_target list_create
target-IsList s none xs is =
    rw is (record { ring = record { distinct = tt; linked = tt }; head = refl })
target-IsList s (some list) xs is = record { ring = is.ring; head = is.head }

target-cmp :
    (s : Memory) (list : Option LinkedList)
    → (insert_target s.contacts list).cmp ≡ lastname_cmp s.contacts
unfolding insert_target list_create
target-cmp s none = refl
target-cmp s (some list) = refl

add_contact-run :
    (fuel : ℕ) (n : Ptr) (storage : ContactStorage) (c : Ptr) (s : Memory) {k : Contact}
    {list : Option LinkedList} {g : Heap}
    → s.contacts c ≡ some k
    → list_insert fuel n (some (insert_target s.contacts storage.list)) c s.nodes ≡ ok (list, g)
    → add_contact fuel n (some storage) c s
      ≡ ok (
        some (record {
          list = list;
          size = (storage.size + 1) % 2 ^ 64;
          nextid = (storage.nextid + 1) % 2 ^ 64;
        }),
        record {
          nodes = g;
          contacts = with_contact s.contacts c (record k { id = storage.nextid % 2 ^ 32 });
        },
      )
unfolding add_contact
add_contact-run fuel n storage c s here run = rw (run, here)

-- `add_contact` of a contact in memory that is not listed yet, with an address that the allocator may
-- return and fuel for one round: the storage lists it at its place by last name, behind the contacts
-- of that name, and counts it; the contact gets the next id, and the next id grows.
pub add_contact-IsBook :
    (fuel : ℕ) (n : Ptr) (storage : ContactStorage) (c : Ptr) (s : Memory) (k : Contact)
    (xs : Cells)
    → n ≢ null
    → s.nodes n ≡ none
    → s.contacts c ≡ some k
    → holds c xs ≡ false
    → IsBook s storage xs
    → length xs ≤ fuel
    → length xs + 1 < 2 ^ 64
    → Ends (add_contact fuel n (some storage) c s) (λ r s'.
      (storage' : ContactStorage) × (r ≡ some storage')
      × IsBook s' storage' (insert_sorted (lastname_cmp s.contacts) n c xs)
      × (s'.contacts c ≡ some (record k { id = storage.nextid % 2 ^ 32 }))
      × (storage'.nextid ≡ (storage.nextid + 1) % 2 ^ 64))
add_contact-IsBook fuel n storage c s k xs ne unused here new book m small =
    let (r, g, run, out) =
      list_insert-IsList fuel s.nodes n c target xs ne unused
        (target-IsList s storage.list xs book.listed) m in
    let (l, is_l, same_cmp, is) = out in
    (
      _,
      _,
      add_contact-run fuel n storage c s here (run ∙ ap (λ q. ok (q, g)) is_l),
      (
        _,
        refl,
        record {
          listed = rw (target-cmp s storage.list) at is;
          counted =
              ground (arith, book.counted, length-insert_sorted (lastname_cmp s.contacts) n c xs);
          filled =
              filled-keeps s.contacts contacts' (insert_sorted (lastname_cmp s.contacts) n c xs)
                (λ q i. ground arith)
                (insert-filled s.contacts (lastname_cmp s.contacts) n c xs (rw here) new
                  book.filled);
          sorted = rw (lastname_cmp-id s.contacts c k id here) (
              insert_sorted-IsSorted (lastname_cmp s.contacts) (lastname_cmp-IsOrder s.contacts) n c
                xs book.sorted);
        },
        ground arith,
        refl,
      ),
    )
  where
    target : LinkedList
    target = insert_target s.contacts storage.list

    id : ℕ
    id = storage.nextid % 2 ^ 32

    contacts' : Contacts
    contacts' = with_contact s.contacts c (record k { id = id })
