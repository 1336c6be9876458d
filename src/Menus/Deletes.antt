-- ===== src/Menus/Deletes.antt =====
-- What `delete_menu` of 03/main.c does to the storage.
use homework_module.Prelude.{
  ℕ, suc, ◌^◌, ◌≤◌, ◌<◌, ◌≡◌, refl, ap, ◌∙◌, true, false, none, some, List, ◌∷◌, ◌++◌, ◌==◌,
  if◌then◌else◌, length, ok, Ends,
}
use homework_module.CString.Token.{NoDelim, is_end}
use homework_module.LinkedList.{Ptr, null, LinkedList}
use homework_module.LinkedList.Segment.{Cells}
use homework_module.LinkedList.Remove.{holds, drop_value}
use homework_module.Phonebook.{
  Contact, ContactStorage, Contacts, Memory, remove_contact, delete_contact, put_contact,
}
use homework_module.Phonebook.Book.{IsBook}
use homework_module.Phonebook.Elsewhere.{IsBook-elsewhere}
use homework_module.Phonebook.Create.{get-ok}
use homework_module.Phonebook.Remove.{remove_contact-IsBook, filled-once}
use homework_module.Menus.{World, menu_deleted}
use homework_module.Menus.Input.{read_ok, readline}
use homework_module.Menus.Input.Lines.{is_newline, readline-line}
use homework_module.Menus.Screens.{delete_menu, remove_stored}

-- Memory behind the freeing of one contact.
abbrev pub freed : Contacts → Ptr → Contacts
freed contacts c q = if q == c then none else contacts q

delete_contact-freed :
    (c : Ptr) (s : Memory) (k : Contact)
    → (c == null) ≡ false
    → s.contacts c ≡ some k
    → delete_contact c s ≡ ok (tt, record s { contacts = freed s.contacts c })
unfolding delete_contact put_contact
delete_contact-freed c s k e there = rw (e, get-ok c s there) refl

remove_stored-ok :
    (fuel : ℕ) (c : Ptr) (w : World) (storage : ContactStorage) (s s' : Memory)
    → remove_contact fuel w.storage c w.memory ≡ ok (storage, s)
    → delete_contact c s ≡ ok (tt, s')
    → remove_stored fuel c w ≡ ok (menu_deleted, record w { storage = storage; memory = s' })
unfolding remove_stored
remove_stored-ok fuel c w storage s s' e f = rw (e, f) refl

delete_menu-yes :
    (fuel : ℕ) (c : Ptr) (cs more : List ℕ) (w : World)
    → readline w.input ≡ ok (read_ok (b'y' ∷ cs), more)
    → delete_menu (suc fuel) c w ≡ remove_stored fuel c (record w { input = more })
unfolding delete_menu
delete_menu-yes fuel c cs more w e = rw e refl

-- A line at `delete_menu` that starts with "y", of at most 62 bytes without a zero, on a storage
-- with the invariant that lists the contact and at least one other: the menu ends in MENU_DELETED
-- behind the line, the storage keeps the invariant, lists the other contacts in their order and has
-- the same next id, the contact is freed, and no other contact in memory changes.
pub delete_menu-IsBook :
    (fuel : ℕ) (c : Ptr) (cs rest : List ℕ) (w : World) (l : LinkedList) (k : Contact) (xs : Cells)
    → length (b'y' ∷ cs) ≤ 62
    → NoDelim is_newline (b'y' ∷ cs)
    → NoDelim is_end (b'y' ∷ cs)
    → w.storage.list ≡ some l
    → IsBook w.memory w.storage xs
    → 2 ≤ length xs
    → length xs < 2 ^ 64
    → holds c xs ≡ true
    → (c == null) ≡ false
    → w.memory.contacts c ≡ some k
    → length xs ≤ fuel
    → Ends (delete_menu (suc fuel) c (record w { input = (b'y' ∷ cs) ++ 10 ∷ rest })) (λ status w'.
      (status ≡ menu_deleted)
      × IsBook w'.memory w'.storage (drop_value c xs)
      × (w'.storage.nextid ≡ w.storage.nextid)
      × (w'.memory.contacts ≡ freed w.memory.contacts c)
      × (w'.input ≡ rest))
delete_menu-IsBook fuel c cs rest w l k xs short plain ended lists book two small one ne there
      enough =
    let (storage, s, run, (book', same_id, same)) =
      remove_contact-IsBook fuel w.storage l c w.memory lists xs book two small one enough in
    let still : s.contacts c ≡ some k = rw same there in
    let w_read = record w { input = rest } in
    (
      menu_deleted,
      record w_read { storage = storage; memory = record s { contacts = freed s.contacts c } },
      delete_menu-yes fuel c cs rest (record w { input = (b'y' ∷ cs) ++ 10 ∷ rest })
            (readline-line b'y' cs rest short plain ended)
          ∙ remove_stored-ok fuel c w_read storage s (record s { contacts = freed s.contacts c })
              run (delete_contact-freed c s k ne still),
      (
        refl,
        IsBook-elsewhere s storage (freed s.contacts c) c (drop_value c xs)
            (λ q other. rw other refl) (filled-once w.memory.contacts c xs book.filled) book',
        same_id,
        ap (λ q. freed q c) same,
        refl,
      ),
    )
