-- ===== src/Phonebook/Examples.antt =====
-- A storage of two contacts, and the theorems about 03/phonebook.c at it.
use homework_module.Prelude.{
  ℕ, ◌+◌, ◌≡◌, refl, ◌≢◌, none, some, List, [], ◌∷◌, ◌++◌, arith, ◌==◌, if◌then◌else◌, Ends, ok,
  fault, true,
}
use homework_module.CString.{strcmp, c_str, literal}
use homework_module.Menus.{menu_ok, menu_deleted, World}
use homework_module.Menus.Adds.{add_menu-IsBook}
use homework_module.Menus.Answers.{input_of}
use homework_module.Phonebook.Book.{with_contact}
use homework_module.Menus.Screens.{delete_menu, add_menu}
use homework_module.Menus.Deletes.{freed, delete_menu-IsBook}
use homework_module.Phonebook.Data.{dump_data}
use homework_module.Phonebook.Data.Dump.{contacts_of, dump_data-contacts_of}
use homework_module.Phonebook.Fields.{is_key}
use homework_module.LinkedList.{Ptr, Heap, LinkedList, list_node}
use homework_module.LinkedList.Segment.{Cells}
use homework_module.LinkedList.Insert.{insert_sorted}
use homework_module.LinkedList.Remove.{drop_value}
use homework_module.Phonebook.{
  Contact, ContactStorage, Contacts, Memory, zero_contact, lastname_cmp, add_contact,
  remove_contact, delete_storage, update_contact,
}
use homework_module.Phonebook.Book.{IsBook}
use homework_module.Phonebook.Add.{add_contact-IsBook}
use homework_module.Phonebook.Remove.{remove_contact-IsBook, remove_contact-fault}
use homework_module.Phonebook.Storage.{IsFreed, NoneMade, delete_storage-IsFreed}
use homework_module.Phonebook.Create.{IsUpdate, update_contact-IsUpdate, zero_contact-IsContact}

abbrev named : ℕ → List ℕ → Contact
named id name = record zero_contact { id = id; lastname = name }

-- Contacts 10 ("A") and 20 ("C") are listed, 30 ("B") is not.
abbrev contacts : Contacts
contacts a =
    if a == 10
    then some (named 1 (b'A' ∷ 0 ∷ []))
    else if a == 20
    then some (named 2 (b'C' ∷ 0 ∷ []))
    else if a == 30
    then some (named 0 (b'B' ∷ 0 ∷ []))
    else none

abbrev nodes : Heap
nodes a =
    if a == 1 then some (list_node 10 2 2) else if a == 2 then some (list_node 20 1 1) else none

abbrev memory : Memory
memory = record { nodes = nodes; contacts = contacts }

abbrev list : LinkedList
list = record { head = 1; cmp = lastname_cmp contacts }

abbrev storage : ContactStorage
storage = record { list = some list; size = 2; nextid = 3 }

abbrev cells : Cells
cells = (1, 10) ∷ (2, 20) ∷ []

storage-IsBook : IsBook memory storage cells
unfolding lastname_cmp strcmp
storage-IsBook = record {
  listed = record {
    ring = record {
      distinct = (refl, (refl, tt));
      linked = (λ e. omega arith, refl, (λ e. omega arith, refl, tt));
    };
    head = refl;
  };
  counted = refl;
  filled = (refl, refl, (refl, refl, tt));
  sorted = ((refl, tt), (tt, tt));
}

add_contact-IsBook_example : Ends (add_contact 2 3 (some storage) 30 memory) (λ r s'.
    (storage' : ContactStorage) × (r ≡ some storage')
    × IsBook s' storage' (insert_sorted (lastname_cmp contacts) 3 30 cells)
    × (s'.contacts 30 ≡ some (named 3 (b'B' ∷ 0 ∷ [])))
    × (storage'.nextid ≡ 4))
add_contact-IsBook_example =
    add_contact-IsBook 2 3 storage 30 memory (named 0 (b'B' ∷ 0 ∷ [])) cells (λ e. omega arith) refl
      refl refl storage-IsBook (omega arith) (omega arith)

-- The user deletes contact 10 with the line "yes".
delete_menu-IsBook_example :
    Ends
      (delete_menu 3 10 (record {
        storage = storage;
        memory = memory;
        input = literal "yes" ++ 10 ∷ literal "Q";
        allocated = 0;
      }))
      (λ status w'.
        (status ≡ menu_deleted)
        × IsBook w'.memory w'.storage (drop_value 10 cells)
        × (w'.storage.nextid ≡ 3)
        × (w'.memory.contacts ≡ freed contacts 10)
        × (w'.input ≡ literal "Q"))
delete_menu-IsBook_example =
    delete_menu-IsBook 2 10 (literal "es") (literal "Q")
      (record { storage = storage; memory = memory; input = []; allocated = 0 }) list
      (named 1 (b'A' ∷ 0 ∷ [])) cells (omega arith) (refl, (refl, (refl, tt)))
      (refl, (refl, (refl, tt))) refl storage-IsBook (omega arith) (omega arith) refl refl refl
      (omega arith)

abbrev user_world : World
user_world = record { storage = storage; memory = memory; input = []; allocated = 0 }

-- The user adds "Bo B", whose job is "cook".
abbrev new_lines : List (List ℕ)
new_lines = [] ∷ [] ∷ literal "cook" ∷ [] ∷ []

abbrev fresh_40 : ℕ → Ptr
fresh_40 i = 40 + i

add_menu-IsBook_example :
    Ends
      (add_menu fresh_40 2 (record user_world {
        input = input_of (literal "Bo" ∷ literal "B" ∷ new_lines) (literal "Q");
      }))
      (λ status w'.
        (status ≡ menu_ok)
        × (w'.input ≡ literal "Q")
        × ((k : Contact) × IsUpdate zero_contact k
              (b'f' ∷ b'l' ∷ b'j' ∷ [])
              (literal "Bo" ∷ literal "B" ∷ literal "cook" ∷ [])
            × (w'.memory.contacts 40 ≡ some (record k { id = 3 }))
            × IsBook w'.memory w'.storage
                (insert_sorted (lastname_cmp (with_contact contacts 40 k)) 41 40 cells)))
add_menu-IsBook_example =
    add_menu-IsBook fresh_40 1 b'B' b'B' (literal "o") [] new_lines (literal "Q") user_world cells
      (
        (omega arith, (refl, (refl, tt)), (refl, (refl, tt))),
        (
          (omega arith, (refl, tt), (refl, tt)),
          (
            (omega arith, tt, tt),
            (
              (omega arith, tt, tt),
              (
                (
                  omega arith,
                  (refl, (refl, (refl, (refl, tt)))),
                  (refl, (refl, (refl, (refl, tt)))),
                ),
                ((omega arith, tt, tt), tt),
              ),
            ),
          ),
        ),
      )
      refl storage-IsBook (omega arith) (omega arith) (λ e. omega arith) refl (λ e. omega arith)
      refl

remove_contact-IsBook_example : Ends (remove_contact 2 storage 10 memory) (λ storage' s'.
    IsBook s' storage' (drop_value 10 cells) × (storage'.nextid ≡ 3) × (s'.contacts ≡ contacts))
remove_contact-IsBook_example =
    remove_contact-IsBook 2 storage list 10 memory refl cells storage-IsBook (omega arith)
      (omega arith) refl (omega arith)

abbrev one_node : Memory
one_node = record {
  nodes = λ a. if a == 1 then some (list_node 10 1 1) else none;
  contacts = contacts;
}

abbrev one_contact : ContactStorage
one_contact = record { list = some list; size = 1; nextid = 2 }

one_contact-IsBook : IsBook one_node one_contact ((1, 10) ∷ [])
one_contact-IsBook = record {
  listed = record {
    ring = record { distinct = (refl, tt); linked = (λ e. omega arith, refl, tt) };
    head = refl;
  };
  counted = refl;
  filled = (refl, refl, tt);
  sorted = (tt, tt);
}

remove_contact-fault_example : remove_contact 5 one_contact 10 one_node ≡ fault
remove_contact-fault_example =
    remove_contact-fault 3 one_contact list 1 10 one_node refl one_contact-IsBook

dump_data-contacts_of_example :
    dump_data (λ _. true) 3 storage memory ≡ ok ((true, contacts_of contacts cells), memory)
dump_data-contacts_of_example =
    dump_data-contacts_of (λ _. true) 3 memory storage cells (λ _. refl) storage-IsBook
      (omega arith)

delete_storage-IsFreed_example :
    Ends (delete_storage 3 storage memory) (λ _ s'. IsFreed s' cells × NoneMade memory s')
delete_storage-IsFreed_example =
    delete_storage-IsFreed 3 memory storage cells storage-IsBook refl (omega arith)

abbrev ann : List ℕ
ann = b'A' ∷ b'n' ∷ b'n' ∷ 0 ∷ []

abbrev blank : Memory
blank = record memory { contacts = λ a. if a == 50 then some zero_contact else none }

update_contact-IsUpdate_example :
    Ends (update_contact 50 (some (b'j' ∷ [])) (ann ∷ []) blank) (λ r s'.
      (r ≡ 0)
      × (s'.nodes ≡ nodes)
      × ((q : Ptr) → q ≢ 50 → s'.contacts q ≡ blank.contacts q)
      × ((c' : Contact) × (s'.contacts 50 ≡ some c')
          × IsUpdate zero_contact c' (b'j' ∷ []) (ann ∷ [])))
unfolding is_key c_str
update_contact-IsUpdate_example =
    update_contact-IsUpdate 50 (b'j' ∷ []) (ann ∷ []) blank zero_contact (λ e. omega arith) refl
      zero_contact-IsContact (refl, tt) (omega arith)
