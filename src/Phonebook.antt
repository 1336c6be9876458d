-- ===== src/Phonebook.antt =====
-- 03/phonebook.c and phonebook.h: contacts in memory, and the storage that lists them by last name.
-- `malloc` and `calloc` enter as arguments: the address that each call returns, or `null`.
pub mod Add
pub mod Book
pub mod Elsewhere
pub mod Create
pub mod Data
mod Examples
pub mod Fields
pub mod Find
pub mod Remove
pub mod Storage
use homework_module.Prelude.{
  ℕ, zero, suc, ◌+◌, ◌-◌, ◌%◌, ◌^◌, Option, none, some, List, [], ◌∷◌, ◌==◌, if◌then◌else◌, set,
  get_or, replicate, fault, out_of_fuel, Run, ok, and_then, Cmd, pure, ◌>>=◌, ◌>>◌,
}
use homework_module.CString.{c_str, strncpy, strcmp}
use homework_module.LinkedList.{
  Ptr, null, Heap, CmpFunc, LinkedList, list_create, list_insert, list_remove_value, ListIterator,
  it_begin, it_has_next, it_next, it_remove_current,
}

abbrev pub field_size : ℕ
field_size = 64

abbrev pub numbers_size : ℕ
numbers_size = 5

-- A `char[FIELD_SIZE]`.
abbrev pub Field : Type 0
Field = List ℕ

-- `id` is an `int`, kept as its 32 bits.
pub record Contact : Type 0 where
  pub id : ℕ
  pub firstname : Field
  pub lastname : Field
  pub middlename : Field
  pub job : Field
  pub position : Field
  pub phone_numbers : List Field

pub record ContactStorage : Type 0 where
  pub list : Option LinkedList
  pub size : ℕ
  pub nextid : ℕ

abbrev pub Contacts : Type 0
Contacts = Ptr → Option Contact

-- The nodes of the list and the contacts lie in separate blocks.
pub record Memory : Type 0 where
  pub nodes : Heap
  pub contacts : Contacts

abbrev pub on_nodes : {A : Type 0} → Cmd Heap A → Cmd Memory A
on_nodes m s = and_then (m s.nodes) (λ r. ok (r.0, record s { nodes = r.1 }))

unfoldable pub put_contact : Ptr → Option Contact → Cmd Memory (Unit {0})
put_contact p c s = ok (tt, record s { contacts = λ q. if q == p then c else s.contacts q })

unfoldable pub get : Ptr → Cmd Memory Contact
get p s = elim (s.contacts p) [ none ↦ fault | some c ↦ ok (c, s) ]

unfoldable pub create_storage : ContactStorage
create_storage = record { list = none; size = 0; nextid = 1 }

unfoldable pub set_value : Field → List ℕ → Field
set_value field value = set (strncpy field value field_size) 63 0

unfoldable pub update_value : Contact → (key : ℕ) → List ℕ → Contact
update_value c key value =
    if key == b'f'
    then record c { firstname = set_value c.firstname value }
    else if key == b'l'
    then record c { lastname = set_value c.lastname value }
    else if key == b'm'
    then record c { middlename = set_value c.middlename value }
    else if key == b'n'
    then record c {
      phone_numbers = set c.phone_numbers 0 (set_value (get_or c.phone_numbers 0 []) value);
    }
    else if key == b'j'
    then record c { job = set_value c.job value }
    else if key == b'p'
    then record c { position = set_value c.position value }
    else c

-- The loops of `create_contact` and `update_contact`: one `va_arg` for each character of the format,
-- and reading an argument that was not passed is a fault.
unfoldable pub update_values : Contact → (data_format : List ℕ) → List (List ℕ) → Run Contact
update_values c [] args = ok c
update_values c (key ∷ keys) [] = fault
update_values c (key ∷ keys) (value ∷ args) = update_values (update_value c key value) keys args

abbrev pub zero_field : Field
zero_field = replicate field_size 0

-- What `calloc(1, sizeof(Contact))` gives.
abbrev pub zero_contact : Contact
zero_contact = record {
  id = 0;
  firstname = zero_field;
  lastname = zero_field;
  middlename = zero_field;
  job = zero_field;
  position = zero_field;
  phone_numbers = replicate numbers_size zero_field;
}

unfoldable pub filled : List ℕ → List ℕ → Option (List ℕ) → List (List ℕ) → Run Contact
unfolding set_value update_values
filled first last none args = ok (record zero_contact {
  firstname = set_value zero_field first;
  lastname = set_value zero_field last;
})
filled first last (some data_format) args =
    update_values
      (record zero_contact {
        firstname = set_value zero_field first;
        lastname = set_value zero_field last;
      })
      (c_str data_format) args

-- `none` is a NULL argument; the pointer returned is NULL for it and where `calloc` fails.
unfoldable pub create_contact :
    (fresh : Ptr) (firstname lastname data_format : Option (List ℕ))
    → List (List ℕ)
    → Cmd Memory Ptr
unfolding filled put_contact
create_contact fresh (some first) (some last) data_format args =
    if fresh == null then pure null else λ s.
    and_then (filled first last data_format args)
      (λ c. (put_contact fresh (some c) >> pure fresh) s)
create_contact fresh _ _ data_format args = pure null

update_at : Ptr → List ℕ → List (List ℕ) → Cmd Memory ℕ
unfolding get update_values put_contact
update_at p data_format args = if p == null then pure 0 else do
  c ← get p
  λ s.
      and_then (update_values c (c_str data_format) args)
        (λ c'. (put_contact p (some c') >> pure 0) s)

unfoldable pub update_contact : Ptr → (data_format : Option (List ℕ)) → List (List ℕ) → Cmd Memory ℕ
unfolding update_at
update_contact p none args = pure 0
update_contact p (some data_format) args = update_at p data_format args

-- `free(contact)`; `free(NULL)` does nothing.
unfoldable pub delete_contact : Ptr → Cmd Memory (Unit {0})
unfolding get put_contact
delete_contact p = if p == null then pure tt else (get p >>= λ _. put_contact p none)

lastname_of : Option Contact → List ℕ
lastname_of none = []
lastname_of (some c) = c.lastname

-- The comparison at the memory of the moment; a dangling pointer reads as an empty name.
unfoldable pub lastname_cmp : Contacts → CmpFunc
unfolding lastname_of
lastname_cmp contacts left right =
    strcmp (lastname_of (contacts left)) (lastname_of (contacts right))

-- The list of a storage, whose function pointer reads the contacts as they are now.
abbrev pub list_at : Contacts → LinkedList → LinkedList
list_at contacts list = record list { cmp = lastname_cmp contacts }

insert_target : Contacts → Option LinkedList → LinkedList
insert_target contacts none = list_create (some (lastname_cmp contacts))
insert_target contacts (some list) = list_at contacts list

-- `none` is a NULL storage.
unfoldable pub add_contact :
    (fuel : ℕ) (fresh : Ptr) → Option ContactStorage → Ptr → Cmd Memory (Option ContactStorage)
unfolding insert_target get put_contact
add_contact fuel fresh none contact = pure none
add_contact fuel fresh (some storage) contact = λ s.
    (do
      list ←
          on_nodes (list_insert fuel fresh (some (insert_target s.contacts storage.list)) contact)
      c ← get contact
      put_contact contact (some (record c { id = storage.nextid % 2 ^ 32 }))
      pure (
          some (record {
            list = list;
            size = (storage.size + 1) % 2 ^ 64;
            nextid = (storage.nextid + 1) % 2 ^ 64;
          })))
      s

-- `size_t` wraps below 0.
unfoldable pub remove_contact : (fuel : ℕ) → ContactStorage → Ptr → Cmd Memory ContactStorage
remove_contact fuel storage contact = do
  r ← on_nodes (list_remove_value fuel storage.list contact)
  pure (record storage {
    list = r.1;
    size = if r.0 then (storage.size + 2 ^ 64 - 1) % 2 ^ 64 else storage.size;
  })

-- The search loop of `get_contact`; NULL where no contact has the id.
unfoldable pub find_id : (fuel : ℕ) → ListIterator → (id : ℕ) → Cmd Memory Ptr
unfolding get
find_id zero it id = λ _. out_of_fuel
find_id (suc fuel) it id =
    if it_has_next it
    then (do
      r ← on_nodes (it_next it)
      c ← get r.0
      if id == c.id then pure r.0 else find_id fuel r.1 id)
    else pure null

unfoldable pub get_contact : (fuel : ℕ) → ContactStorage → (id : ℕ) → Cmd Memory Ptr
unfolding find_id
get_contact fuel storage id = find_id fuel (it_begin storage.list) id

-- The loop of `delete_storage`.
unfoldable pub drain : (fuel : ℕ) → ListIterator → Cmd Memory ListIterator
unfolding delete_contact
drain zero it = λ _. out_of_fuel
drain (suc fuel) it =
    if it_has_next it
    then (do r ← on_nodes (it_remove_current it); delete_contact r.0; drain fuel r.1)
    else pure it

unfoldable pub delete_list : (fuel : ℕ) → Option LinkedList → Cmd Memory (Unit {0})
unfolding drain
delete_list fuel none = pure tt
delete_list fuel (some list) = do _ ← drain fuel (it_begin (some list)); pure tt

-- The blocks of the list object and of the storage are freed behind it, and are not in `Memory`.
unfoldable pub delete_storage : (fuel : ℕ) → ContactStorage → Cmd Memory (Unit {0})
unfolding delete_list
delete_storage fuel storage = delete_list fuel storage.list
