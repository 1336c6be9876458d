-- ===== src/Phonebook/Book.antt =====
-- The invariant of the storage of 03/phonebook.c, and what its operations do to it.
use mathlib.Core.Path.{fun_ext, ap₂}
use homework_module.Prelude.{
  ℕ, suc, ◌≡◌, refl, ◌∙◌, true, false, ◌||◌, Option, none, some, [], ◌∷◌, arith, ◌==◌,
  if◌then◌else◌, length, is_some, Bool-cases, inl, inr,
}
use homework_module.Prelude.Int.{is_negative}
use homework_module.CString.{strcmp}
use homework_module.CString.Compare.{strcmp_irrefl, strcmp_trans}
use homework_module.LinkedList.{Ptr, LinkedList, CmpFunc}
use homework_module.LinkedList.Segment.{Cells}
use homework_module.LinkedList.Insert.{IsList, insert_sorted}
use homework_module.LinkedList.Remove.{holds}
use homework_module.LinkedList.Order.{IsOrder, IsSorted}
use homework_module.Phonebook.{
  Contact, ContactStorage, Contacts, Memory, create_storage, lastname_cmp, lastname_of,
}

-- Each cell holds a contact in memory, and no contact stands twice.
abbrev pub IsFilled : Contacts → Cells → Type 0
IsFilled contacts [] = Unit
IsFilled contacts ((p, c) ∷ xs) =
    (is_some (contacts c) ≡ true) × (holds c xs ≡ false) × IsFilled contacts xs

abbrev pub IsListed : Memory → Option LinkedList → Cells → Type 0
IsListed s none xs = xs ≡ []
IsListed s (some list) xs = IsList s.nodes list xs

-- The storage lists `xs`, sorted by last name, and counts them.
pub record IsBook (s : Memory) (storage : ContactStorage) (xs : Cells) : Type 0 where
  pub listed : IsListed s storage.list xs
  pub counted : storage.size ≡ length xs
  pub filled : IsFilled s.contacts xs
  pub sorted : IsSorted (lastname_cmp s.contacts) xs

pub lastname_cmp-IsOrder : (contacts : Contacts) → IsOrder (lastname_cmp contacts)
unfolding lastname_cmp
lastname_cmp-IsOrder contacts = record {
  irrefl = λ a. strcmp_irrefl _;
  trans = λ a b c p q. strcmp_trans _ _ _ p q;
}

pub create_storage-IsBook : (s : Memory) → IsBook s create_storage []
unfolding create_storage
create_storage-IsBook s = record { listed = refl; counted = refl; filled = tt; sorted = tt }

pub holds-insert_sorted :
    (cmp : CmpFunc) (n c q : Ptr) (xs : Cells)
    → holds q (insert_sorted cmp n c xs) ≡ ((c == q) || holds q xs)
unfolding insert_sorted
holds-insert_sorted cmp n c q [] = refl
holds-insert_sorted cmp n c q ((p, d) ∷ xs) = elim (Bool-cases (is_negative (cmp c d))) [
  | inl neg ↦ rw neg
  | inr pos ↦ rw (pos, holds-insert_sorted cmp n c q xs) (ground arith)
]

pub insert-filled :
    (contacts : Contacts) (cmp : CmpFunc) (n c : Ptr) (xs : Cells)
    → is_some (contacts c) ≡ true
    → holds c xs ≡ false
    → IsFilled contacts xs
    → IsFilled contacts (insert_sorted cmp n c xs)
unfolding insert_sorted
insert-filled contacts cmp n c [] here new f = (here, refl, tt)
insert-filled contacts cmp n c ((p, d) ∷ xs) here new f =
    elim (Bool-cases (is_negative (cmp c d))) [
      | inl neg ↦ rw neg (here, new, f)
      | inr pos ↦ rw pos (
        f.0,
        holds-insert_sorted cmp n c d xs ∙ ground (arith, new, f.1),
        insert-filled contacts cmp n c xs here (ground arith) f.2,
      )
    ]

pub filled-keeps :
    (before after : Contacts) (xs : Cells)
    → ((q : Ptr) → is_some (before q) ≡ true → is_some (after q) ≡ true)
    → IsFilled before xs
    → IsFilled after xs
filled-keeps before after [] keep f = tt
filled-keeps before after ((p, c) ∷ xs) keep f =
    (keep c f.0, f.1, filled-keeps before after xs keep f.2)

pub length-insert_sorted :
    (cmp : CmpFunc) (n c : Ptr) (xs : Cells) → length (insert_sorted cmp n c xs) ≡ suc (length xs)
unfolding insert_sorted
length-insert_sorted cmp n c [] = refl
length-insert_sorted cmp n c ((p, d) ∷ xs) = ground (arith, length-insert_sorted cmp n c xs)

-- Memory with the contact at one address replaced.
abbrev pub with_contact : Contacts → Ptr → Contact → Contacts
with_contact contacts p c q = if q == p then some c else contacts q

-- The comparison does not read the id.
pub lastname_cmp-id :
    (contacts : Contacts) (p : Ptr) (c : Contact) (id : ℕ)
    → contacts p ≡ some c
    → lastname_cmp (with_contact contacts p (record c { id = id })) ≡ lastname_cmp contacts
unfolding lastname_cmp
lastname_cmp-id contacts p c id e = fun_ext λ a. fun_ext λ b. ap₂ strcmp (same_name a) (same_name b)
  where
    same_name :
        (a : Ptr)
        → lastname_of (with_contact contacts p (record c { id = id }) a) ≡ lastname_of (contacts a)
    same_name a = ground arith
