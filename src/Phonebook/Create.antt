-- ===== src/Phonebook/Create.antt =====
-- `create_contact` and `update_contact` of 03/phonebook.c: the format string says which field each
-- argument goes to.
use homework_module.Prelude.{
  ℕ, ◌≤◌, ◌≡◌, ◌≢◌, refl, ◌∙◌, ap, true, false, Option, none, some, List, [], ◌∷◌, arith, ◌==◌,
  if◌then◌else◌, length, take, drop, ok, Ends,
}
use homework_module.CString.{c_str}
use homework_module.LinkedList.{Ptr, null}
use homework_module.Phonebook.{
  Contact, Memory, update_value, update_values, zero_contact, filled, create_contact,
  update_contact, get,
}
use homework_module.Phonebook.Fields.{
  IsContact, text_of, is_key, update_value-IsContact, update_value-text, update_value-id,
  update_value-numbers,
}

abbrev pub AllKeys : List ℕ → Type 0
AllKeys [] = Unit
AllKeys (k ∷ ks) = (is_key k ≡ true) × AllKeys ks

-- The text of the last argument whose key is `j`, cut to 63 bytes; `old` where there is none.
pub written : (j : ℕ) (keys : List ℕ) (args : List (List ℕ)) (old : List ℕ) → List ℕ
written j [] args old = old
written j (k ∷ ks) [] old = old
written j (k ∷ ks) (v ∷ vs) old = written j ks vs (if j == k then take 63 (c_str v) else old)

-- The contact with these texts in place of those of `c`, and with its id and its other numbers.
pub record IsUpdate (c c' : Contact) (keys : List ℕ) (args : List (List ℕ)) : Type 0 where
  pub sizes : IsContact c'
  pub texts : (j : ℕ) → text_of c' j ≡ written j keys args (text_of c j)
  pub same_id : c'.id ≡ c.id
  pub same_numbers : drop 1 c'.phone_numbers ≡ drop 1 c.phone_numbers

pub update_values-IsUpdate :
    (c : Contact) (keys : List ℕ) (args : List (List ℕ))
    → IsContact c
    → AllKeys keys
    → length keys ≤ length args
    → (c' : Contact) × (update_values c keys args ≡ ok c') × IsUpdate c c' keys args
unfolding update_values written
update_values-IsUpdate c [] args is known m = (
  c,
  refl,
  record { sizes = is; texts = λ j. refl; same_id = refl; same_numbers = refl },
)
update_values-IsUpdate c (k ∷ ks) [] is known m = absurd (omega arith)
update_values-IsUpdate c (k ∷ ks) (v ∷ vs) is known m =
    let (c', run, upd) =
      update_values-IsUpdate (update_value c k v) ks vs (update_value-IsContact c k v is) known.1
        (omega arith) in
    (
      c',
      run,
      record {
        sizes = upd.sizes;
        texts = λ j. upd.texts j ∙ ap (written j ks vs) (update_value-text c k j v is known.0);
        same_id = upd.same_id ∙ update_value-id c k v;
        same_numbers = upd.same_numbers ∙ update_value-numbers c k v;
      },
    )

pub zero_contact-IsContact : IsContact zero_contact
zero_contact-IsContact = record {
  firstname = refl;
  lastname = refl;
  middlename = refl;
  job = refl;
  position = refl;
  numbers = refl;
  number_fields = (refl, (refl, (refl, (refl, (refl, tt)))));
}

-- The keys of the arguments that follow the two names.
abbrev pub keys_of : Option (List ℕ) → List ℕ
keys_of none = []
keys_of (some data_format) = c_str data_format

pub filled-update_values :
    (first last : List ℕ) (data_format : Option (List ℕ)) (args : List (List ℕ))
    → filled first last data_format args
      ≡ update_values zero_contact (b'f' ∷ b'l' ∷ keys_of data_format) (first ∷ last ∷ args)
unfolding filled update_value
filled-update_values first last none args = refl
filled-update_values first last (some data_format) args = refl

pub create_contact-run :
    (fresh : Ptr) (first last : List ℕ) (data_format : Option (List ℕ)) (args : List (List ℕ))
    (s : Memory) {c : Contact}
    → fresh ≢ null
    → filled first last data_format args ≡ ok c
    → create_contact fresh (some first) (some last) data_format args s
      ≡ ok (fresh, record s { contacts = λ q. if q == fresh then some c else s.contacts q })
unfolding create_contact
create_contact-run fresh first last data_format args s ne run = rw (some_block, run)
  where
    some_block : (fresh == null) ≡ false
    some_block = ground arith

pub get-ok : (p : Ptr) (s : Memory) {c : Contact} → s.contacts p ≡ some c → get p s ≡ ok (c, s)
unfolding get
get-ok p s here = rw (here, get)

update_contact-run :
    (p : Ptr) (data_format : List ℕ) (args : List (List ℕ)) (s : Memory) {c c' : Contact}
    → p ≢ null
    → s.contacts p ≡ some c
    → update_values c (c_str data_format) args ≡ ok c'
    → update_contact p (some data_format) args s
      ≡ ok (0, record s { contacts = λ q. if q == p then some c' else s.contacts q })
unfolding update_contact
update_contact-run p data_format args s ne here run = rw (some_block, get-ok p s here, run)
  where
    some_block : (p == null) ≡ false
    some_block = ground arith

-- With an address from `calloc`, known keys and an argument for each, `create_contact` makes a contact
-- there whose texts are the two names and the arguments by their keys, each cut to 63 bytes, and all
-- others empty, and its id is 0.
pub create_contact-IsUpdate :
    (fresh : Ptr) (first last : List ℕ) (data_format : Option (List ℕ)) (args : List (List ℕ))
    (s : Memory)
    → fresh ≢ null
    → AllKeys (keys_of data_format)
    → length (keys_of data_format) ≤ length args
    → Ends (create_contact fresh (some first) (some last) data_format args s) (λ p s'.
      (p ≡ fresh)
      × (s'.nodes ≡ s.nodes)
      × ((c : Contact) × (s'.contacts fresh ≡ some c)
          × IsUpdate zero_contact c (b'f' ∷ b'l' ∷ keys_of data_format) (first ∷ last ∷ args)))
unfolding is_key
create_contact-IsUpdate fresh first last data_format args s ne known m =
    let (c, run, upd) =
      update_values-IsUpdate zero_contact (b'f' ∷ b'l' ∷ keys_of data_format) (first ∷ last ∷ args)
        zero_contact-IsContact (refl, (refl, known)) (omega arith) in
    (
      _,
      _,
      create_contact-run fresh first last data_format args s ne
          (filled-update_values first last data_format args ∙ run),
      (refl, refl, (c, ground arith, upd)),
    )

-- On a contact in memory whose arrays have their declared sizes, with known keys only and an
-- argument for each of them, `update_contact` writes the arguments by their keys, each cut to 63
-- bytes, leaves the other texts, the id, the numbers behind the first and all other contacts alone, and
-- returns 0.
pub update_contact-IsUpdate :
    (p : Ptr) (data_format : List ℕ) (args : List (List ℕ)) (s : Memory) (c : Contact)
    → p ≢ null
    → s.contacts p ≡ some c
    → IsContact c
    → AllKeys (c_str data_format)
    → length (c_str data_format) ≤ length args
    → Ends (update_contact p (some data_format) args s) (λ r s'.
      (r ≡ 0)
      × (s'.nodes ≡ s.nodes)
      × ((q : Ptr) → q ≢ p → s'.contacts q ≡ s.contacts q)
      × ((c' : Contact) × (s'.contacts p ≡ some c') × IsUpdate c c' (c_str data_format) args))
update_contact-IsUpdate p data_format args s c ne here is known m =
    let (c', run, upd) = update_values-IsUpdate c (c_str data_format) args is known m in
    (
      0,
      _,
      update_contact-run p data_format args s ne here run,
      (refl, refl, λ q other. ground arith, (c', ground arith, upd)),
    )
