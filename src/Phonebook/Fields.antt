-- ===== src/Phonebook/Fields.antt =====
-- What `set_value`, `update_value` and `create_contact` of 03/phonebook.c write.
use homework_module.Prelude.{
  ℕ, ◌≡◌, refl, ◌∙◌, Bool, true, ◌||◌, List, [], ◌∷◌, arith, ◌==◌, if◌then◌else◌, length,
  length-set, set, get_or, take, drop,
}
use homework_module.CString.{c_str, strncpy}
use homework_module.CString.Copy.{length-strncpy, c_str-strncpy}
use homework_module.Phonebook.{Contact, Field, field_size, set_value, update_value}

pub length-set_value :
    (field : Field) (value : List ℕ) → length (set_value field value) ≡ length field
unfolding set_value
length-set_value field value =
    length-set (strncpy field value field_size) 63 0 ∙ length-strncpy field value field_size

-- A field of 64 bytes holds the first 63 bytes of the text that it is set to.
pub c_str-set_value :
    (field : Field) (value : List ℕ)
    → length field ≡ field_size
    → c_str (set_value field value) ≡ take 63 (c_str value)
unfolding set_value
c_str-set_value field value len = c_str-strncpy field value 63 len

abbrev pub AllLong : List Field → Type 0
AllLong [] = Unit
AllLong (f ∷ fs) = (length f ≡ field_size) × AllLong fs

-- The arrays have the sizes that phonebook.h declares.
pub record IsContact (c : Contact) : Type 0 where
  pub firstname : length c.firstname ≡ field_size
  pub lastname : length c.lastname ≡ field_size
  pub middlename : length c.middlename ≡ field_size
  pub job : length c.job ≡ field_size
  pub position : length c.position ≡ field_size
  pub numbers : length c.phone_numbers ≡ 5
  pub number_fields : AllLong c.phone_numbers

-- The text that a format key names.
pub text_of : Contact → (key : ℕ) → List ℕ
text_of c key =
    if key == b'f'
    then c_str c.firstname
    else if key == b'l'
    then c_str c.lastname
    else if key == b'm'
    then c_str c.middlename
    else if key == b'n'
    then c_str (get_or c.phone_numbers 0 [])
    else if key == b'j'
    then c_str c.job
    else if key == b'p'
    then c_str c.position
    else []

unfoldable pub is_key : ℕ → Bool
is_key key =
    (key == b'f')
    || (key == b'l')
    || (key == b'm')
    || (key == b'n')
    || (key == b'j')
    || (key == b'p')

first_number : (fs : List Field) (f : Field) → length fs ≡ 5 → get_or (set fs 0 f) 0 [] ≡ f
first_number [] f n = absurd (omega arith)
first_number (g ∷ fs) f n = refl

first_long : (fs : List Field) → length fs ≡ 5 → AllLong fs → length (get_or fs 0 []) ≡ field_size
first_long [] n a = absurd (omega arith)
first_long (g ∷ fs) n a = a.0

set_first_long :
    (fs : List Field) (f : Field) → length f ≡ field_size → AllLong fs → AllLong (set fs 0 f)
set_first_long [] f n a = tt
set_first_long (g ∷ fs) f n a = (n, a.1)

pub update_value-IsContact :
    (c : Contact) (key : ℕ) (value : List ℕ) → IsContact c → IsContact (update_value c key value)
unfolding update_value
update_value-IsContact c key value is = ground (
  arith,
  length-set_value c.firstname value,
  length-set_value c.lastname value,
  length-set_value c.middlename value,
  length-set_value c.job value,
  length-set_value c.position value,
  length-set_value (get_or c.phone_numbers 0 []) value,
  length-set c.phone_numbers 0 (set_value (get_or c.phone_numbers 0 []) value),
  first_long c.phone_numbers is.numbers is.number_fields,
  set_first_long c.phone_numbers (set_value (get_or c.phone_numbers 0 []) value),
)

-- A key names no id and no number but the first.
pub update_value-id :
    (c : Contact) (key : ℕ) (value : List ℕ) → (update_value c key value).id ≡ c.id
unfolding update_value
update_value-id c key value = ground arith

set_first_rest : (fs : List Field) (f : Field) → drop 1 (set fs 0 f) ≡ drop 1 fs
set_first_rest [] f = refl
set_first_rest (g ∷ fs) f = refl

pub update_value-numbers :
    (c : Contact) (key : ℕ) (value : List ℕ)
    → drop 1 (update_value c key value).phone_numbers ≡ drop 1 c.phone_numbers
unfolding update_value
update_value-numbers c key value = ground (
  arith,
  set_first_rest c.phone_numbers (set_value (get_or c.phone_numbers 0 []) value),
)

pub update_value-text :
    (c : Contact) (key j : ℕ) (value : List ℕ)
    → IsContact c
    → is_key key ≡ true
    → text_of (update_value c key value) j
      ≡ (if j == key then take 63 (c_str value) else text_of c j)
unfolding update_value text_of is_key
update_value-text c key j value is known = ground (
  arith,
  c_str-set_value c.firstname value,
  c_str-set_value c.lastname value,
  c_str-set_value c.middlename value,
  c_str-set_value c.job value,
  c_str-set_value c.position value,
  c_str-set_value (get_or c.phone_numbers 0 []) value,
  first_number c.phone_numbers (set_value (get_or c.phone_numbers 0 []) value),
  first_long c.phone_numbers is.numbers is.number_fields,
)
