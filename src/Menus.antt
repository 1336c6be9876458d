-- ===== src/Menus.antt =====
-- 03/main.c: the menus of the phonebook, which read the input and call the storage.
pub mod Input
pub mod Screens
pub mod Choice
pub mod Answers
pub mod Deletes
pub mod Adds
mod Examples
use homework_module.Prelude.{
  ℕ, zero, suc, ◌+◌, ◌-◌, Bool, true, false, ◌&&◌, Option, none, some, List, [], ◌∷◌, ◌++◌, ◌==◌,
  ltb, if◌then◌else◌, length, set, get_or, Run, ok, fault, out_of_fuel, and_then, Cmd, pure, ◌>>=◌,
  ◌>>◌,
}
use homework_module.CString.{c_str, strncpy}
use homework_module.Prelude.Int.{ℤ, pos, negsuc}
use homework_module.LinkedList.{Ptr, null, ListIterator, it_begin, it_has_next, it_next}
use homework_module.Phonebook.{
  Contact, ContactStorage, Memory, on_nodes, get, put_contact, field_size, create_contact,
  update_contact, delete_contact, add_contact, remove_contact,
}
use homework_module.Menus.Input.{
  ReadStatus, read_ok, read_cancel, read_fail, readline, readline_required, try_parse_int,
  try_parse_size_t,
}

pub data MenuStatus : Type 0 where
  menu_ok menu_fail menu_invalid menu_quit menu_deleted : MenuStatus

-- The global `storage`, the memory, the input that is left, and how many addresses were asked for.
pub record World : Type 0 where
  pub storage : ContactStorage
  pub memory : Memory
  pub input : List ℕ
  pub allocated : ℕ

abbrev pub Menu : Type 0
Menu = Cmd World MenuStatus

abbrev on_memory : {A : Type 0} → Cmd Memory A → Cmd World A
on_memory m w = and_then (m w.memory) (λ r. ok (r.0, record w { memory = r.1 }))

abbrev on_input : {A : Type 0} → (List ℕ → Run (A × List ℕ)) → Cmd World A
on_input m w = and_then (m w.input) (λ r. ok (r.0, record w { input = r.1 }))

put_number : (c : Ptr) (slot : ℕ) (value : List ℕ) (count : ℕ) → Cmd Memory (Unit {0})
unfolding get put_contact
put_number c slot value count = do
  contact ← get c
  put_contact c (
      some (record contact {
        phone_numbers =
            set contact.phone_numbers slot
              (strncpy (get_or contact.phone_numbers slot []) value count);
      }))

-- The number behind a slot from 1 to 5.
new_number : (c : Ptr) (slot : ℕ) → ReadStatus → Menu
unfolding put_number
new_number c slot (read_ok text) = on_memory (put_number c slot text field_size) >> pure menu_ok
new_number c slot read_fail = pure menu_fail
new_number c slot read_cancel = on_memory (put_number c slot [] 1) >> pure menu_ok

slot_of : Option ℤ → Option ℕ
slot_of (some (pos (suc slot))) = if ltb slot 5 then some slot else none
slot_of _ = none

unfoldable pub edit_numbers : (fuel : ℕ) (c : Ptr) → Menu
unfolding readline try_parse_int slot_of new_number
edit_numbers zero c = λ _. out_of_fuel
edit_numbers (suc fuel) c = do
  status ← on_input readline
  elim status [
    | read_cancel ↦ pure menu_ok
    | read_fail ↦ pure menu_fail
    | read_ok text ↦ elim (slot_of (try_parse_int text)) [
      | none ↦ edit_numbers fuel c
      | some slot ↦ on_input readline >>= new_number c slot
    ]
  ]

-- The loop over the keys of `add_menu` and `edit_menu`: the format and the arguments, or `none`
-- where the input ends.
unfoldable pub ask_fields : (keys : List ℕ) → Cmd World (Option (List ℕ × List (List ℕ)))
unfolding readline
ask_fields [] = pure (some ([], []))
ask_fields (key ∷ keys) = do
  status ← on_input readline
  elim status [
    | read_fail ↦ pure none
    | read_cancel ↦ ask_fields keys
    | read_ok text ↦ do
      rest ← ask_fields keys
      elim rest [
        | none ↦ pure none
        | some (data_format, args) ↦ pure (some (key ∷ data_format, text ∷ args))
      ]
  ]
