-- ===== src/Menus/Screens.antt =====
-- The menus of 03/main.c and its main loop. `fuel` bounds the walks round the list and the rounds
-- of a menu that asks again.
use homework_module.Prelude.{
  ℕ, zero, suc, ◌+◌, Option, none, some, List, [], ◌∷◌, ◌==◌, if◌then◌else◌, get_or, ok, fault,
  out_of_fuel, and_then, pure, ◌>>=◌, ◌>>◌,
}
use homework_module.LinkedList.{Ptr}
use homework_module.Phonebook.{
  get, create_contact, update_contact, delete_contact, add_contact, remove_contact,
}
use homework_module.Menus.Input.{
  ReadStatus, read_ok, read_cancel, read_fail, readline, readline_required,
}
use homework_module.Menus.{
  MenuStatus, menu_ok, menu_fail, menu_invalid, menu_quit, menu_deleted, Menu, on_memory, on_input,
  edit_numbers, ask_fields,
}

-- `fresh i` is the address that the allocation number `i` gives.
module _ (fresh : ℕ → Ptr) where
  -- `add_contact` of the new contact to the global storage.
  unfoldable pub store_new : (fuel : ℕ) (contact : Ptr) → Menu
  unfolding add_contact
  store_new fuel contact w =
      and_then (add_contact fuel (fresh (suc w.allocated)) (some w.storage) contact w.memory) (λ r.
        elim r.0 [
          | none ↦ fault
          | some storage ↦
              ok
                (menu_ok, record w { storage = storage; memory = r.1; allocated = w.allocated + 2 })
        ])

  unfoldable pub format_of : List ℕ → Option (List ℕ)
  format_of [] = none
  format_of (key ∷ keys) = some (key ∷ keys)

  unfoldable pub make_contact :
      (fuel : ℕ) (name lastname : List ℕ) → Option (List ℕ × List (List ℕ)) → Menu
  unfolding create_contact store_new format_of
  make_contact fuel name lastname none = pure menu_fail
  make_contact fuel name lastname (some (data_format, args)) = λ w.
      (on_memory (
            create_contact (fresh w.allocated) (some name) (some lastname) (format_of data_format)
              args)
          >>= store_new fuel)
        w

  unfoldable pub with_lastname : (fuel : ℕ) (name : List ℕ) → ReadStatus → Menu
  unfolding make_contact ask_fields
  with_lastname fuel name (read_ok lastname) =
      ask_fields (b'n' ∷ b'm' ∷ b'j' ∷ b'p' ∷ []) >>= make_contact fuel name lastname
  with_lastname fuel name _ = pure menu_fail

  unfoldable pub with_name : (fuel : ℕ) → ReadStatus → Menu
  unfolding with_lastname readline_required
  with_name fuel (read_ok name) = on_input (readline_required fuel) >>= with_lastname fuel name
  with_name fuel _ = pure menu_fail

  unfoldable pub add_menu : (fuel : ℕ) → Menu
  unfolding with_name readline_required
  add_menu fuel = on_input (readline_required fuel) >>= with_name fuel

-- `update_contact` where one field or more was given.
unfoldable pub change : (c : Ptr) → Option (List ℕ × List (List ℕ)) → Menu
unfolding update_contact
change c none = pure menu_fail
change c (some ([], args)) = pure menu_ok
change c (some (key ∷ keys, args)) =
    on_memory (update_contact c (some (key ∷ keys)) args) >> pure menu_ok

unfoldable pub edit_menu : (c : Ptr) → Menu
unfolding ask_fields change
edit_menu c = ask_fields (b'f' ∷ b'l' ∷ b'n' ∷ b'm' ∷ b'j' ∷ b'p' ∷ []) >>= change c

unfoldable pub remove_stored : (fuel : ℕ) (c : Ptr) → Menu
unfolding remove_contact delete_contact
remove_stored fuel c w = and_then (remove_contact fuel w.storage c w.memory) (λ r.
    (on_memory (delete_contact c) >> pure menu_deleted) (record w { storage = r.0; memory = r.1 }))

unfoldable pub delete_menu : (fuel : ℕ) (c : Ptr) → Menu
unfolding readline remove_stored
delete_menu zero c = λ _. out_of_fuel
delete_menu (suc fuel) c = do
  status ← on_input readline
  elim status [
    | read_cancel ↦ pure menu_ok
    | read_fail ↦ pure menu_fail
    | read_ok text ↦
        if get_or text 0 0 == b'y'
        then remove_stored fuel c
        else if get_or text 0 0 == b'n'
        then pure menu_ok
        else delete_menu fuel c
  ]

unfoldable pub details_move_to_menu : (fuel opt : ℕ) (c : Ptr) → Menu
unfolding edit_menu delete_menu edit_numbers
details_move_to_menu fuel opt c =
    if opt == b'E'
    then edit_menu c
    else if opt == b'D'
    then delete_menu fuel c
    else if opt == b'N'
    then edit_numbers fuel c
    else if opt == b'Q'
    then pure menu_quit
    else pure menu_invalid

-- Every status but a failure leaves the loop with MENU_OK, so it has one round.
details_status : MenuStatus → MenuStatus
details_status menu_fail = menu_fail
details_status _ = menu_ok

-- Printing the details reads the contact.
unfoldable pub details_menu : (fuel : ℕ) (c : Ptr) → Menu
unfolding get readline details_move_to_menu details_status
details_menu fuel c = do
  contact ← on_memory (get c)
  status ← on_input readline
  elim status [
    | read_fail ↦ pure menu_fail
    | read_cancel ↦ pure menu_ok
    | read_ok text ↦ do
      result ← details_move_to_menu fuel (get_or text 0 0) c
      pure (details_status result)
  ]
