-- ===== src/Menus/Choice.antt =====
-- The menus of 03/main.c that choose a contact, and the main loop.
use homework_module.Prelude.{
  ℕ, zero, suc, ◌+◌, ◌%◌, ◌^◌, Bool, true, false, not, ◌&&◌, Option, none, some, List, [], ◌∷◌,
  ◌==◌, ltb, if◌then◌else◌, get_or, out_of_fuel, Cmd, pure, ◌>>=◌, ◌>>◌,
}
use homework_module.CString.{c_str}
use homework_module.LinkedList.{Ptr, null, ListIterator, it_begin, it_has_next, it_next}
use homework_module.Phonebook.{Contact, Memory, on_nodes, get, delete_storage}
use homework_module.Menus.Input.{
  ReadStatus, read_ok, read_cancel, read_fail, readline, try_parse_size_t,
}
use homework_module.Menus.{
  MenuStatus, menu_ok, menu_fail, menu_invalid, menu_quit, World, Menu, on_memory, on_input,
}
use homework_module.Menus.Screens.{add_menu, details_menu}

-- `strstr`: whether the text holds the needle.
abbrev starts_with : (text needle : List ℕ) → Bool
starts_with text [] = true
starts_with [] (n ∷ needle) = false
starts_with (c ∷ text) (n ∷ needle) = (c == n) && starts_with text needle

abbrev strstr : (text needle : List ℕ) → Bool
strstr [] needle = starts_with [] needle
strstr (c ∷ text) needle = if starts_with (c ∷ text) needle then true else strstr text needle

-- Without a needle, every contact.
abbrev matches : Option (List ℕ) → Contact → Bool
matches none contact = true
matches (some needle) contact = strstr (c_str contact.lastname) needle

-- The loop that asks for a number from 1 to the size; it gives the number and what the buffer
-- holds, or `none` where the menu ends with that status.
ask_number : (fuel : ℕ) → Cmd World (Option (ℕ × List ℕ) × MenuStatus)
unfolding readline try_parse_size_t
ask_number zero = λ _. out_of_fuel
ask_number (suc fuel) = do
  status ← on_input readline
  elim status [
    | read_fail ↦ pure (none, menu_fail)
    | read_cancel ↦ pure (none, menu_ok)
    | read_ok text ↦
        if get_or text 0 0 == b'Q' then pure (none, menu_ok) else elim (try_parse_size_t text) [
          | none ↦ ask_number fuel
          | some n ↦ λ w.
              (if ltb 0 n && ltb n ((w.storage.size + 1) % 2 ^ 64)
                  then pure (some (n, text), menu_ok)
                  else ask_number fuel)
                w
        ]
  ]

-- The walk of `select_menu` and of `search_menu`: up to `input_num` contacts that the needle is in,
-- with the last contact that was passed.
unfoldable pub pick_loop :
    (fuel : ℕ) (needle : Option (List ℕ))
    → ListIterator
    → (i input_num : ℕ) (c : Ptr) → Cmd Memory (ℕ × Ptr)
unfolding get it_next
pick_loop zero needle it i input_num c = λ _. out_of_fuel
pick_loop (suc fuel) needle it i input_num c =
    if it_has_next it && ltb i input_num
    then (do
      r ← on_nodes (it_next it)
      contact ← get r.0
      pick_loop fuel needle r.1 (if matches needle contact then suc i else i) input_num r.0)
    else pure (i, c)

-- The contact that was picked, unless the walk ended before.
open_picked : (fuel input_num : ℕ) → ℕ × Ptr → Menu
unfolding details_menu
open_picked fuel input_num (i, c) =
    if (i == input_num) && not (c == null) then details_menu fuel c else pure menu_ok

pick : (fuel : ℕ) (needle : Option (List ℕ)) (input_num : ℕ) → Menu
unfolding pick_loop open_picked
pick fuel needle input_num w =
    (on_memory (pick_loop fuel needle (it_begin w.storage.list) 0 input_num null)
        >>= open_picked fuel input_num)
      w

selected : (fuel : ℕ) → Option (ℕ × List ℕ) × MenuStatus → Menu
unfolding pick
selected fuel (none, result) = pure result
selected fuel (some (n, text), result) = pick fuel none n

unfoldable pub select_menu : (fuel : ℕ) → Menu
unfolding ask_number selected
select_menu fuel = ask_number fuel >>= selected fuel

-- The second walk of `search_menu` looks for what the buffer holds by then, which is the number.
searched : (fuel : ℕ) → Option (ℕ × List ℕ) × MenuStatus → Menu
unfolding pick
searched fuel (none, result) = pure result
searched fuel (some (n, text), result) = pick fuel (some text) n

-- How many contacts have the needle in their last name.
unfoldable pub count_loop : (fuel : ℕ) (needle : List ℕ) → ListIterator → (i : ℕ) → Cmd Memory ℕ
unfolding get it_next
count_loop zero needle it i = λ _. out_of_fuel
count_loop (suc fuel) needle it i =
    if it_has_next it
    then (do
      r ← on_nodes (it_next it)
      contact ← get r.0
      count_loop fuel needle r.1 (if matches (some needle) contact then suc i else i))
    else pure i

found : (fuel i : ℕ) → Menu
unfolding ask_number searched
found fuel i = if i == 0 then pure menu_ok else (ask_number fuel >>= searched fuel)

search_for : (fuel : ℕ) → ReadStatus → Menu
unfolding count_loop found
search_for fuel read_cancel = pure menu_ok
search_for fuel read_fail = pure menu_fail
search_for fuel (read_ok text) =
    λ w. (on_memory (count_loop fuel text (it_begin w.storage.list) 0) >>= found fuel) w

unfoldable pub search_menu : (fuel : ℕ) → Menu
unfolding readline search_for
search_menu fuel = on_input readline >>= search_for fuel

unfoldable pub move_to_menu : (fresh : ℕ → Ptr) (fuel opt : ℕ) → Menu
unfolding add_menu select_menu search_menu
move_to_menu fresh fuel opt =
    if opt == b'A'
    then add_menu fresh fuel
    else if opt == b'M'
    then select_menu fuel
    else if opt == b'S'
    then search_menu fuel
    else if opt == b'Q'
    then pure menu_quit
    else pure menu_invalid

abbrev is_status : (wanted : MenuStatus) → MenuStatus → Bool
is_status menu_fail menu_fail = true
is_status menu_quit menu_quit = true
is_status _ _ = false

-- The loop of `main`, without the printing of the list and without the data file: what the program
-- returns, 1 or 0.
unfoldable pub main_loop : (fresh : ℕ → Ptr) (rounds fuel : ℕ) → Cmd World ℕ
unfolding readline move_to_menu delete_storage
main_loop fresh zero fuel = λ _. out_of_fuel
main_loop fresh (suc rounds) fuel = do
  status ← on_input readline
  elim status [
    | read_fail ↦ pure 1
    | read_cancel ↦ main_loop fresh rounds fuel
    | read_ok text ↦ do
      result ← move_to_menu fresh fuel (get_or text 0 0)
      if is_status menu_fail result
          then pure 1
          else if is_status menu_quit result
          then (λ w. (on_memory (delete_storage fuel w.storage) >> pure 0) w)
          else main_loop fresh rounds fuel
  ]
