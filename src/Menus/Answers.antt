-- ===== src/Menus/Answers.antt =====
-- What the user's lines become in `edit_menu` of 03/main.c.
use homework_module.Prelude.{
  ℕ, ◌≤◌, ◌≡◌, refl, ap, ◌∙◌, some, List, [], ◌∷◌, ◌++◌, length, Run, ok, fault, out_of_fuel,
  and_then, pure, arith,
}
use homework_module.CString.Token.{NoDelim, is_end}
use homework_module.LinkedList.{Ptr}
use homework_module.Phonebook.{Memory, update_contact}
use homework_module.Menus.Input.{read_ok, read_cancel, readline}
use homework_module.Menus.Input.Lines.{is_newline, readline-line, readline-empty}
use homework_module.Menus.{MenuStatus, menu_ok, World, Menu, ask_fields}
use homework_module.Menus.Screens.{edit_menu, change}

-- A line of at most 62 bytes without a newline or a zero byte; an empty one leaves the field as it is.
abbrev pub AllLines : List (List ℕ) → Type 0
AllLines [] = Unit
AllLines (line ∷ lines) =
    ((length line ≤ 62) × NoDelim is_newline line × NoDelim is_end line) × AllLines lines

abbrev pub input_of : List (List ℕ) → (rest : List ℕ) → List ℕ
input_of [] rest = rest
input_of (line ∷ lines) rest = line ++ 10 ∷ input_of lines rest

-- The keys of the lines that are not empty, and these lines.
abbrev pub given : (keys : List ℕ) (lines : List (List ℕ)) → List ℕ × List (List ℕ)
given [] lines = ([], [])
given (key ∷ keys) [] = ([], [])
given (key ∷ keys) ([] ∷ lines) = given keys lines
given (key ∷ keys) ((c ∷ cs) ∷ lines) =
    (key ∷ (given keys lines).0, (c ∷ cs) ∷ (given keys lines).1)

ask_fields-cancel :
    (key : ℕ) (keys : List ℕ) (w : World) (more : List ℕ)
    → readline w.input ≡ ok (read_cancel, more)
    → ask_fields (key ∷ keys) w ≡ ask_fields keys (record w { input = more })
unfolding ask_fields
ask_fields-cancel key keys w more e = rw e refl

ask_fields-ok :
    (key : ℕ) (keys : List ℕ) (w w' : World) (text more : List ℕ) (fields : List ℕ × List (List ℕ))
    → readline w.input ≡ ok (read_ok text, more)
    → ask_fields keys (record w { input = more }) ≡ ok (some fields, w')
    → ask_fields (key ∷ keys) w ≡ ok (some (key ∷ fields.0, text ∷ fields.1), w')
unfolding ask_fields
ask_fields-ok key keys w w' text more fields e e' = rw (e, e') refl

pub ask_fields-given :
    (keys : List ℕ) (lines : List (List ℕ)) (rest : List ℕ) (w : World)
    → length lines ≡ length keys
    → AllLines lines
    → ask_fields keys (record w { input = input_of lines rest })
      ≡ ok (some (given keys lines), record w { input = rest })
unfolding ask_fields
ask_fields-given [] [] rest w same all = refl
ask_fields-given [] (line ∷ lines) rest w same all = absurd (omega arith)
ask_fields-given (key ∷ keys) [] rest w same all = absurd (omega arith)
ask_fields-given (key ∷ keys) ([] ∷ lines) rest w same (first, all) =
    ask_fields-cancel key keys (record w { input = 10 ∷ input_of lines rest }) (input_of lines rest)
      (readline-empty (input_of lines rest))
    ∙ ask_fields-given keys lines rest w (omega arith) all
ask_fields-given (key ∷ keys) ((c ∷ cs) ∷ lines) rest w same ((short, plain, ended), all) =
    ask_fields-ok key keys (record w { input = (c ∷ cs) ++ 10 ∷ input_of lines rest })
      (record w { input = rest }) (c ∷ cs) (input_of lines rest) (given keys lines)
      (readline-line c cs (input_of lines rest) short plain ended)
      (ask_fields-given keys lines rest w (omega arith) all)

abbrev pub edit_keys : List ℕ
edit_keys = b'f' ∷ b'l' ∷ b'n' ∷ b'm' ∷ b'j' ∷ b'p' ∷ []

-- What is to be done with the lines: nothing where all are empty, else one call of `update_contact`.
abbrev pub edited : (c : Ptr) → List ℕ × List (List ℕ) → Menu
edited c ([], args) = pure menu_ok
edited c (key ∷ keys, args) = λ w.
    and_then (update_contact c (some (key ∷ keys)) args w.memory)
      (λ r. ok (menu_ok, record w { memory = r.1 }))

change-edited :
    (c : Ptr) (fields : List ℕ × List (List ℕ)) (w : World)
    → change c (some fields) w ≡ edited c fields w
unfolding change
change-edited c ([], args) w = refl
change-edited c (key ∷ keys, args) w = go (update_contact c (some (key ∷ keys)) args w.memory)
  where
    go :
        (run : Run (ℕ × Memory))
        → and_then {A = ℕ × World} {B = MenuStatus × World}
            (and_then run (λ r. ok (r.0, record w { memory = r.1 })))
            (λ r. ok (menu_ok, r.1))
          ≡ and_then {B = MenuStatus × World} run (λ r. ok (menu_ok, record w { memory = r.1 }))
    go (ok r) = refl
    go fault = refl
    go out_of_fuel = refl

-- Six lines of at most 62 bytes each, none with a newline or a zero byte: `edit_menu` calls
-- `update_contact` with the keys of the lines that are not empty and with these lines, in their
-- order, or not at all where all are empty.
pub edit_menu-edited :
    (c : Ptr) (lines : List (List ℕ)) (rest : List ℕ) (w : World)
    → length lines ≡ 6
    → AllLines lines
    → edit_menu c (record w { input = input_of lines rest })
      ≡ edited c (given edit_keys lines) (record w { input = rest })
unfolding edit_menu
edit_menu-edited c lines rest w six all =
    ap (λ run. and_then run (λ r. change c r.0 r.1))
      (ask_fields-given edit_keys lines rest w six all)
    ∙ change-edited c (given edit_keys lines) (record w { input = rest })
