-- ===== src/Menus/Examples.antt =====
-- The theorems about 03/main.c at concrete lines.
use homework_module.Prelude.{ℕ, ◌≡◌, refl, none, some, List, [], ◌∷◌, ◌++◌, arith}
use homework_module.CString.{literal}
use homework_module.CString.Token.{has_none-NoDelim, is_end}
use homework_module.Phonebook.{zero_contact}
use homework_module.Menus.{World}
use homework_module.Menus.Input.Lines.{is_newline}
use homework_module.Menus.Screens.{edit_menu}
use homework_module.Menus.Answers.{input_of, edited, edit_menu-edited}

abbrev some_x : List ℕ
some_x = literal "xxxxxxxxxxxxxxxxxxxx"

-- 61 bytes behind the first.
abbrev long_tail : List ℕ
long_tail = some_x ++ (some_x ++ (some_x ++ literal "y"))

-- One contact, at address 1.
abbrev world : World
world = record {
  storage = record { list = none; size = 0; nextid = 1 };
  memory = record { nodes = λ p. none; contacts = λ p. some zero_contact };
  input = [];
  allocated = 0;
}

-- A new first name and a new position.
abbrev lines : List (List ℕ)
lines = literal "Ann" ∷ [] ∷ [] ∷ [] ∷ [] ∷ literal "cook" ∷ []

edit_menu-edited_example :
    edit_menu 1 (record world { input = input_of lines (literal "Q") })
    ≡ edited 1
        (b'f' ∷ b'p' ∷ [], literal "Ann" ∷ literal "cook" ∷ [])
        (record world { input = literal "Q" })
edit_menu-edited_example = edit_menu-edited 1 lines (literal "Q") world refl (
  (
    omega arith,
    has_none-NoDelim is_newline (literal "Ann") refl,
    has_none-NoDelim is_end (literal "Ann") refl,
  ),
  (
    (omega arith, tt, tt),
    (
      (omega arith, tt, tt),
      (
        (omega arith, tt, tt),
        (
          (omega arith, tt, tt),
          (
            (
              omega arith,
              has_none-NoDelim is_newline (literal "cook") refl,
              has_none-NoDelim is_end (literal "cook") refl,
            ),
            tt,
          ),
        ),
      ),
    ),
  ),
)
