-- ===== src/Menus/Adds.antt =====
-- What `add_menu` of 03/main.c does to the storage.
use homework_module.Prelude.{
  ℕ, suc, ◌+◌, ◌%◌, ◌^◌, ◌≤◌, ◌<◌, ◌≡◌, ◌≢◌, refl, ap, ◌∙◌, false, Option, none, some, List, [],
  ◌∷◌, ◌++◌, ◌==◌, length, ok, Ends, arith,
}
use homework_module.CString.{c_str}
use homework_module.LinkedList.{Ptr, null}
use homework_module.LinkedList.Segment.{Cells}
use homework_module.LinkedList.Insert.{insert_sorted}
use homework_module.LinkedList.Remove.{holds}
use homework_module.Phonebook.{
  Contact, ContactStorage, Memory, lastname_cmp, zero_contact, add_contact, create_contact,
  update_values,
}
use homework_module.Phonebook.Book.{IsBook, with_contact}
use homework_module.Phonebook.Elsewhere.{IsBook-elsewhere}
use homework_module.Phonebook.Add.{add_contact-IsBook}
use homework_module.Phonebook.Fields.{is_key}
use homework_module.Phonebook.Create.{
  IsUpdate, AllKeys, keys_of, zero_contact-IsContact, update_values-IsUpdate, filled-update_values,
  create_contact-run,
}
use homework_module.Menus.{World, menu_ok, ask_fields}
use homework_module.Menus.Input.{read_ok, readline, readline_required}
use homework_module.Menus.Input.Lines.{readline-line}
use homework_module.Menus.Answers.{AllLines, input_of, given, ask_fields-given}
use homework_module.Menus.Screens.{
  store_new, format_of, make_contact, with_lastname, with_name, add_menu,
}

abbrev pub add_keys : List ℕ
add_keys = b'n' ∷ b'm' ∷ b'j' ∷ b'p' ∷ []

readline_required-ok :
    (fuel : ℕ) (input text more : List ℕ)
    → readline input ≡ ok (read_ok text, more)
    → readline_required (suc fuel) input ≡ ok (read_ok text, more)
unfolding readline_required
readline_required-ok fuel input text more e = rw e refl

c_str-AllKeys : (keys : List ℕ) → AllKeys keys → c_str keys ≡ keys
unfolding c_str is_key
c_str-AllKeys [] known = refl
c_str-AllKeys (key ∷ keys) (is, known) =
    let plain : (key == 0) ≡ false = ground arith in
    rw plain (ap (λ q. key ∷ q) (c_str-AllKeys keys known))

given-AllKeys :
    (keys : List ℕ) (lines : List (List ℕ))
    → AllKeys keys
    → AllKeys (given keys lines).0 × (length (given keys lines).0 ≡ length (given keys lines).1)
given-AllKeys [] lines known = (tt, refl)
given-AllKeys (key ∷ keys) [] known = (tt, refl)
given-AllKeys (key ∷ keys) ([] ∷ lines) (is, known) = given-AllKeys keys lines known
given-AllKeys (key ∷ keys) ((c ∷ cs) ∷ lines) (is, known) =
    let (all, same) = given-AllKeys keys lines known in ((is, all), ap suc same)

add_keys-AllKeys : AllKeys add_keys
unfolding is_key
add_keys-AllKeys = (refl, (refl, (refl, (refl, tt))))

module _ (fresh : ℕ → Ptr) where
  keys_of-format_of : (keys : List ℕ) → AllKeys keys → keys_of (format_of fresh keys) ≡ keys
  unfolding format_of
  keys_of-format_of [] known = refl
  keys_of-format_of (key ∷ keys) known = c_str-AllKeys (key ∷ keys) known

  add_menu-named :
      (fuel : ℕ) (name more : List ℕ) (w : World)
      → readline_required fuel w.input ≡ ok (read_ok name, more)
      → add_menu fresh fuel w ≡ with_name fresh fuel (read_ok name) (record w { input = more })
  unfolding add_menu
  add_menu-named fuel name more w e = rw e refl

  with_name-named :
      (fuel : ℕ) (name lastname more : List ℕ) (w : World)
      → readline_required fuel w.input ≡ ok (read_ok lastname, more)
      → with_name fresh fuel (read_ok name) w
        ≡ with_lastname fresh fuel name (read_ok lastname) (record w { input = more })
  unfolding with_name
  with_name-named fuel name lastname more w e = rw e refl

  with_lastname-given :
      (fuel : ℕ) (name lastname : List ℕ) (w w' : World) (fields : Option (List ℕ × List (List ℕ)))
      → ask_fields add_keys w ≡ ok (fields, w')
      → with_lastname fresh fuel name (read_ok lastname) w
        ≡ make_contact fresh fuel name lastname fields w'
  unfolding with_lastname
  with_lastname-given fuel name lastname w w' fields e = rw e refl

  make_contact-ok :
      (fuel : ℕ) (name lastname keys : List ℕ) (args : List (List ℕ)) (w : World) (p : Ptr)
      (s s' : Memory) (storage : ContactStorage)
      → create_contact
          (fresh w.allocated)
          (some name)
          (some lastname)
          (format_of fresh keys)
          args
          w.memory
        ≡ ok (p, s)
      → add_contact fuel (fresh (suc w.allocated)) (some w.storage) p s ≡ ok (some storage, s')
      → make_contact fresh fuel name lastname (some (keys, args)) w
        ≡ ok (menu_ok, record w { storage = storage; memory = s'; allocated = w.allocated + 2 })
  unfolding make_contact store_new
  make_contact-ok fuel name lastname keys args w p s s' storage e f = rw (e, f) refl

  -- The contact that `create_contact` makes of two names and the lines of `add_menu`.
  create_contact-given :
      (p : Ptr) (name lastname : List ℕ) (lines : List (List ℕ)) (s : Memory)
      → p ≢ null
      → let (keys, args) = given add_keys lines in
        (k : Contact) × (create_contact p (some name) (some lastname) (format_of fresh keys) args s
          ≡ ok (p, record s { contacts = with_contact s.contacts p k }))
        × IsUpdate zero_contact k (b'f' ∷ b'l' ∷ keys) (name ∷ lastname ∷ args)
  unfolding is_key
  create_contact-given p name lastname lines s ne =
      let (keys, args) = given add_keys lines in
      let (known, same) = given-AllKeys add_keys lines add_keys-AllKeys in
      let shown = keys_of-format_of keys known in
      let (k, run, upd) =
        update_values-IsUpdate zero_contact (b'f' ∷ b'l' ∷ keys) (name ∷ lastname ∷ args)
          zero_contact-IsContact (refl, (refl, known)) (omega (arith, same)) in
      (
        k,
        create_contact-run p name lastname (format_of fresh keys) args s ne (
            filled-update_values name lastname (format_of fresh keys) args
            ∙ ap (λ q. update_values zero_contact (b'f' ∷ b'l' ∷ q) (name ∷ lastname ∷ args)) shown
            ∙ run),
        upd,
      )

  -- A line with a name, one with a last name, each of 1 to 62 bytes without a zero, and four lines of at most
  -- 62, on a storage with the invariant, with two addresses that the allocator may return: `add_menu`
  -- ends in MENU_OK behind the lines. A contact is made whose texts are the two names and the
  -- lines that are not empty, by their keys; it has the next id, stands in the storage at its place by
  -- last name, and the storage keeps the invariant.
  pub add_menu-IsBook :
      (fuel n l : ℕ) (ns ls : List ℕ) (lines : List (List ℕ)) (rest : List ℕ) (w : World)
      (xs : Cells)
      → AllLines ((n ∷ ns) ∷ (l ∷ ls) ∷ lines)
      → length lines ≡ 4
      → IsBook w.memory w.storage xs
      → length xs ≤ suc fuel
      → length xs + 1 < 2 ^ 64
      → fresh w.allocated ≢ null
      → holds (fresh w.allocated) xs ≡ false
      → fresh (suc w.allocated) ≢ null
      → w.memory.nodes (fresh (suc w.allocated)) ≡ none
      → Ends
          (add_menu fresh
            (suc fuel)
            (record w { input = input_of ((n ∷ ns) ∷ (l ∷ ls) ∷ lines) rest }))
          (λ status w'.
            let p = fresh w.allocated in
            (status ≡ menu_ok)
            × (w'.input ≡ rest)
            × ((k : Contact) × IsUpdate zero_contact k
                  (b'f' ∷ b'l' ∷ (given add_keys lines).0)
                  ((n ∷ ns) ∷ (l ∷ ls) ∷ (given add_keys lines).1)
                × (w'.memory.contacts p ≡ some (record k { id = w.storage.nextid % 2 ^ 32 }))
                × IsBook w'.memory w'.storage (
                    insert_sorted
                      (lastname_cmp (with_contact w.memory.contacts p k))
                      (fresh (suc w.allocated))
                      p
                      xs)))
  add_menu-IsBook fuel n l ns ls lines rest w xs
        ((short_n, plain_n, ended_n), ((short_l, plain_l, ended_l), all)) four book enough small ne
        away ne_node free =
      let p = fresh w.allocated in
      let (keys, args) = given add_keys lines in
      let last_input = input_of lines rest in
      let w_n = record w { input = (l ∷ ls) ++ 10 ∷ last_input } in
      let w_l = record w { input = last_input } in
      let w_r = record w { input = rest } in
      let (k, made, upd) = create_contact-given p (n ∷ ns) (l ∷ ls) lines w.memory ne in
      let contacts' = with_contact w.memory.contacts p k in
      let s = record w.memory { contacts = contacts' } in
      let here : contacts' p ≡ some k = ground arith in
      let book' =
        IsBook-elsewhere w.memory w.storage contacts' p xs (λ q other. rw other refl) away book in
      let (r, s', run, (storage, is_some, book_s, told, id)) =
        add_contact-IsBook (suc fuel) (fresh (suc w.allocated)) w.storage p s k xs ne_node free here
          away book' enough small in
      (
        menu_ok,
        record w_r { storage = storage; memory = s'; allocated = w.allocated + 2 },
        add_menu-named (suc fuel) (n ∷ ns) ((l ∷ ls) ++ 10 ∷ last_input)
              (record w { input = (n ∷ ns) ++ 10 ∷ ((l ∷ ls) ++ 10 ∷ last_input) })
              (readline_required-ok fuel _ (n ∷ ns) ((l ∷ ls) ++ 10 ∷ last_input)
                (readline-line n ns ((l ∷ ls) ++ 10 ∷ last_input) short_n plain_n ended_n))
            ∙ with_name-named (suc fuel) (n ∷ ns) (l ∷ ls) last_input w_n (
                readline_required-ok fuel _ (l ∷ ls) last_input
                  (readline-line l ls last_input short_l plain_l ended_l))
            ∙ with_lastname-given (suc fuel) (n ∷ ns) (l ∷ ls) w_l w_r (some (keys, args))
                (ask_fields-given add_keys lines rest w four all)
            ∙ make_contact-ok (suc fuel) (n ∷ ns) (l ∷ ls) keys args w_r p s s' storage made
                (run ∙ ap (λ q. ok (q, s')) is_some),
        (refl, refl, (k, upd, told, book_s)),
      )
