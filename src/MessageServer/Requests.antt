-- ===== src/MessageServer/Requests.antt =====
-- How `listen` of 06/server.c takes the messages that a client makes of its pid and a text.
use homework_module.Prelude.{
  take-whole, ℕ, ◌≤◌, ◌<◌, ◌≡◌, refl, ap, ◌∙◌, true, false, List, ◌∷◌, ◌++◌, some, length,
  length-append, length-replicate, take, replicate, ok, arith,
}
use homework_module.Prelude.Int.{ℤ}
use homework_module.CString.{c_str}
use homework_module.CString.Copy.{c_str-strncpy}
use homework_module.CString.Number.{is_digit, print_int}
use homework_module.CString.Number.Decimal.{
  print_int-NoDelim, print_int-cons, length-print_int, IsInt, strtol-whole, digit-no_end,
}
use homework_module.CString.Token.{
  strtok, strtok-split, strtok-whole, NoDelim, NoDelim-append, is_end,
}
use homework_module.MessageServer.{
  Message, with_text, parsed_text, copied, text_max, is_colon, try_parse_message,
}
use homework_module.CString.Text.{c_str-whole}

-- A text that fits is copied whole.
c_str-copied : (s : List ℕ) → NoDelim is_end s → length s < text_max → c_str (copied s) ≡ s
c_str-copied s none_in fits =
    c_str-strncpy (replicate text_max 0) s 1023 (length-replicate {A = ℕ} text_max 0)
    ∙ (ap (take 1023) (c_str-whole s none_in) ∙ take-whole 1023 s (omega arith))

digit-no_colon : (c : ℕ) → is_digit c ≡ true → is_colon c ≡ false
digit-no_colon c t = ground arith

-- What a client sends: its pid, a colon and a text.
abbrev pub line_of : (id : ℤ) (text : List ℕ) → List ℕ
line_of id text = print_int id ++ b':' ∷ text

line_of-no_end : (id : ℤ) (text : List ℕ) → NoDelim is_end text → NoDelim is_end (line_of id text)
line_of-no_end id text none_in =
    NoDelim-append is_end (print_int id) (b':' ∷ text)
      (print_int-NoDelim is_end id digit-no_end refl) (refl, none_in)

strtok-line_of :
    (id : ℤ) (text : List ℕ) → strtok is_colon (line_of id text) ≡ some (print_int id, text)
strtok-line_of id text =
    let (c, cs, e) = print_int-cons id in
    rw e (
      strtok-split is_colon c cs b':' text
        (rw e at (print_int-NoDelim is_colon id digit-no_colon refl)) refl)

try_parse_message-token :
    (rcv : Message) (z : ℤ) (rest : List ℕ)
    → strtok is_colon (c_str (copied rcv.text)) ≡ some (print_int z, rest)
    → IsInt z
    → try_parse_message rcv ≡ ok (parsed_text z (strtok is_colon rest))
unfolding try_parse_message
try_parse_message-token rcv z rest e fits = rw (e, try_parse_message, strtol-whole z fits) refl

-- The message that a client makes of its pid, an `int`, and a text that is not empty, holds no
-- colon and no zero byte and has at most 1000 bytes is parsed as that pid and that text.
pub try_parse_message-line_of :
    (type id : ℤ) (c : ℕ) (cs : List ℕ)
    → IsInt id
    → NoDelim is_colon (c ∷ cs)
    → NoDelim is_end (c ∷ cs)
    → length (c ∷ cs) ≤ 1000
    → try_parse_message (record { type = type; text = line_of id (c ∷ cs) })
      ≡ ok (with_text id (copied (c ∷ cs)))
unfolding parsed_text
try_parse_message-line_of type id c cs fits no_colon no_end short =
    let line = line_of id (c ∷ cs) in
    try_parse_message-token (record { type = type; text = line }) id (c ∷ cs)
      (ap (strtok is_colon) (
          c_str-copied line (line_of-no_end id (c ∷ cs) no_end) (
            omega
              (arith, length-append (print_int id) (b':' ∷ c ∷ cs), length-print_int id, short)))
        ∙ strtok-line_of id (c ∷ cs))
      fits
    ∙ ap (λ q. ok (parsed_text id q)) (strtok-whole is_colon c cs no_colon)
