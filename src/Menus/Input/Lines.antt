-- ===== src/Menus/Input/Lines.antt =====
-- What `readline` of 03/main.c makes of a line of the input.
use homework_module.Prelude.{
  ℕ, zero, suc, ◌≤◌, ◌<◌, ◌≡◌, refl, ap, sym, ◌∙◌, Bool, false, List, [], ◌∷◌, ◌++◌, ◌==◌, length,
  length-append, take, ok, and_then, arith,
}
use homework_module.CString.Token.{NoDelim, NoDelim-append, is_end}
use homework_module.Menus.Input.{read_ok, read_cancel, fgets, cut_last, read_status, readline}
use homework_module.CString.Text.{c_str-whole}

abbrev pub is_newline : ℕ → Bool
is_newline c = c == 10

-- A line that fits is read with its newline.
fgets-line :
    (room : ℕ) (line rest : List ℕ)
    → length line < room
    → NoDelim is_newline line
    → fgets room (line ++ 10 ∷ rest) ≡ (line ++ 10 ∷ [], rest)
unfolding fgets
fgets-line zero line rest fits plain = absurd (omega arith)
fgets-line (suc room) [] rest fits plain = refl
fgets-line (suc room) (c ∷ line) rest fits (f, plain) =
    rw (fgets-line room line rest (omega arith) plain, f) refl

-- A line that does not fit is cut.
fgets-long :
    (line rest : List ℕ)
    → NoDelim is_newline line
    → fgets (length line) (line ++ rest) ≡ (line, rest)
unfolding fgets
fgets-long [] rest plain = refl
fgets-long (c ∷ line) rest (f, plain) = rw (fgets-long line rest plain, f) refl

take-append : (line : List ℕ) (last : ℕ) → take (length line) (line ++ last ∷ []) ≡ line
take-append [] last = refl
take-append (c ∷ line) last = ap (λ q. c ∷ q) (take-append line last)

length-snoc : (line : List ℕ) (last : ℕ) → length (line ++ last ∷ []) ≡ suc (length line)
length-snoc line last = omega (arith, length-append line (last ∷ []))

cut_last-line :
    (c : ℕ) (line : List ℕ) (last : ℕ)
    → cut_last (c ∷ (line ++ last ∷ [])) ≡ ok (read_ok (c ∷ line))
unfolding cut_last
cut_last-line c line last =
    ap (λ n. ok (read_ok (take n (c ∷ (line ++ last ∷ []))))) (length-snoc line last)
    ∙ ap (λ q. ok (read_ok (c ∷ q))) (take-append line last)

read_status-line :
    (c : ℕ) (line : List ℕ) (last : ℕ)
    → is_newline c ≡ false
    → NoDelim is_end (c ∷ (line ++ last ∷ []))
    → read_status (c ∷ (line ++ last ∷ [])) ≡ ok (read_ok (c ∷ line))
unfolding read_status
read_status-line c line last f none_in =
    rw f (ap cut_last (c_str-whole (c ∷ (line ++ last ∷ [])) none_in) ∙ cut_last-line c line last)

-- A line of 1 to 62 bytes, none of them zero, is read whole, without its newline.
pub readline-line :
    (c : ℕ) (line rest : List ℕ)
    → length (c ∷ line) ≤ 62
    → NoDelim is_newline (c ∷ line)
    → NoDelim is_end (c ∷ line)
    → readline ((c ∷ line) ++ 10 ∷ rest) ≡ ok (read_ok (c ∷ line), rest)
unfolding readline
readline-line c line rest fits (f, plain) none_in =
    ap (λ q. and_then (read_status q.0) (λ told. ok (told, q.1)))
      (fgets-line 63 (c ∷ line) rest (omega arith) (f, plain))
    ∙ ap (λ r. and_then r (λ told. ok (told, rest)))
        (read_status-line c line 10 f
          (NoDelim-append is_end (c ∷ line) (10 ∷ []) none_in (refl, tt)))

-- Where the first 63 bytes hold neither a newline nor a zero byte, the 62 before the last of them are
-- read, byte 63 is lost, and what is behind it is left to be read as the next line.
pub readline-long :
    (c : ℕ) (line : List ℕ) (last : ℕ) (rest : List ℕ)
    → length (c ∷ line) ≡ 62
    → NoDelim is_newline (c ∷ (line ++ last ∷ []))
    → NoDelim is_end (c ∷ (line ++ last ∷ []))
    → readline (c ∷ (line ++ last ∷ []) ++ rest) ≡ ok (read_ok (c ∷ line), rest)
unfolding readline
readline-long c line last rest full (f, plain) none_in =
    let room : length (c ∷ (line ++ last ∷ [])) ≡ 63 = omega (arith, length-snoc line last) in
    ap (λ q. and_then (read_status q.0) (λ told. ok (told, q.1)))
      (ap (λ n. fgets n (c ∷ (line ++ last ∷ []) ++ rest)) (sym room)
        ∙ fgets-long (c ∷ (line ++ last ∷ [])) rest (f, plain))
    ∙ ap (λ r. and_then r (λ told. ok (told, rest))) (read_status-line c line last f none_in)

pub readline-empty : (rest : List ℕ) → readline (10 ∷ rest) ≡ ok (read_cancel, rest)
unfolding readline fgets read_status
readline-empty rest = refl
