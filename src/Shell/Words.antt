-- ===== src/Shell/Words.antt =====
-- The words of one command of 04/main.c, printed with blanks between them and parsed again.
use mathlib.Core.List.{append-nil}
use homework_module.Prelude.{
  ℕ, zero, suc, ◌+◌, ◌≤◌, ◌<◌, ◌≡◌, refl, sym, ap, ◌∙◌, true, false, Option, none, some, List, [],
  ◌∷◌, ◌++◌, ltb, if◌then◌else◌, length, length-append, Run, ok, arith, lt→ltb,
}
use homework_module.CString.{literal, strcmp}
use homework_module.CString.Token.{NoDelim, strtok, strtok-whole, strtok-split}
use homework_module.Shell.{
  Parsed, Stale, nothing_parsed, is_space_delim, max_argv_size, filename_max, same, parse_token,
  parse_loop, parse_command, strcpy_name, lacks_command,
}

-- An argument, or a redirection with its file.
pub data Word : Type 0 where
  arg : List ℕ → Word
  from to onto : (name : List ℕ) → Word

abbrev pub IsToken : List ℕ → Type 0
IsToken [] = ⊥
IsToken (c ∷ cs) = NoDelim is_space_delim (c ∷ cs)

-- Texts without blanks; no argument is a redirection sign, and the names fit their arrays.
abbrev pub IsWord : Word → Type 0
IsWord (arg text) =
    IsToken text
    × (same text (literal "<") ≡ false)
    × (same text (literal ">") ≡ false)
    × (same text (literal ">>") ≡ false)
IsWord (from name) = IsToken name × (length name < filename_max)
IsWord (to name) = IsToken name × (length name < filename_max)
IsWord (onto name) = IsToken name × (length name < filename_max)

abbrev pub AllWords : List Word → Type 0
AllWords [] = Unit
AllWords (word ∷ words) = IsWord word × AllWords words

abbrev pub spelled : Word → List ℕ
spelled (arg text) = text
spelled (from name) = b'<' ∷ 32 ∷ name
spelled (to name) = b'>' ∷ 32 ∷ name
spelled (onto name) = b'>' ∷ b'>' ∷ 32 ∷ name

-- The command with a blank between its words.
abbrev pub line : Word → List Word → List ℕ
line word [] = spelled word
line word (next ∷ words) = spelled word ++ 32 ∷ line next words

-- What a word means.
abbrev pub apply : Word → Parsed → Parsed
apply (arg text) p = record p { argv = p.argv ++ text ∷ [] }
apply (from name) p = record p { input_filename = name }
apply (to name) p = record p { output_filename = name; append = false }
apply (onto name) p = record p { output_filename = name; append = true }

abbrev pub apply_all : List Word → Parsed → Parsed
apply_all [] p = p
apply_all (word ∷ words) p = apply_all words (apply word p)

-- The text behind a token, and where `strtok` goes on in it.
abbrev tail_of : Option (List ℕ) → List ℕ
tail_of none = []
tail_of (some rest) = 32 ∷ rest

abbrev behind : Option (List ℕ) → List ℕ
behind none = []
behind (some rest) = rest

strtok-tail :
    (c : ℕ) (cs : List ℕ) (o : Option (List ℕ))
    → NoDelim is_space_delim (c ∷ cs)
    → strtok is_space_delim (c ∷ (cs ++ tail_of o)) ≡ some (c ∷ cs, behind o)
strtok-tail c cs none none_in = rw (append-nil cs) (strtok-whole is_space_delim c cs none_in)
strtok-tail c cs (some rest) none_in = strtok-split is_space_delim c cs 32 rest none_in refl

strcpy_name-tail :
    (name : List ℕ) (o : Option (List ℕ))
    → IsToken name
    → length name < filename_max
    → strcpy_name (strtok is_space_delim (name ++ tail_of o)) ≡ ok (name, behind o)
unfolding strcpy_name
strcpy_name-tail [] o token fits = elim token [ ]
strcpy_name-tail (c ∷ cs) o token fits =
    rw (strtok-tail c cs o token) (rw (lt→ltb (length (c ∷ cs)) filename_max fits) refl)

-- One word, up to the blank behind it, is one round of the loop.
word_round :
    (word : Word) (o : Option (List ℕ)) (p : Parsed)
    → IsWord word
    → (token : List ℕ) × (rest : List ℕ) × (strtok is_space_delim (spelled word ++ tail_of o)
        ≡ some (token, rest))
      × (parse_token token rest p ≡ ok (apply word p, behind o))
unfolding parse_token
word_round (arg []) o p (token, no_in, no_out, no_app) = elim token [ ]
word_round (arg (c ∷ cs)) o p (token, no_in, no_out, no_app) =
    (c ∷ cs, behind o, strtok-tail c cs o token, rw (no_in, no_out, no_app) refl)
word_round (from name) o p (token, fits) = (
  b'<' ∷ [],
  name ++ tail_of o,
  strtok-split is_space_delim b'<' [] 32 (name ++ tail_of o) (refl, tt) refl,
  unfold strcmp in rw (strcpy_name-tail name o token fits) refl,
)
word_round (to name) o p (token, fits) = (
  b'>' ∷ [],
  name ++ tail_of o,
  strtok-split is_space_delim b'>' [] 32 (name ++ tail_of o) (refl, tt) refl,
  unfold strcmp in rw (strcpy_name-tail name o token fits) refl,
)
word_round (onto name) o p (token, fits) = (
  b'>' ∷ b'>' ∷ [],
  name ++ tail_of o,
  strtok-split is_space_delim b'>' (b'>' ∷ []) 32 (name ++ tail_of o) (refl, (refl, tt)) refl,
  unfold strcmp in rw (strcpy_name-tail name o token fits) refl,
)

parse_loop-more :
    (fuel : ℕ) (token rest rest' : List ℕ) (p q : Parsed) (next : List ℕ × List ℕ)
    → parse_token token rest p ≡ ok (q, rest')
    → strtok is_space_delim rest' ≡ some next
    → length q.argv < max_argv_size
    → parse_loop (suc fuel) (some (token, rest)) p ≡ parse_loop fuel (strtok is_space_delim rest') q
unfolding parse_loop
parse_loop-more fuel token rest rest' p q next e more room =
    rw e (go (strtok is_space_delim rest') (lt→ltb (length q.argv) max_argv_size room) more)
  where
    go :
        (found : Option (List ℕ × List ℕ))
        → ltb (length q.argv) max_argv_size ≡ true
        → found ≡ some next
        → (elim found as (λ _. Run Parsed) [
          | none ↦ ok q
          | some _ ↦ if ltb (length q.argv) max_argv_size then parse_loop fuel found q else ok q
        ])
          ≡ parse_loop fuel found q
    go none yes' e = absurd (cc e)
    go (some x) yes' e = rw yes' refl

parse_loop-last :
    (fuel : ℕ) (token rest : List ℕ) (p q : Parsed)
    → parse_token token rest p ≡ ok (q, [])
    → parse_loop (suc fuel) (some (token, rest)) p ≡ ok q
unfolding parse_loop strtok
parse_loop-last fuel token rest p q e = rw e refl

length-apply : (word : Word) (p : Parsed) → length (apply word p).argv ≤ suc (length p.argv)
length-apply (arg text) p = omega (arith, length-append {0} p.argv (text ∷ []))
length-apply (from name) p = omega arith
length-apply (to name) p = omega arith
length-apply (onto name) p = omega arith

line-tail :
    (word : Word) (words : List Word)
    → (o : Option (List ℕ)) × (line word words ≡ spelled word ++ tail_of o)
line-tail word [] = (none, sym (append-nil (spelled word)))
line-tail word (next ∷ words) = (some (line next words), refl)

parse_loop-line :
    (fuel : ℕ) (word : Word) (words : List Word) (p : Parsed)
    → AllWords (word ∷ words)
    → length words < fuel
    → length p.argv + length words < max_argv_size
    → parse_loop fuel (strtok is_space_delim (line word words)) p ≡ ok (apply_all (word ∷ words) p)
parse_loop-line zero word words p all m few = absurd (omega arith)
parse_loop-line (suc fuel) word [] p (is, all) m few =
    let (token, rest, first, done) = word_round word none p is in
    let whole : line word [] ≡ spelled word ++ [] = sym (append-nil (spelled word)) in
    rw (whole, first) (parse_loop-last fuel token rest p (apply word p) done)
parse_loop-line (suc fuel) word (next ∷ words) p (is, all) m few =
    let (token, rest, first, done) = word_round word (some (line next words)) p is in
    let (o, e) = line-tail next words in
    let (token', rest', second, _) = word_round next o (apply word p) all.0 in
    rw
      (
        first,
        parse_loop-more fuel token rest (line next words) p (apply word p) (token', rest') done
            (ap (strtok is_space_delim) e ∙ second) (omega (arith, length-apply word p)),
      )
      (parse_loop-line fuel next words (apply word p) all (omega arith)
        (omega (arith, length-apply word p)))

length-spelled : (word : Word) → IsWord word → 0 < length (spelled word)
length-spelled (arg []) is = absurd is.0
length-spelled (arg (c ∷ cs)) is = omega arith
length-spelled (from name) is = omega arith
length-spelled (to name) is = omega arith
length-spelled (onto name) is = omega arith

length-line :
    (word : Word) (words : List Word)
    → AllWords (word ∷ words)
    → length words < length (line word words)
length-line word [] (is, all) = omega (arith, length-spelled word is)
length-line word (next ∷ words) (is, all) =
    omega
      (arith, length-append {0} (spelled word) (32 ∷ line next words), length-line next words all)

-- A command printed from its words with blanks between them, at most 8192 and with an argument among
-- them, is parsed, within the fuel, as what the words say: its arguments in their order, the file
-- of the last `<`, and the file and the mode of the last `>` or `>>`. The texts hold no blank,
-- no argument is a redirection sign, and the names are shorter than 4096 bytes.
pub parse_command-line :
    (stale : Stale) (word : Word) (words : List Word) (command : List ℕ) (args : List (List ℕ))
    → AllWords (word ∷ words)
    → length (word ∷ words) ≤ max_argv_size
    → (apply_all (word ∷ words) nothing_parsed).argv ≡ command ∷ args
    → parse_command stale (line word words) ≡ ok (some (apply_all (word ∷ words) nothing_parsed))
unfolding parse_command
parse_command-line stale word words command args all few given =
    rw
      (parse_loop-line (suc (length (line word words))) word words nothing_parsed all
        (omega (arith, length-line word words all)) (omega arith))
      (ap (λ lacks. ok (if lacks then none else some (apply_all (word ∷ words) nothing_parsed)))
        (ap (lacks_command stale) given ∙ unfold lacks_command in refl))
