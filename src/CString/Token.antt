-- ===== src/CString/Token.antt =====
-- `strtok`: the next token of a text, and what `strtok(NULL, …)` goes on with.
use homework_module.Prelude.{
  refl, true, ◌==◌, ℕ, ◌≤◌, ◌<◌, ◌≡◌, ap, Bool, false, Option, none, some, List, [], ◌∷◌, ◌++◌,
  if◌then◌else◌, arith, length, Bool-cases, inl, inr,
}

unfoldable pub skip_delims : (ℕ → Bool) → List ℕ → List ℕ
skip_delims d [] = []
skip_delims d (c ∷ cs) = if d c then skip_delims d cs else c ∷ cs

unfoldable pub token_of : (ℕ → Bool) → List ℕ → List ℕ
token_of d [] = []
token_of d (c ∷ cs) = if d c then [] else c ∷ token_of d cs

unfoldable pub behind_token : (ℕ → Bool) → List ℕ → List ℕ
behind_token d [] = []
behind_token d (c ∷ cs) = if d c then cs else behind_token d cs

token_at : (ℕ → Bool) → List ℕ → Option (List ℕ × List ℕ)
unfolding token_of behind_token
token_at d [] = none
token_at d (c ∷ cs) = some (token_of d (c ∷ cs), behind_token d (c ∷ cs))

-- On a text without its zero byte: the token and the rest, or `none` for NULL.
unfoldable pub strtok : (ℕ → Bool) → List ℕ → Option (List ℕ × List ℕ)
unfolding skip_delims token_at
strtok d s = token_at d (skip_delims d s)

-- No byte of a token is a delimiter.
abbrev pub NoDelim : (ℕ → Bool) → List ℕ → Type 0
NoDelim d [] = Unit
NoDelim d (c ∷ cs) = (d c ≡ false) × NoDelim d cs

token_of-NoDelim : (d : ℕ → Bool) (s : List ℕ) → NoDelim d (token_of d s)
unfolding token_of
token_of-NoDelim d [] = tt
token_of-NoDelim d (c ∷ cs) = elim (Bool-cases (d c)) [
  | inl t ↦ rw t tt
  | inr f ↦ rw f (f, token_of-NoDelim d cs)
]

length-skip_delims : (d : ℕ → Bool) (s : List ℕ) → length (skip_delims d s) ≤ length s
unfolding skip_delims
length-skip_delims d [] = omega arith
length-skip_delims d (c ∷ cs) = ground (arith, length-skip_delims d cs)

length-behind_token : (d : ℕ → Bool) (s : List ℕ) → length (behind_token d s) ≤ length s
unfolding behind_token
length-behind_token d [] = omega arith
length-behind_token d (c ∷ cs) = ground (arith, length-behind_token d cs)

length-behind_token_cons :
    (d : ℕ → Bool) (c : ℕ) (cs : List ℕ) → length (behind_token d (c ∷ cs)) ≤ length cs
unfolding behind_token
length-behind_token_cons d c cs = ground (arith, length-behind_token d cs)

token_at-NoDelim :
    (d : ℕ → Bool) (u : List ℕ) {t rest : List ℕ}
    → token_at d u ≡ some (t, rest)
    → NoDelim d t × (length rest < length u)
unfolding token_at
token_at-NoDelim d [] e = absurd (ground arith)
token_at-NoDelim d (c ∷ cs) {t} {rest} e =
    let token : token_of d (c ∷ cs) ≡ t = cc e in
    let tail : behind_token d (c ∷ cs) ≡ rest = cc e in
    (
      rw token at (token_of-NoDelim d (c ∷ cs)),
      omega (arith, length-behind_token_cons d c cs, ap length tail),
    )

-- A token holds no delimiter, and what is left is shorter.
pub strtok-NoDelim :
    (d : ℕ → Bool) (s : List ℕ) {t rest : List ℕ}
    → strtok d s ≡ some (t, rest)
    → NoDelim d t × (length rest < length s)
unfolding strtok
strtok-NoDelim d s e =
    let (none_in, shorter) = token_at-NoDelim d (skip_delims d s) e in
    (none_in, omega (arith, shorter, length-skip_delims d s))

token_of-whole : (d : ℕ → Bool) (s : List ℕ) → NoDelim d s → token_of d s ≡ s
unfolding token_of
token_of-whole d [] none_in = refl
token_of-whole d (c ∷ cs) (f, none_in) = rw f (ap (λ q. c ∷ q) (token_of-whole d cs none_in))

behind_token-whole : (d : ℕ → Bool) (s : List ℕ) → NoDelim d s → behind_token d s ≡ []
unfolding behind_token
behind_token-whole d [] none_in = refl
behind_token-whole d (c ∷ cs) (f, none_in) = rw f (behind_token-whole d cs none_in)

-- A text without a delimiter is one token.
pub strtok-whole :
    (d : ℕ → Bool) (c : ℕ) (cs : List ℕ)
    → NoDelim d (c ∷ cs)
    → strtok d (c ∷ cs) ≡ some (c ∷ cs, [])
unfolding strtok token_at skip_delims
strtok-whole d c cs (f, none_in) =
    rw (f, token_of-whole d (c ∷ cs) (f, none_in), behind_token-whole d (c ∷ cs) (f, none_in)) refl

token_of-split :
    (d : ℕ → Bool) (s : List ℕ) (stop : ℕ) (rest : List ℕ)
    → NoDelim d s
    → d stop ≡ true
    → token_of d (s ++ stop ∷ rest) ≡ s
unfolding token_of
token_of-split d [] stop rest none_in t = rw t refl
token_of-split d (c ∷ cs) stop rest (f, none_in) t =
    rw f (ap (λ q. c ∷ q) (token_of-split d cs stop rest none_in t))

behind_token-split :
    (d : ℕ → Bool) (s : List ℕ) (stop : ℕ) (rest : List ℕ)
    → NoDelim d s
    → d stop ≡ true
    → behind_token d (s ++ stop ∷ rest) ≡ rest
unfolding behind_token
behind_token-split d [] stop rest none_in t = rw t refl
behind_token-split d (c ∷ cs) stop rest (f, none_in) t =
    rw f (behind_token-split d cs stop rest none_in t)

-- The token of a text that goes on behind a delimiter.
pub strtok-split :
    (d : ℕ → Bool) (c : ℕ) (cs : List ℕ) (stop : ℕ) (rest : List ℕ)
    → NoDelim d (c ∷ cs)
    → d stop ≡ true
    → strtok d (c ∷ (cs ++ stop ∷ rest)) ≡ some (c ∷ cs, rest)
unfolding strtok token_at skip_delims
strtok-split d c cs stop rest (f, none_in) t =
    rw
      (
        f,
        token_of-split d (c ∷ cs) stop rest (f, none_in) t,
        behind_token-split d (c ∷ cs) stop rest (f, none_in) t,
      )
      refl

pub NoDelim-append :
    (d : ℕ → Bool) (xs ys : List ℕ) → NoDelim d xs → NoDelim d ys → NoDelim d (xs ++ ys)
NoDelim-append d [] ys none_x none_y = none_y
NoDelim-append d (x ∷ xs) ys (f, none_x) none_y = (f, NoDelim-append d xs ys none_x none_y)

-- The byte that ends a text.
abbrev pub is_end : ℕ → Bool
is_end c = c == 0

abbrev pub has_none : (ℕ → Bool) → List ℕ → Bool
has_none d [] = true
has_none d (c ∷ cs) = if d c then false else has_none d cs

pub has_none-NoDelim : (d : ℕ → Bool) (s : List ℕ) → has_none d s ≡ true → NoDelim d s
has_none-NoDelim d [] t = tt
has_none-NoDelim d (c ∷ cs) t = elim (Bool-cases (d c)) [
  | inl e ↦ absurd (ground (arith, e))
  | inr f ↦ (f, has_none-NoDelim d cs (rw f at t))
]
