-- ===== src/EpollServer/Storage.antt =====
-- The name under which 15/server.c stores a file: the last component of the path that the client sends.
use homework_module.Prelude.{
  ℕ, zero, suc, ◌<◌, ◌≡◌, refl, List, [], Option, none, some, ok, length, arith, Option-cases, inl,
  inr,
}
use homework_module.CString.Token.{strtok, NoDelim, strtok-NoDelim}
use homework_module.EpollServer.{name_loop, last_name, is_slash}

-- A name without a slash; NULL is none.
abbrev pub IsPlain : Option (List ℕ) → Type 0
IsPlain none = Unit
IsPlain (some name) = NoDelim is_slash name

-- The loop ends within a fuel above the length of what is left.
name_loop-IsPlain :
    (fuel : ℕ) (next : Option (List ℕ)) (rest : List ℕ)
    → length rest < fuel
    → IsPlain next
    → (name : Option (List ℕ)) × (name_loop fuel next rest ≡ ok name) × IsPlain name
unfolding name_loop
name_loop-IsPlain zero next rest enough plain = absurd (omega arith)
name_loop-IsPlain (suc fuel) next rest enough plain = elim (Option-cases (strtok is_slash rest)) [
  | inl e ↦ rw (e, name_loop) (next, refl, plain)
  | inr ((token, rest'), e) ↦
      let (none_in, shorter) = strtok-NoDelim is_slash rest e in
      rw (e, name_loop) (name_loop-IsPlain fuel (some token) rest' (omega arith) none_in)
]

-- The search for the last component of a path ends, with the fuel that it is given, in NULL or in
-- a name without a slash.
pub last_name-IsPlain :
    (name_token : List ℕ)
    → (name : Option (List ℕ)) × (last_name name_token ≡ ok name) × IsPlain name
unfolding last_name
last_name-IsPlain name_token = elim (Option-cases (strtok is_slash name_token)) [
  | inl e ↦ rw (e, last_name) (name_loop-IsPlain 1 none [] (omega arith) tt)
  | inr ((token, rest), e) ↦
      let (none_in, shorter) = strtok-NoDelim is_slash name_token e in
      rw (e, last_name)
        (name_loop-IsPlain (suc (length rest)) (some token) rest (omega arith) none_in)
]
