-- ===== src/CString.antt =====
-- The functions of <string.h> and <stdlib.h> that the programs call, on the bytes from an address on.
-- A list of bytes is what memory holds there; a text ends at its first zero byte.
pub mod Copy
pub mod Compare
pub mod Number
pub mod Token
pub mod Text
use Prim.Native.Char.{code}
use Prim.Native.String.{String}
use homework_module.Prelude.{ℕ, zero, suc, Bool, true, false, List, [], ◌∷◌, ◌==◌, if◌then◌else◌}
use homework_module.Prelude.Int.{ℤ, pos, sub_ℕ}

-- The text that begins a piece of memory.
unfoldable pub c_str : List ℕ → List ℕ
c_str [] = []
c_str (c ∷ cs) = if c == 0 then [] else c ∷ c_str cs

-- `strncpy(dest, src, n)`: the text, then zeros, `n` bytes in all.
unfoldable pub strncpy : List ℕ → List ℕ → ℕ → List ℕ
strncpy dest src zero = dest
strncpy [] src (suc n) = []
strncpy (d ∷ dest) [] (suc n) = 0 ∷ strncpy dest [] n
strncpy (d ∷ dest) (c ∷ src) (suc n) = c ∷ strncpy dest (if c == 0 then [] else src) n

-- `strcmp` of two texts: the difference of the first bytes that differ.
unfoldable pub strcmp : List ℕ → List ℕ → ℤ
strcmp [] [] = pos 0
strcmp [] (b ∷ bs) = sub_ℕ 0 b
strcmp (a ∷ cs) [] = sub_ℕ a 0
strcmp (a ∷ cs) (b ∷ ds) = if a == b then if a == 0 then pos 0 else strcmp cs ds else sub_ℕ a b

-- The bytes of an ASCII text literal, without the zero byte.
abbrev pub literal : String → List ℕ
literal String.[] = []
literal (String.◌∷◌ c s) = code c ∷ literal s
