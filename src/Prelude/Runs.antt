-- ===== src/Prelude/Runs.antt =====
-- Runs of C code: a result, undefined behaviour (`fault`), or a loop whose fuel ran out.
use mathlib.Core.Path.{◌≡◌}

pub data Run {ℓ} (A : Type ℓ) : Type ℓ where
  ok : A → Run A
  fault : Run A
  out_of_fuel : Run A

module _ {ℓ κ} {A : Type ℓ} {B : Type κ} where
  abbrev pub and_then : Run A → (A → Run B) → Run B
  and_then (ok a) k = k a
  and_then fault k = fault
  and_then out_of_fuel k = out_of_fuel

-- A command reads and writes a state, such as a heap.
abbrev pub Cmd {ℓ κ} : Type ℓ → Type κ → Type (ℓ ⊔ κ)
Cmd S A = S → Run (A × S)

module _ {ℓ} {S : Type ℓ} where
  abbrev pub pure {κ} : {A : Type κ} → A → Cmd S A
  pure a s = ok (a, s)

  infixl 5 ◌>>=◌ ◌>>◌
  abbrev pub ◌>>=◌ {κ ι} : {A : Type κ} {B : Type ι} → Cmd S A → (A → Cmd S B) → Cmd S B
  ◌>>=◌ m k s = and_then (m s) (λ r. k r.0 r.1)

  abbrev pub ◌>>◌ {κ ι} : {A : Type κ} {B : Type ι} → Cmd S A → Cmd S B → Cmd S B
  m >> n = m >>= λ _. n

-- A run ends without undefined behaviour and within its fuel, and its result and final state
-- satisfy `P`.
abbrev pub Ends {κ} : {S A : Type 0} → Run (A × S) → (A → S → Type κ) → Type κ
Ends {S} {A} r P = (a : A) × (s : S) × (r ≡ ok (a, s)) × P a s
