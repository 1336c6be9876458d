-- ===== src/PacketFilter/Dump.antt =====
-- What 14/main.c shows of a packet.
use native.Mathlib.Decide.{dec_lt}
use homework_module.Prelude.{
  joined, ℕ, zero, suc, ◌+◌, ◌-◌, ◌*◌, ◌≤◌, ◌<◌, min, ◌≡◌, refl, sym, ap, ◌∙◌, Bool, true, false,
  ◌&&◌, Option, none, some, List, [], ◌∷◌, ◌++◌, ltb, if◌then◌else◌, length, length-take,
  length-drop, take, drop, get_elem?, get_elem?-some, Run, ok, fault, out_of_fuel, and_then, arith,
}
use homework_module.PacketFilter.{row_loop, rows_loop, data_loop}

drop-get_elem? :
    (at : ℕ) (buffer : List ℕ) (c : ℕ)
    → get_elem? buffer at ≡ some c
    → drop at buffer ≡ c ∷ drop (suc at) buffer
drop-get_elem? at [] c e = cc e
drop-get_elem? zero (x ∷ buffer) c e = ground arith
drop-get_elem? (suc at) (x ∷ buffer) c e = drop-get_elem? at buffer c e

row_loop-more :
    (count at : ℕ) (buffer : List ℕ) (c : ℕ) (cs : List ℕ)
    → get_elem? buffer at ≡ some c
    → row_loop count (suc at) buffer ≡ ok cs
    → row_loop (suc count) at buffer ≡ ok (c ∷ cs)
unfolding row_loop
row_loop-more count at buffer c cs e rest =
    go (get_elem? buffer at) (row_loop count (suc at) buffer) e rest
  where
    go :
        (found : Option ℕ) (next : Run (List ℕ))
        → found ≡ some c
        → next ≡ ok cs
        → (elim found as (λ _. Run (List ℕ)) [
          | none ↦ fault
          | some d ↦ and_then next (λ ds. ok (d ∷ ds))
        ])
          ≡ ok (c ∷ cs)
    go none next p q = cc p
    go (some d) (ok ds) p q = cc (p, q)
    go (some d) fault p q = cc q
    go (some d) out_of_fuel p q = cc q

row_loop-drop :
    (count at : ℕ) (buffer : List ℕ)
    → at + count ≤ length buffer
    → row_loop count at buffer ≡ ok (take count (drop at buffer))
row_loop-drop zero at buffer fits = unfold row_loop in refl
row_loop-drop (suc count) at buffer fits =
    let (c, e) = get_elem?-some buffer at (omega arith) in
    row_loop-more count at buffer c (take count (drop (suc at) buffer)) e
      (row_loop-drop count (suc at) buffer (omega arith))
    ∙ ap (λ q. ok (take (suc count) q)) (sym (drop-get_elem? at buffer c e))

abbrev pub AreRows : List (List ℕ) → Type 0
AreRows [] = Unit
AreRows (row ∷ rows) = (length row ≡ 16) × AreRows rows

drop-nil : (n : ℕ) → drop {A = ℕ} n [] ≡ []
drop-nil zero = refl
drop-nil (suc n) = refl

take-nil : (n : ℕ) → take {A = ℕ} n [] ≡ []
take-nil zero = refl
take-nil (suc n) = refl

drop-drop : (n m : ℕ) (xs : List ℕ) → drop m (drop n xs) ≡ drop (n + m) xs
drop-drop zero m xs = ap (λ k. drop k xs) (omega arith)
drop-drop (suc n) m [] = drop-nil m ∙ sym (drop-nil (suc n + m))
drop-drop (suc n) m (x ∷ xs) =
    let same : suc (n + m) ≡ suc n + m = omega arith in
    drop-drop n m xs ∙ ap (λ k. drop k (x ∷ xs)) same

take_add : (n m : ℕ) (xs : List ℕ) → take n xs ++ take m (drop n xs) ≡ take (n + m) xs
take_add zero m xs = ap (λ k. take k xs) (omega arith)
take_add (suc n) m [] = take-nil m ∙ sym (take-nil (suc n + m))
take_add (suc n) m (x ∷ xs) =
    let same : suc (n + m) ≡ suc n + m = omega arith in
    ap (λ q. x ∷ q) (take_add n m xs) ∙ ap (λ k. take k (x ∷ xs)) same

pub rows_loop-drop :
    (count i : ℕ) (buffer : List ℕ)
    → (i + count) * 16 ≤ length buffer
    → (rows : List (List ℕ)) × (rows_loop count i buffer ≡ ok rows)
      × AreRows rows
      × (joined rows ≡ take (count * 16) (drop (i * 16) buffer))
unfolding rows_loop
rows_loop-drop zero i buffer fits = ([], refl, tt, refl)
rows_loop-drop (suc count) i buffer fits =
    let (rows, e, are, join) = rows_loop-drop count (suc i) buffer (omega arith) in
    let row = take 16 (drop (i * 16) buffer) in
    (
      row ∷ rows,
      rw (row_loop-drop 16 (i * 16) buffer (omega arith), e) refl,
      (omega (arith, length-take 16 (drop (i * 16) buffer), length-drop (i * 16) buffer), are),
      ap (λ q. row ++ q) join
          ∙ ap (λ q. row ++ take (count * 16) q)
              (ap (λ k. drop k buffer) (omega arith) ∙ sym (drop-drop (i * 16) 16 buffer))
          ∙ take_add 16 (count * 16) (drop (i * 16) buffer)
          ∙ ap (λ k. take k (drop (i * 16) buffer)) (omega arith),
    )

data_loop-last :
    (fuel at size bytes_read : ℕ) (buffer : List ℕ)
    → (ltb at size && ltb at bytes_read) ≡ false
    → data_loop (suc fuel) at size bytes_read buffer ≡ ok []
unfolding data_loop
data_loop-last fuel at size bytes_read buffer e = rw e refl

data_loop-more :
    (fuel at size bytes_read : ℕ) (buffer : List ℕ) (c : ℕ) (cs : List ℕ)
    → (ltb at size && ltb at bytes_read) ≡ true
    → get_elem? buffer at ≡ some c
    → data_loop fuel (suc at) size bytes_read buffer ≡ ok cs
    → data_loop (suc fuel) at size bytes_read buffer ≡ ok (c ∷ cs)
unfolding data_loop
data_loop-more fuel at size bytes_read buffer c cs goes e rest =
    go (ltb at size && ltb at bytes_read) (get_elem? buffer at)
      (data_loop fuel (suc at) size bytes_read buffer) goes e rest
  where
    go :
        (goes_on : Bool) (found : Option ℕ) (next : Run (List ℕ))
        → goes_on ≡ true
        → found ≡ some c
        → next ≡ ok cs
        → (if goes_on
            then (elim found as (λ _. Run (List ℕ)) [
              | none ↦ fault
              | some d ↦ and_then next (λ ds. ok (d ∷ ds))
            ])
            else ok [])
          ≡ ok (c ∷ cs)
    go false found next g p q = cc g
    go true none next g p q = cc p
    go true (some d) (ok ds) g p q = cc (p, q)
    go true (some d) fault g p q = cc q
    go true (some d) out_of_fuel g p q = cc q

-- The data are the bytes from `at` to the end that comes first.
pub data_loop-drop :
    (fuel at size bytes_read : ℕ) (buffer : List ℕ)
    → bytes_read < fuel + at
    → bytes_read ≤ length buffer
    → data_loop (suc fuel) at size bytes_read buffer
      ≡ ok (take (min size bytes_read - at) (drop at buffer))
data_loop-drop zero at size bytes_read buffer enough fits =
    let none_left : 0 ≡ min size bytes_read - at = omega arith in
    data_loop-last 0 at size bytes_read buffer (ground arith)
    ∙ ap (λ k. ok (take k (drop at buffer))) none_left
data_loop-drop (suc fuel) at size bytes_read buffer enough fits =
    elim (dec_lt at (min size bytes_read)) [
      | yes below ↦
          (let (c, e) = get_elem?-some buffer at (omega arith) in
            let left = min size bytes_read - suc at in
            let one_more : suc left ≡ min size bytes_read - at = omega (arith, below) in
            data_loop-more (suc fuel) at size bytes_read buffer c (take left (drop (suc at) buffer))
              (goes below) e
              (data_loop-drop fuel (suc at) size bytes_read buffer (omega arith) fits)
            ∙ ap (λ q. ok (take (suc left) q)) (sym (drop-get_elem? at buffer c e))
            ∙ ap (λ k. ok (take k (drop at buffer))) one_more)
      | no above ↦
          (let none_left : 0 ≡ min size bytes_read - at = omega (arith, above) in
            data_loop-last (suc fuel) at size bytes_read buffer (ends above)
            ∙ ap (λ k. ok (take k (drop at buffer))) none_left)
    ]
  where
    goes : at < min size bytes_read → (ltb at size && ltb at bytes_read) ≡ true
    goes below = ground arith

    ends : (at < min size bytes_read → ⊥) → (ltb at size && ltb at bytes_read) ≡ false
    ends above = ground arith
