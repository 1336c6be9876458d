-- ===== src/LinkedList/Order.antt =====
-- The order that `list_insert` of 03/linked_list.c keeps, and that it loses no element.
use mathlib.Core.List.{Perm}
use mathlib.Core.List.Perm
use homework_module.Prelude.{
  ℕ, ◌≤◌, ◌≡◌, ◌≢◌, true, false, none, some, [], ◌∷◌, arith, Ends, length, Bool-cases, inl, inr,
}
use homework_module.Prelude.Int.{is_negative}
use homework_module.LinkedList.{Ptr, null, Heap, CmpFunc, LinkedList, list_insert}
use homework_module.LinkedList.Segment.{Cells}
use homework_module.LinkedList.Insert.{IsList, insert_sorted, list_insert-IsList}

-- What a comparison function has to be: `cmp a b < 0` is a strict order.
pub record IsOrder (cmp : CmpFunc) : Type 0 where
  pub irrefl : (a : Ptr) → is_negative (cmp a a) ≡ false
  pub trans :
      (a b c : Ptr)
      → is_negative (cmp a b) ≡ true
      → is_negative (cmp b c) ≡ true
      → is_negative (cmp a c) ≡ true

-- No later element is less than the value.
abbrev pub NoneLess : CmpFunc → Ptr → Cells → Type 0
NoneLess cmp v [] = Unit
NoneLess cmp v ((q, u) ∷ xs) = (is_negative (cmp u v) ≡ false) × NoneLess cmp v xs

-- No element stands in front of a lesser one.
abbrev pub IsSorted : CmpFunc → Cells → Type 0
IsSorted cmp [] = Unit
IsSorted cmp ((p, v) ∷ xs) = NoneLess cmp v xs × IsSorted cmp xs

module _ (cmp : CmpFunc) (order : IsOrder cmp) where
  not_less_both : (v w : Ptr) → is_negative (cmp w v) ≡ true → is_negative (cmp v w) ≡ false
  not_less_both v w e = elim (Bool-cases (is_negative (cmp v w))) [
    | inl t ↦ ground (arith, order.irrefl v, order.trans v w v t e)
    | inr f ↦ f
  ]

  NoneLess-of_less :
      (v w : Ptr) (xs : Cells)
      → is_negative (cmp w v) ≡ true
      → NoneLess cmp v xs
      → NoneLess cmp w xs
  NoneLess-of_less v w [] e s = tt
  NoneLess-of_less v w ((q, u) ∷ xs) e s = (
    elim (Bool-cases (is_negative (cmp u w))) [
      | inl t ↦ ground (arith, order.trans u w v t e)
      | inr f ↦ f
    ],
    NoneLess-of_less v w xs e s.1,
  )

  NoneLess-insert_sorted :
      (n v w : Ptr) (xs : Cells)
      → is_negative (cmp w v) ≡ false
      → NoneLess cmp v xs
      → NoneLess cmp v (insert_sorted cmp n w xs)
  unfolding insert_sorted
  NoneLess-insert_sorted n v w [] e s = (e, tt)
  NoneLess-insert_sorted n v w ((q, u) ∷ xs) e s = elim (Bool-cases (is_negative (cmp w u))) [
    | inl neg ↦ rw neg (e, s)
    | inr pos ↦ rw pos (s.0, NoneLess-insert_sorted n v w xs e s.1)
  ]

  pub insert_sorted-IsSorted :
      (n w : Ptr) (xs : Cells) → IsSorted cmp xs → IsSorted cmp (insert_sorted cmp n w xs)
  unfolding insert_sorted
  insert_sorted-IsSorted n w [] s = (tt, tt)
  insert_sorted-IsSorted n w ((p, v) ∷ xs) s = elim (Bool-cases (is_negative (cmp w v))) [
    | inl neg ↦ rw neg ((not_less_both v w neg, NoneLess-of_less v w xs neg s.0), s)
    | inr pos ↦ rw pos (NoneLess-insert_sorted n v w xs pos s.0, insert_sorted-IsSorted n w xs s.1)
  ]

insert_sorted-perm :
    (cmp : CmpFunc) (n w : Ptr) (xs : Cells) → Perm (insert_sorted cmp n w xs) ((n, w) ∷ xs)
unfolding insert_sorted
insert_sorted-perm cmp n w [] = Perm.refl ((n, w) ∷ [])
insert_sorted-perm cmp n w ((p, v) ∷ xs) = elim (Bool-cases (is_negative (cmp w v))) [
  | inl neg ↦ rw neg (Perm.refl ((n, w) ∷ (p, v) ∷ xs))
  | inr pos ↦
      rw pos
        (Perm.trans (Perm.cons (p, v) (insert_sorted-perm cmp n w xs)) (Perm.swap (n, w) (p, v) xs))
]

-- For a comparison that is a strict order, `list_insert` keeps a list sorted, and the new list holds
-- exactly the old cells and the new one.
pub list_insert-IsSorted :
    (fuel : ℕ) (h : Heap) (n w : Ptr) (l : LinkedList) (xs : Cells)
    → n ≢ null
    → h n ≡ none
    → IsList h l xs
    → length xs ≤ fuel
    → IsOrder l.cmp
    → IsSorted l.cmp xs
    → Ends (list_insert fuel n (some l) w h) (λ r g.
      (l' : LinkedList) × (ys : Cells) × (r ≡ some l')
      × IsList g l' ys
      × IsSorted l.cmp ys
      × Perm ys ((n, w) ∷ xs))
list_insert-IsSorted fuel h n w l xs ne unused is m order sorted =
    let (r, g, run, out) = list_insert-IsList fuel h n w l xs ne unused is m in
    (
      r,
      g,
      run,
      (
        out.0,
        insert_sorted l.cmp n w xs,
        out.1,
        out.3,
        insert_sorted-IsSorted l.cmp order n w xs sorted,
        insert_sorted-perm l.cmp n w xs,
      ),
    )
