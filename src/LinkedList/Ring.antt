-- ===== src/LinkedList/Ring.antt =====
-- The ring that a list of 03/linked_list.c is: what a splice and an unlink do to it.
use mathlib.Core.List.{append-nil}
use homework_module.Prelude.{
  ◌≡◌, ◌≢◌, true, false, none, some, [], ◌∷◌, ◌++◌, arith, ◌==◌, ==_iff, ok, is_some, Bool-cases,
  inl, inr,
}
use homework_module.LinkedList.{
  Ptr, null, ListNode, Heap, write, load, set_next, set_prev, free, insert_between,
}
use homework_module.LinkedList.Segment.{
  Cells, has, first, last, Distinct, Seg, next_to, prev_to, last-append, Seg-append, Seg-split,
  Distinct-split, Distinct-append,
}

-- Distinct nodes, each linked to its neighbours, the last to the first.
pub record IsRing (h : Heap) (xs : Cells) : Type 0 where
  pub distinct : Distinct xs
  pub linked : Seg h (last xs null) xs (first xs null)

apart_symm :
    (xs ys : Cells)
    → ((q : Ptr) → has q xs ≡ true → has q ys ≡ false)
    → ((q : Ptr) → has q ys ≡ true → has q xs ≡ false)
apart_symm xs ys apart q i = elim (Bool-cases (has q xs)) [ inl e ↦ cc (apart q e) | inr e ↦ e ]

-- A ring may be read from any of its nodes on.
pub IsRing-rotate : (h : Heap) (xs ys : Cells) → IsRing h (xs ++ ys) → IsRing h (ys ++ xs)
IsRing-rotate h [] ys r = rw append-nil r
IsRing-rotate h ((p, v) ∷ xs) [] r = rw append-nil at r
IsRing-rotate h ((p, v) ∷ xs) ((q, w) ∷ ys) r =
    let s =
      Seg-split h (last (((p, v) ∷ xs) ++ (q, w) ∷ ys) null) ((p, v) ∷ xs) ((q, w) ∷ ys) p
        r.linked in
    let d = Distinct-split ((p, v) ∷ xs) ((q, w) ∷ ys) r.distinct in
    record {
      distinct =
          Distinct-append ((q, w) ∷ ys) ((p, v) ∷ xs) d.1 d.0
            (apart_symm ((p, v) ∷ xs) ((q, w) ∷ ys) d.2);
      linked = rw (last-append ys ((p, v) ∷ xs) q) (
          Seg-append h _ ((q, w) ∷ ys) ((p, v) ∷ xs) q s.1
            (rw (last-append xs ((q, w) ∷ ys) p) at s.0));
    }

abbrev pub IsAllocated : Heap → Ptr → Type 0
IsAllocated h p = (p ≢ null) × (is_some (h p) ≡ true)

pub Seg-IsAllocated :
    (h : Heap) (b : Ptr) (xs : Cells) (a q : Ptr) → Seg h b xs a → has q xs ≡ true → IsAllocated h q
Seg-IsAllocated h b [] a q s i = absurd (ground arith)
Seg-IsAllocated h b ((p, v) ∷ xs) a q s i = elim (Bool-cases (q == p)) [
  | inl e ↦ let e' : q ≡ p = (==_iff q p).0 e in rw e' (s.0, rw s.1)
  | inr e ↦ Seg-IsAllocated h p xs a q s.2 (ground arith)
]

-- The heap after the four assignments of `insert_between`.
abbrev pub relink_next : Heap → Ptr → Ptr → Heap
relink_next h p q = write h p (next_to q (h p))

abbrev pub relink_prev : Heap → Ptr → Ptr → Heap
relink_prev h p q = write h p (prev_to q (h p))

pub set_next-ok :
    (h : Heap) (p q : Ptr) → IsAllocated h p → set_next p q h ≡ ok (tt, relink_next h p q)
unfolding set_next
set_next-ok h p q a = ground arith

pub set_prev-ok :
    (h : Heap) (p q : Ptr) → IsAllocated h p → set_prev p q h ≡ ok (tt, relink_prev h p q)
unfolding set_prev
set_prev-ok h p q a = ground arith

pub free-ok : (h : Heap) (p : Ptr) → IsAllocated h p → free p h ≡ ok (tt, write h p none)
unfolding free
free-ok h p a = ground arith

pub load-ok : (h : Heap) (p : Ptr) {n : ListNode} → p ≢ null → h p ≡ some n → load p h ≡ ok (n, h)
unfolding load
load-ok h p ne e = ground arith

pub relink_next-IsAllocated :
    (h : Heap) (p q r : Ptr) → IsAllocated h r → IsAllocated (relink_next h p q) r
unfolding write
relink_next-IsAllocated h p q r a = (a.0, ground arith)

pub relink_prev-IsAllocated :
    (h : Heap) (p q r : Ptr) → IsAllocated h r → IsAllocated (relink_prev h p q) r
unfolding write
relink_prev-IsAllocated h p q r a = (a.0, ground arith)

-- The heap after the four assignments of `insert_between`.
abbrev pub splice : Heap → (prev next insert : Ptr) → Heap
splice h l b n = relink_prev (relink_next (relink_next (relink_prev h n l) n b) l n) b n

pub insert_between-ok :
    (h : Heap) (l b n : Ptr)
    → IsAllocated h l
    → IsAllocated h b
    → IsAllocated h n
    → insert_between l b n h ≡ ok (tt, splice h l b n)
unfolding insert_between
insert_between-ok h l b n al ab an =
    let an₁ = relink_prev-IsAllocated h n l n an in
    let al₁ = relink_prev-IsAllocated h n l l al in
    let ab₁ = relink_prev-IsAllocated h n l b ab in
    let al₂ = relink_next-IsAllocated (relink_prev h n l) n b l al₁ in
    let ab₂ = relink_next-IsAllocated (relink_prev h n l) n b b ab₁ in
    let ab₃ = relink_next-IsAllocated (relink_next (relink_prev h n l) n b) l n b ab₂ in
    rw (set_prev-ok h n l an, set_next-ok _ n b an₁, set_next-ok _ l n al₂, set_prev-ok _ b n ab₃)
