-- ===== src/LinkedList/Relink.antt =====
-- What the assignments of `insert_between` and `remove_node` of 03/linked_list.c do to a ring.
use homework_module.Prelude.{◌≡◌, ◌∙◌, ◌≢◌, false, none, some, ◌∷◌, arith, ◌==◌}
use homework_module.LinkedList.{Ptr, null, list_node, Heap, write}
use homework_module.LinkedList.Segment.{
  Cells, has, last, Seg, has-last, Seg-frame, ne_of_has, write-ne, Seg-set_next, Seg-set_prev,
}
use homework_module.LinkedList.Ring.{IsRing, relink_next, relink_prev, splice}

==_symm : (p q : Ptr) → (p == q) ≡ false → (q == p) ≡ false
==_symm p q e = ground arith

unfoldable pub with_node : Heap → Ptr → Ptr → Heap
with_node h n w = write h n (some (list_node w n n))

-- The new node before it is linked to its neighbours from their side.
half_linked : (h : Heap) (n w l b : Ptr) → Heap
half_linked h n w l b = relink_next (relink_prev (with_node h n w) n l) n b

half_linked_self : (h : Heap) (n w l b : Ptr) → half_linked h n w l b n ≡ some (list_node w l b)
unfolding half_linked write with_node
half_linked_self h n w l b = ground arith

half_linked_ne : (h : Heap) (n w l b q : Ptr) → (q == n) ≡ false → half_linked h n w l b q ≡ h q
unfolding half_linked write with_node
half_linked_ne h n w l b q e = ground arith

-- A fresh node spliced in front of the first node of a ring makes a ring that begins with it.
pub splice-IsRing :
    (h : Heap) (n w b v : Ptr) (xs : Cells)
    → n ≢ null
    → has n ((b, v) ∷ xs) ≡ false
    → IsRing h ((b, v) ∷ xs)
    → IsRing (splice (with_node h n w) (last xs b) b n) ((n, w) ∷ (b, v) ∷ xs)
unfolding half_linked
splice-IsRing h n w b v xs ne out r = record {
  distinct = (out, r.distinct);
  linked = (ne, self, seg₅);
}
  where
    l : Ptr
    l = last xs b

    h₃ : Heap
    h₃ = half_linked h n w l b

    n≠l : (n == l) ≡ false
    n≠l = ne_of_has n l ((b, v) ∷ xs) out (has-last b v xs null)

    n≠b : (n == b) ≡ false
    n≠b = ground (arith, out)

    seg₃ : Seg h₃ l ((b, v) ∷ xs) b
    seg₃ =
        Seg-frame h h₃ l ((b, v) ∷ xs) b
          (λ q i. half_linked_ne h n w l b q (==_symm n q (ne_of_has n q ((b, v) ∷ xs) out i)))
          r.linked

    seg₄ : Seg (relink_next h₃ l n) l ((b, v) ∷ xs) n
    seg₄ = Seg-set_next h₃ l ((b, v) ∷ xs) b n null r.distinct (ground arith) seg₃

    seg₅ : Seg (relink_prev (relink_next h₃ l n) b n) n ((b, v) ∷ xs) n
    seg₅ = Seg-set_prev (relink_next h₃ l n) l b v xs n n r.distinct.0 seg₄

    self : relink_prev (relink_next h₃ l n) b n n ≡ some (list_node w l b)
    self = write-ne _ n b _ n≠b ∙ write-ne _ n l _ n≠l ∙ half_linked_self h n w l b

-- The heap after `remove_node` of a node between `l` and `b`.
abbrev pub unlink : Heap → (prev next node : Ptr) → Heap
unlink h l b p = write (relink_prev (relink_next h l b) b l) p none

-- Unlinking the first of several nodes leaves the ring of the others.
pub unlink-IsRing :
    (h : Heap) (p u b v : Ptr) (xs : Cells)
    → IsRing h ((p, u) ∷ (b, v) ∷ xs)
    → IsRing (unlink h (last xs b) b p) ((b, v) ∷ xs)
unlink-IsRing h p u b v xs r = record {
  distinct = r.distinct.1;
  linked =
      Seg-frame h₂ (write h₂ p none) l ((b, v) ∷ xs) b
        (λ q i. write-ne h₂ q p none (==_symm p q (ne_of_has p q ((b, v) ∷ xs) r.distinct.0 i)))
        seg₂;
}
  where
    l : Ptr
    l = last xs b

    h₂ : Heap
    h₂ = relink_prev (relink_next h l b) b l

    seg₁ : Seg (relink_next h l b) p ((b, v) ∷ xs) b
    seg₁ = Seg-set_next h p ((b, v) ∷ xs) p b null r.distinct.1 (ground arith) r.linked.2

    seg₂ : Seg h₂ l ((b, v) ∷ xs) b
    seg₂ = Seg-set_prev (relink_next h l b) p b v xs b l r.distinct.1.0 seg₁
