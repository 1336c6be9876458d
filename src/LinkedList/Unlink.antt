-- ===== src/LinkedList/Unlink.antt =====
-- `remove_node` of 03/linked_list.c.
use homework_module.Prelude.{
  ◌≡◌, refl, ◌≢◌, true, false, ◌&&◌, none, [], ◌∷◌, ◌++◌, arith, Ends, ◌==◌, ok, if◌then◌else◌,
}
use homework_module.LinkedList.{Ptr, null, Heap, write, LinkedList, remove_node}
use homework_module.LinkedList.Segment.{Cells, has, first, last, Distinct, has-append, has-last}
use homework_module.LinkedList.Ring.{
  IsRing, IsRing-rotate, IsAllocated, Seg-IsAllocated, load-ok, set_next-ok, set_prev-ok, free-ok,
  relink_next, relink_prev, relink_next-IsAllocated, relink_prev-IsAllocated,
}
use homework_module.LinkedList.Relink.{unlink, unlink-IsRing}
use homework_module.LinkedList.Insert.{IsList}

module _ (h : Heap) (l : LinkedList) (p v b u : Ptr) (xs : Cells)
    (r : IsRing h ((p, v) ∷ (b, u) ∷ xs)) where
  alloc : (q : Ptr) → has q ((p, v) ∷ (b, u) ∷ xs) ≡ true → IsAllocated h q
  alloc q i = Seg-IsAllocated h (last xs b) ((p, v) ∷ (b, u) ∷ xs) p q r.linked i

  remove_node-unlink :
      remove_node l p h
      ≡ ok ((v, record l { head = if l.head == p then b else l.head }), unlink h (last xs b) b p)
  unfolding remove_node
  remove_node-unlink = rw (
    load-ok h p r.linked.0 r.linked.1,
    not_alone,
    set_next-ok h (last xs b) b a_last,
    set_prev-ok _ b (last xs b) a_next,
    free-ok _ p a_self,
  )
    where
      not_alone : (l.head == p) && (b == p) ≡ false
      not_alone = ground (arith, r.distinct.0)

      a_last : IsAllocated h (last xs b)
      a_last = alloc (last xs b) (ground (arith, has-last b u xs null))

      h₁ : Heap
      h₁ = relink_next h (last xs b) b

      a_next : IsAllocated h₁ b
      a_next = relink_next-IsAllocated h (last xs b) b b (alloc b (ground arith))

      a_self : IsAllocated (relink_prev h₁ b (last xs b)) p
      a_self =
          relink_prev-IsAllocated h₁ b (last xs b) p
            (relink_next-IsAllocated h (last xs b) b p (alloc p (ground arith)))

unlink-freed : (h : Heap) (l b p : Ptr) → unlink h l b p p ≡ none
unfolding write
unlink-freed h l b p = ground arith

-- No node comes to life by an unlink.
unlink-keeps_none : (h : Heap) (l b p a : Ptr) → h a ≡ none → unlink h l b p a ≡ none
unfolding write
unlink-keeps_none h l b p a e = ground arith

-- The list with a node taken out, the node's address given back, and no node made.
pub record IsRemoved (h g : Heap) (l l' : LinkedList) (p : Ptr) (xs : Cells) : Type 0 where
  pub is_list : IsList g l' xs
  pub same_cmp : l'.cmp ≡ l.cmp
  pub freed : g p ≡ none
  pub none_made : (a : Ptr) → h a ≡ none → g a ≡ none

-- `remove_node` of any node of a list of two or more.
pub remove_node-IsList :
    (h : Heap) (l : LinkedList) (xs : Cells) (p v : Ptr) (ys : Cells)
    → xs ++ ys ≢ []
    → IsList h l (xs ++ (p, v) ∷ ys)
    → Ends (remove_node l p h) (λ r g. (r.0 ≡ v) × IsRemoved h g l r.1 p (xs ++ ys))
remove_node-IsList h l [] p v [] two is = absurd (two refl)
remove_node-IsList h l ((a, z) ∷ xs) p v [] two is =
    let turned = IsRing-rotate h ((a, z) ∷ xs) ((p, v) ∷ []) is.ring in
    (
      _,
      _,
      remove_node-unlink h l p v a z xs turned,
      (
        refl,
        record {
          is_list = record {
            ring = IsRing-rotate _ [] ((a, z) ∷ xs) (unlink-IsRing h p v a z xs turned);
            head = ground (arith, is.head);
          };
          same_cmp = refl;
          freed = unlink-freed h (last xs a) a p;
          none_made = unlink-keeps_none h (last xs a) a p;
        },
      ),
    )
remove_node-IsList h l xs p v ((q, u) ∷ ys) two is =
    let turned = IsRing-rotate h xs ((p, v) ∷ (q, u) ∷ ys) is.ring in
    (
      _,
      _,
      remove_node-unlink h l p v q u (ys ++ xs) turned,
      (
        refl,
        record {
          is_list = record {
            ring = IsRing-rotate _ ((q, u) ∷ ys) xs (unlink-IsRing h p v q u (ys ++ xs) turned);
            head = new_head xs is.head is.ring.distinct;
          };
          same_cmp = refl;
          freed = unlink-freed h (last (ys ++ xs) q) q p;
          none_made = unlink-keeps_none h (last (ys ++ xs) q) q p;
        },
      ),
    )
  where
    new_head :
        (zs : Cells)
        → l.head ≡ first (zs ++ (p, v) ∷ (q, u) ∷ ys) null
        → Distinct (zs ++ (p, v) ∷ (q, u) ∷ ys)
        → (if l.head == p then q else l.head) ≡ first (zs ++ (q, u) ∷ ys) null
    new_head [] e d = ground arith
    new_head ((a, z) ∷ zs) e d = ground (arith, has-append a zs ((p, v) ∷ (q, u) ∷ ys))
