-- ===== src/LinkedList/Insert.antt =====
-- `list_insert` of 03/linked_list.c: the loop finds the place, and the ring grows by one node.
use mathlib.Core.List.{append_assoc}
use homework_module.Prelude.{
  zero, suc, ◌≤◌, ◌≡◌, refl, ◌∙◌, ap, ◌≢◌, true, false, none, some, [], ◌∷◌, ◌++◌, arith, ◌==◌, ok,
  Ends, length, Bool-cases, inl, inr, if◌then◌else◌, ℕ,
}
use homework_module.Prelude.Int.{is_negative}
use homework_module.LinkedList.{
  Ptr, null, list_node, ListNode, Heap, write, load, CmpFunc, LinkedList, create_node,
  insert_between, insert_loop, list_insert,
}
use homework_module.LinkedList.Segment.{
  Cells, has, first, last, Distinct, Seg, has-append, last-append, Seg-split, has-last,
}
use homework_module.LinkedList.Ring.{
  IsRing, IsRing-rotate, IsAllocated, Seg-IsAllocated, load-ok, insert_between-ok, splice,
}
use homework_module.LinkedList.Relink.{with_node, splice-IsRing}

-- In front of the first element that `cmp` puts behind the value, or at the end.
unfoldable pub insert_sorted : CmpFunc → (node value : Ptr) → Cells → Cells
insert_sorted cmp n w [] = (n, w) ∷ []
insert_sorted cmp n w ((p, v) ∷ xs) =
    if is_negative (cmp w v) then (n, w) ∷ (p, v) ∷ xs else (p, v) ∷ insert_sorted cmp n w xs

-- A list object stands for its cells.
pub record IsList (h : Heap) (l : LinkedList) (xs : Cells) : Type 0 where
  pub ring : IsRing h xs
  pub head : l.head ≡ first xs null

pub fresh-not-has :
    (h : Heap) (b : Ptr) (xs : Cells) (a n : Ptr) → Seg h b xs a → h n ≡ none → has n xs ≡ false
fresh-not-has h b xs a n s e = elim (Bool-cases (has n xs)) [
  | inl t ↦ absurd (ground (arith, Seg-IsAllocated h b xs a n s t))
  | inr f ↦ f
]

-- The node at any place of a ring.
pub IsRing-at :
    (h : Heap) (xs : Cells) (b v : Ptr) (ys : Cells)
    → IsRing h (xs ++ (b, v) ∷ ys)
    → (b ≢ null)
      × (h b ≡ some (list_node v (last xs (last ys b)) (first ys (first (xs ++ (b, v) ∷ ys) null))))
IsRing-at h xs b v ys r =
    let s = Seg-split h (last (xs ++ (b, v) ∷ ys) null) xs ((b, v) ∷ ys) _ r.linked in
    (
      s.1.0,
      s.1.1
          ∙ ap (λ q. some (list_node v q (first ys (first (xs ++ (b, v) ∷ ys) null))))
              (ap (last xs) (last-append xs ((b, v) ∷ ys) null)),
    )

with_node-ne : (h : Heap) (n w q : Ptr) → (q == n) ≡ false → with_node h n w q ≡ h q
unfolding with_node write
with_node-ne h n w q e = ground arith

with_node-IsAllocated : (h : Heap) (n w : Ptr) → n ≢ null → IsAllocated (with_node h n w) n
unfolding with_node write
with_node-IsAllocated h n w ne = (ne, ground arith)

with_node-keeps : (h : Heap) (n w q : Ptr) → IsAllocated h q → IsAllocated (with_node h n w) q
unfolding with_node write
with_node-keeps h n w q a = (a.0, ground arith)

-- Splicing a fresh node in front of any node of a ring.
pub splice_before :
    (h : Heap) (n w : Ptr) (xs : Cells) (b v : Ptr) (ys : Cells)
    → n ≢ null
    → has n (xs ++ (b, v) ∷ ys) ≡ false
    → IsRing h (xs ++ (b, v) ∷ ys)
    → let l = last xs (last ys b) in
      let g = splice (with_node h n w) l b n in
      (insert_between l b n (with_node h n w) ≡ ok (tt, g)) × IsRing g (xs ++ (n, w) ∷ (b, v) ∷ ys)
splice_before h n w xs b v ys ne out r = rw (← last-append ys xs b) (
  insert_between-ok (with_node h n w) (last (ys ++ xs) b) b n
      (with_node-keeps h n w _ (alloc _ (has-last b v (ys ++ xs) null)))
      (with_node-keeps h n w b (alloc b (ground arith))) (with_node-IsAllocated h n w ne),
  IsRing-rotate _ ((n, w) ∷ (b, v) ∷ ys) xs (
      splice-IsRing h n w b v (ys ++ xs) ne
        (ground (arith, out, has-append n ys xs, has-append n xs ((b, v) ∷ ys))) turned),
)
  where
    turned : IsRing h ((b, v) ∷ ys ++ xs)
    turned = IsRing-rotate h xs ((b, v) ∷ ys) r

    alloc : (q : Ptr) → has q ((b, v) ∷ ys ++ xs) ≡ true → IsAllocated h q
    alloc q i =
        Seg-IsAllocated h (last ((b, v) ∷ ys ++ xs) null) ((b, v) ∷ ys ++ xs) b q turned.linked i

module _ (fuel : ℕ) (h : Heap) (l : LinkedList) (n w p : Ptr) {c : ListNode} where
  insert_loop-found :
      load p h ≡ ok (c, h)
      → is_negative (l.cmp w c.value) ≡ true
      → insert_loop (suc fuel) l w n p h ≡ insert_between c.prev p n h
  unfolding insert_loop
  insert_loop-found e neg = rw (e, neg)

  insert_loop-end :
      {d : ListNode}
      → load p h ≡ ok (c, h)
      → is_negative (l.cmp w c.value) ≡ false
      → (c.next == l.head) ≡ true
      → load l.head h ≡ ok (d, h)
      → insert_loop (suc fuel) l w n p h ≡ insert_between d.prev l.head n h
  unfolding insert_loop
  insert_loop-end e neg at_end d = rw (e, neg, at_end, d)

  insert_loop-step :
      load p h ≡ ok (c, h)
      → is_negative (l.cmp w c.value) ≡ false
      → (c.next == l.head) ≡ false
      → insert_loop (suc fuel) l w n p h ≡ insert_loop fuel l w n c.next h
  unfolding insert_loop
  insert_loop-step e neg more = rw (e, neg, more)

-- A load of a ring's node, with the new node already on the heap.
load-IsRing :
    (h : Heap) (n w : Ptr) (xs : Cells) (b v : Ptr) (ys : Cells)
    → has n (xs ++ (b, v) ∷ ys) ≡ false
    → IsRing h (xs ++ (b, v) ∷ ys)
    → load b (with_node h n w)
      ≡ ok (
        list_node v (last xs (last ys b)) (first ys (first (xs ++ (b, v) ∷ ys) null)),
        with_node h n w,
      )
load-IsRing h n w xs b v ys out r =
    let (ne, e) = IsRing-at h xs b v ys r in
    load-ok (with_node h n w) b ne
      (with_node-ne h n w b (ground (arith, out, has-append n xs ((b, v) ∷ ys))) ∙ e)

-- A fresh node spliced behind the last node: in front of the first, seen from the other side.
splice_end :
    (h : Heap) (n w b v : Ptr) (ys : Cells)
    → n ≢ null
    → has n ((b, v) ∷ ys) ≡ false
    → IsRing h ((b, v) ∷ ys)
    → Ends
        (insert_between (last ys b) b n (with_node h n w))
        (λ _ g. IsRing g ((b, v) ∷ ys ++ (n, w) ∷ []))
splice_end h n w b v ys ne out r =
    let (run, ring) = splice_before h n w [] b v ys ne out r in
    (tt, _, run, IsRing-rotate _ ((n, w) ∷ []) ((b, v) ∷ ys) ring)

append_at_head :
    (h : Heap) (l : LinkedList) (n w : Ptr) (xs : Cells)
    → n ≢ null
    → xs ≢ []
    → has n xs ≡ false
    → IsRing h xs
    → l.head ≡ first xs null
    → (d : ListNode) × (load l.head (with_node h n w) ≡ ok (d, with_node h n w))
      × Ends
          (insert_between d.prev l.head n (with_node h n w))
          (λ _ g. IsRing g (xs ++ (n, w) ∷ []))
append_at_head h l n w [] ne some_cell out r hd = absurd (some_cell refl)
append_at_head h l n w ((b, v) ∷ xs) ne some_cell out r hd =
    rw hd (_, load-IsRing h n w [] b v xs out r, splice_end h n w b v xs ne out r)

pub append-ne-nil : (xs ys : Cells) (c : Ptr × Ptr) → xs ++ c ∷ ys ≢ []
append-ne-nil [] ys c e = ground arith
append-ne-nil (x ∷ xs) ys c e = ground arith

pub later-ne-first :
    (xs : Cells) (p v q u : Ptr) (ys : Cells)
    → Distinct (xs ++ (p, v) ∷ (q, u) ∷ ys)
    → (q == first (xs ++ (p, v) ∷ (q, u) ∷ ys) null) ≡ false
later-ne-first [] p v q u ys d = ground arith
later-ne-first ((a, z) ∷ xs) p v q u ys d = ground (arith, has-append a xs ((p, v) ∷ (q, u) ∷ ys))

insert_loop-IsRing :
    (fuel : ℕ) (h : Heap) (l : LinkedList) (n w : Ptr) (xs : Cells) (p v : Ptr) (ys : Cells)
    → n ≢ null
    → has n (xs ++ (p, v) ∷ ys) ≡ false
    → IsRing h (xs ++ (p, v) ∷ ys)
    → l.head ≡ first (xs ++ (p, v) ∷ ys) null
    → length ((p, v) ∷ ys) ≤ fuel
    → Ends
        (insert_loop fuel l w n p (with_node h n w))
        (λ _ g. IsRing g (xs ++ insert_sorted l.cmp n w ((p, v) ∷ ys)))
unfolding insert_sorted
insert_loop-IsRing zero h l n w xs p v ys ne out r hd m = absurd (omega arith)
insert_loop-IsRing (suc fuel) h l n w xs p v [] ne out r hd m =
    elim (Bool-cases (is_negative (l.cmp w v))) [
      | inl neg ↦
          let at = load-IsRing h n w xs p v [] out r in
          let (run, ring) = splice_before h n w xs p v [] ne out r in
          rw (insert_loop-found fuel (with_node h n w) l n w p at neg, neg) (tt, _, run, ring)
      | inr pos ↦
          let at = load-IsRing h n w xs p v [] out r in
          let (d, head_at, done) =
            append_at_head h l n w (xs ++ (p, v) ∷ []) ne (append-ne-nil xs [] (p, v)) out r hd in
          rw (insert_loop-end fuel (with_node h n w) l n w p at pos (ground arith) head_at, pos)
            (simp append_assoc at done)
    ]
insert_loop-IsRing (suc fuel) h l n w xs p v ((q, u) ∷ ys) ne out r hd m =
    elim (Bool-cases (is_negative (l.cmp w v))) [
      | inl neg ↦
          let at = load-IsRing h n w xs p v ((q, u) ∷ ys) out r in
          let (run, ring) = splice_before h n w xs p v ((q, u) ∷ ys) ne out r in
          rw (insert_loop-found fuel (with_node h n w) l n w p at neg, neg) (tt, _, run, ring)
      | inr pos ↦
          let at = load-IsRing h n w xs p v ((q, u) ∷ ys) out r in
          let e = append_assoc xs ((p, v) ∷ []) ((q, u) ∷ ys) in
          rw
            (
              insert_loop-step fuel (with_node h n w) l n w p at pos
                  (rw hd (later-ne-first xs p v q u ys r.distinct)),
              pos,
            )
            (simp append_assoc at (
              insert_loop-IsRing fuel h l n w (xs ++ (p, v) ∷ []) q u ys ne (rw e out) (rw e r)
                (rw e hd) (omega arith)))
    ]

create_node-ok : (h : Heap) (n w : Ptr) → n ≢ null → create_node n w h ≡ ok (n, with_node h n w)
unfolding create_node with_node
create_node-ok h n w ne = ground arith

with_node-IsRing : (h : Heap) (n w : Ptr) → n ≢ null → IsRing (with_node h n w) ((n, w) ∷ [])
unfolding with_node write
with_node-IsRing h n w ne = record { distinct = (refl, tt); linked = (ne, ground arith, tt) }

module _ (fuel : ℕ) (h : Heap) (n w : Ptr) (l : LinkedList) (ne : n ≢ null) where
  list_insert-empty :
      l.head ≡ null
      → list_insert fuel n (some l) w h ≡ ok (some (record l { head = n }), with_node h n w)
  unfolding list_insert with_node
  list_insert-empty e = ground arith

  module _ {c : ListNode} (some_head : (l.head == null) ≡ false)
      (at : load l.head (with_node h n w) ≡ ok (c, with_node h n w)) where
    list_insert-front :
        {g : Heap}
        → is_negative (l.cmp w c.value) ≡ true
        → insert_between c.prev l.head n (with_node h n w) ≡ ok (tt, g)
        → list_insert fuel n (some l) w h ≡ ok (some (record l { head = n }), g)
    unfolding list_insert
    list_insert-front neg run = rw (create_node-ok h n w ne, some_head, at, neg, run)

    list_insert-loop :
        {g : Heap}
        → is_negative (l.cmp w c.value) ≡ false
        → insert_loop fuel l w n l.head (with_node h n w) ≡ ok (tt, g)
        → list_insert fuel n (some l) w h ≡ ok (some l, g)
    unfolding list_insert
    list_insert-loop pos run = rw (create_node-ok h n w ne, some_head, at, pos, run)

-- With an address that the allocator may return and fuel for one round of the ring, `list_insert`
-- ends without a fault, and the list stands for the old cells with the new one in its place:
-- in front of the first element that `cmp` puts behind the value, else at the end.
pub list_insert-IsList :
    (fuel : ℕ) (h : Heap) (n w : Ptr) (l : LinkedList) (xs : Cells)
    → n ≢ null
    → h n ≡ none
    → IsList h l xs
    → length xs ≤ fuel
    → Ends (list_insert fuel n (some l) w h) (λ r g.
      (l' : LinkedList) × (r ≡ some l')
      × (l'.cmp ≡ l.cmp)
      × IsList g l' (insert_sorted l.cmp n w xs))
unfolding insert_sorted
list_insert-IsList fuel h n w l [] ne unused is m = (
  _,
  _,
  list_insert-empty fuel h n w l ne is.head,
  (_, refl, refl, record { ring = with_node-IsRing h n w ne; head = refl }),
)
list_insert-IsList fuel h n w l ((p, v) ∷ xs) ne unused is m =
    elim (Bool-cases (is_negative (l.cmp w v))) [
      | inl neg ↦
          let (run, ring) = splice_before h n w [] p v xs ne out is.ring in
          rw neg (
            _,
            _,
            list_insert-front fuel h n w l ne some_head at neg (rw is.head run),
            (_, refl, refl, record { ring = ring; head = refl }),
          )
      | inr pos ↦
          let (u, g, run, ring) =
            insert_loop-IsRing fuel h l n w [] p v xs ne out is.ring is.head m in
          rw pos (
            _,
            _,
            list_insert-loop fuel h n w l ne some_head at pos
                (ap (λ q. insert_loop fuel l w n q (with_node h n w)) is.head ∙ run),
            (_, refl, refl, record { ring = rw pos at ring; head = is.head }),
          )
    ]
  where
    out : has n ((p, v) ∷ xs) ≡ false
    out = fresh-not-has h (last xs p) ((p, v) ∷ xs) p n is.ring.linked unused

    some_head : (l.head == null) ≡ false
    some_head = ground (arith, is.head, is.ring.linked)

    at : load l.head (with_node h n w) ≡ ok (list_node v (last xs p) (first xs p), with_node h n w)
    at = rw is.head (load-IsRing h n w [] p v xs out is.ring)
