-- ===== src/LinkedList/Remove.antt =====
-- `list_remove_value` of 03/linked_list.c.
use mathlib.Core.List.{append_assoc}
use homework_module.Prelude.{
  ℕ, zero, suc, ◌≤◌, ◌≡◌, refl, ◌∙◌, ap, ◌≢◌, Bool, true, false, ◌||◌, ◌&&◌, none, some, [], ◌∷◌,
  ◌++◌, arith, Ends, ◌==◌, fault, ok, length, Bool-cases, ltb, lt→ltb, inl, inr, if◌then◌else◌,
}
use homework_module.LinkedList.{
  Ptr, null, list_node, ListNode, Heap, write, load, free, LinkedList, remove_node, remove_loop,
  list_remove_value,
}
use homework_module.LinkedList.Segment.{Cells, first, last}
use homework_module.LinkedList.Ring.{IsRing, load-ok, free-ok}
use homework_module.LinkedList.Insert.{IsList, IsRing-at, append-ne-nil, later-ne-first}
use homework_module.LinkedList.Unlink.{remove_node-IsList}

-- Some cell holds the value.
abbrev pub holds : Ptr → Cells → Bool
holds w [] = false
holds w ((p, v) ∷ xs) = (v == w) || holds w xs

-- The cells less the first that holds the value.
abbrev pub drop_value : Ptr → Cells → Cells
drop_value w [] = []
drop_value w ((p, v) ∷ xs) = if v == w then xs else (p, v) ∷ drop_value w xs

module _ (fuel : ℕ) (h : Heap) (l : LinkedList) (w p : Ptr) {c : ListNode}
    (at : load p h ≡ ok (c, h)) where
  remove_loop-end :
      (c.value == w) ≡ false
      → (c.next == l.head) ≡ true
      → remove_loop (suc fuel) l w p h ≡ ok (l, h)
  unfolding remove_loop
  remove_loop-end other at_end = rw (at, other, at_end)

  remove_loop-step :
      (c.value == w) ≡ false
      → (c.next == l.head) ≡ false
      → remove_loop (suc fuel) l w p h ≡ remove_loop fuel l w c.next h
  unfolding remove_loop
  remove_loop-step other more = rw (at, other, more)

  module _ {v : Ptr} {l' : LinkedList} {g : Heap} (hit : (c.value == w) ≡ true)
      (run : remove_node l p h ≡ ok ((v, l'), g)) where
    remove_loop-hit_end : (c.next == l'.head) ≡ true → remove_loop (suc fuel) l w p h ≡ ok (l', g)
    unfolding remove_loop
    remove_loop-hit_end at_end = rw (at, hit, run, at_end)

    remove_loop-hit_step :
        (c.next == l'.head) ≡ false
        → remove_loop (suc fuel) l w p h ≡ remove_loop fuel l' w c.next g
    unfolding remove_loop
    remove_loop-hit_step more = rw (at, hit, run, more)

remove_loop-fault :
    (fuel : ℕ) (h : Heap) (l : LinkedList) (w p : Ptr)
    → load p h ≡ fault
    → remove_loop (suc fuel) l w p h ≡ fault
unfolding remove_loop
remove_loop-fault fuel h l w p e = rw e

pub load-IsRing :
    (h : Heap) (xs : Cells) (b v : Ptr) (ys : Cells)
    → IsRing h (xs ++ (b, v) ∷ ys)
    → load b h
      ≡ ok (list_node v (last xs (last ys b)) (first ys (first (xs ++ (b, v) ∷ ys) null)), h)
load-IsRing h xs b v ys r = let (ne, e) = IsRing-at h xs b v ys r in load-ok h b ne e

-- Where no cell from `p` on holds the value, the rest of the walk changes nothing.
remove_loop-absent :
    (fuel : ℕ) (h : Heap) (l : LinkedList) (w : Ptr) (xs : Cells) (p v : Ptr) (ys : Cells)
    → IsList h l (xs ++ (p, v) ∷ ys)
    → holds w ((p, v) ∷ ys) ≡ false
    → length ((p, v) ∷ ys) ≤ fuel
    → remove_loop fuel l w p h ≡ ok (l, h)
remove_loop-absent zero h l w xs p v ys is no_value m = absurd (omega arith)
remove_loop-absent (suc fuel) h l w xs p v [] is no_value m =
    remove_loop-end fuel h l w p (load-IsRing h xs p v [] is.ring) (ground arith)
      (ground (arith, is.head))
remove_loop-absent (suc fuel) h l w xs p v ((q, u) ∷ ys) is no_value m =
    let e = append_assoc xs ((p, v) ∷ []) ((q, u) ∷ ys) in
    remove_loop-step fuel h l w p (load-IsRing h xs p v ((q, u) ∷ ys) is.ring) (ground arith)
      (rw is.head (later-ne-first xs p v q u ys is.ring.distinct))
    ∙ remove_loop-absent fuel h l w (xs ++ (p, v) ∷ []) q u ys (rw e is) (ground arith)
        (omega arith)

the_value : (p v w : Ptr) → holds w ((p, v) ∷ []) ≡ true → (v == w) ≡ true
the_value p v w e = ground arith

remove_loop-hit :
    (fuel : ℕ) (h : Heap) (l : LinkedList) (w : Ptr) (xs : Cells) (p v : Ptr) (ys : Cells)
    → xs ++ ys ≢ []
    → IsList h l (xs ++ (p, v) ∷ ys)
    → (v == w) ≡ true
    → holds w ys ≡ false
    → length ys ≤ fuel
    → Ends (remove_loop (suc fuel) l w p h) (λ l' g. (l'.cmp ≡ l.cmp) × IsList g l' (xs ++ ys))
remove_loop-hit fuel h l w [] p v [] two is hit no_more m = absurd (two refl)
remove_loop-hit fuel h l w [] p v ((q, u) ∷ ys) two is hit no_more m =
    let (r, g, run, out) = remove_node-IsList h l [] p v ((q, u) ∷ ys) two is in
    (
      r.1,
      g,
      remove_loop-hit_end fuel h l w p (load-IsRing h [] p v ((q, u) ∷ ys) is.ring) hit run
          (ground (arith, out.1.is_list.head)),
      (out.1.same_cmp, out.1.is_list),
    )
remove_loop-hit fuel h l w ((a, z) ∷ xs) p v [] two is hit no_more m =
    let (r, g, run, out) = remove_node-IsList h l ((a, z) ∷ xs) p v [] two is in
    (
      r.1,
      g,
      remove_loop-hit_end fuel h l w p (load-IsRing h ((a, z) ∷ xs) p v [] is.ring) hit run
          (ground (arith, out.1.is_list.head)),
      (out.1.same_cmp, out.1.is_list),
    )
remove_loop-hit fuel h l w ((a, z) ∷ xs) p v ((q, u) ∷ ys) two is hit no_more m =
    let (r, g, run, out) = remove_node-IsList h l ((a, z) ∷ xs) p v ((q, u) ∷ ys) two is in
    (
      r.1,
      g,
      remove_loop-hit_step fuel h l w p (load-IsRing h ((a, z) ∷ xs) p v ((q, u) ∷ ys) is.ring) hit
            run (rw out.1.is_list.head (later-ne-first ((a, z) ∷ xs) p v q u ys is.ring.distinct))
          ∙ remove_loop-absent fuel g r.1 w ((a, z) ∷ xs) q u ys out.1.is_list no_more m,
      (out.1.same_cmp, out.1.is_list),
    )

-- The walk from `p` on, where exactly one cell from there holds the value.
remove_loop-IsList :
    (fuel : ℕ) (h : Heap) (l : LinkedList) (w : Ptr) (xs : Cells) (p v : Ptr) (ys : Cells)
    → xs ++ ys ≢ []
    → IsList h l (xs ++ (p, v) ∷ ys)
    → holds w ((p, v) ∷ ys) ≡ true
    → holds w (drop_value w ((p, v) ∷ ys)) ≡ false
    → length ((p, v) ∷ ys) ≤ fuel
    → Ends
        (remove_loop fuel l w p h)
        (λ l' g. (l'.cmp ≡ l.cmp) × IsList g l' (xs ++ drop_value w ((p, v) ∷ ys)))
remove_loop-IsList zero h l w xs p v ys two is one none_left m = absurd (omega arith)
remove_loop-IsList (suc fuel) h l w xs p v [] two is one none_left m =
    rw (the_value p v w one)
      (remove_loop-hit fuel h l w xs p v [] two is (the_value p v w one) refl (omega arith))
remove_loop-IsList (suc fuel) h l w xs p v ((q, u) ∷ ys) two is one none_left m =
    elim (Bool-cases (v == w)) [
      | inl hit ↦ rw hit (
          remove_loop-hit fuel h l w xs p v ((q, u) ∷ ys) two is hit (rw hit at none_left)
            (omega arith))
      | inr other ↦
          let e = append_assoc xs ((p, v) ∷ []) ((q, u) ∷ ys) in
          rw
            (
              remove_loop-step fuel h l w p (load-IsRing h xs p v ((q, u) ∷ ys) is.ring) other
                  (rw is.head (later-ne-first xs p v q u ys is.ring.distinct)),
              other,
            )
            (simp append_assoc at (
              remove_loop-IsList fuel h l w (xs ++ (p, v) ∷ []) q u ys
                (rw append_assoc (append-ne-nil xs ys (p, v))) (rw e is) (ground arith)
                (ground arith) (omega arith)))
    ]

list_remove_value-run :
    (fuel : ℕ) (h g : Heap) (l l' : LinkedList) (w : Ptr)
    → (l.head == null) ≡ false
    → remove_loop fuel l w l.head h ≡ ok (l', g)
    → list_remove_value fuel (some l) w h ≡ ok ((true, some l'), g)
unfolding list_remove_value
list_remove_value-run fuel h g l l' w some_head run = rw (some_head, run)

pub head-ne-null :
    (h : Heap) (l : LinkedList) (p v : Ptr) (xs : Cells)
    → IsList h l ((p, v) ∷ xs)
    → (l.head == null) ≡ false
head-ne-null h l p v xs is = ground (arith, is.head, is.ring.linked.0)

-- `list_remove_value` on a list of two or more where exactly one cell holds the value, with fuel for
-- one round: it returns 1 and the list stands for the cells without that one.
pub list_remove_value-IsList :
    (fuel : ℕ) (h : Heap) (l : LinkedList) (w : Ptr) (xs : Cells)
    → IsList h l xs
    → 2 ≤ length xs
    → holds w xs ≡ true
    → holds w (drop_value w xs) ≡ false
    → length xs ≤ fuel
    → Ends (list_remove_value fuel (some l) w h) (λ r g.
      (l' : LinkedList) × (r ≡ (true, some l')) × (l'.cmp ≡ l.cmp) × IsList g l' (drop_value w xs))
list_remove_value-IsList fuel h l w [] is two one none_left m = absurd (omega arith)
list_remove_value-IsList fuel h l w ((p, v) ∷ xs) is two one none_left m =
    let (l', g, run, out) =
      remove_loop-IsList fuel h l w [] p v xs (two_cells xs two) is one none_left m in
    (
      _,
      g,
      list_remove_value-run fuel h g l l' w (head-ne-null h l p v xs is)
          (ap (λ q. remove_loop fuel l w q h) is.head ∙ run),
      (l', refl, out.0, out.1),
    )
  where
    two_cells : (ys : Cells) → 2 ≤ suc (length ys) → ys ≢ []
    two_cells [] m = absurd (omega arith)
    two_cells (y ∷ ys) m = λ e. ground arith

-- Where no cell of a list holds the value, `list_remove_value` changes nothing, and still returns 1
-- if the list has a node at all.
pub list_remove_value-absent :
    (fuel : ℕ) (h : Heap) (l : LinkedList) (w : Ptr) (xs : Cells)
    → IsList h l xs
    → holds w xs ≡ false
    → length xs ≤ fuel
    → list_remove_value fuel (some l) w h ≡ ok ((ltb 0 (length xs), some l), h)
unfolding list_remove_value
list_remove_value-absent fuel h l w [] is no_value m = ground (arith, is.head)
list_remove_value-absent fuel h l w ((p, v) ∷ xs) is no_value m =
    rw (lt→ltb 0 (suc (length xs)) (omega arith)) (
      list_remove_value-run fuel h h l l w (head-ne-null h l p v xs is) (
        ap (λ q. remove_loop fuel l w q h) is.head
        ∙ remove_loop-absent fuel h l w [] p v xs is no_value m))

pub remove_node-alone :
    (h : Heap) (l : LinkedList) (p w : Ptr)
    → IsList h l ((p, w) ∷ [])
    → remove_node l p h ≡ ok ((w, record l { head = null }), write h p none)
unfolding remove_node
remove_node-alone h l p w is = rw (load-IsRing h [] p w [] is.ring, alone, freed)
  where
    alone : (l.head == p) && (p == p) ≡ true
    alone = ground (arith, is.head)

    freed : free l.head h ≡ ok (tt, write h p none)
    freed = ap (λ q. free q h) is.head ∙ free-ok h p (is.ring.linked.0, rw is.ring.linked.1)

load-freed : (h : Heap) (p : Ptr) → load p (write h p none) ≡ fault
unfolding load write
load-freed h p = ground arith

-- Removing the value of the only node is undefined behaviour: the head becomes NULL, which the freed
-- node's successor, itself, is not, so that the loop reads the freed node again.
pub list_remove_value-fault :
    (fuel : ℕ) (h : Heap) (l : LinkedList) (p w : Ptr)
    → IsList h l ((p, w) ∷ [])
    → list_remove_value (suc (suc fuel)) (some l) w h ≡ fault
unfolding list_remove_value
list_remove_value-fault fuel h l p w is =
    rw (head-ne-null h l p w [] is, ap (λ q. remove_loop (suc (suc fuel)) l w q h) is.head ∙ go)
  where
    go : remove_loop (suc (suc fuel)) l w p h ≡ fault
    go =
        remove_loop-hit_step (suc fuel) h l w p (load-IsRing h [] p w [] is.ring) (ground arith)
          (remove_node-alone h l p w is) (ground (arith, is.ring.linked.0))
        ∙ remove_loop-fault fuel (write h p none) (record l { head = null }) w p (load-freed h p)
