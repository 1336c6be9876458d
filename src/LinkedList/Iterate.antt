-- ===== src/LinkedList/Iterate.antt =====
-- The iterator of 03/linked_list.c.
use mathlib.Core.Path.{ap₂}
use homework_module.Prelude.{
  ap, ◌≡◌, refl, true, false, none, some, [], ◌∷◌, ◌++◌, arith, ◌==◌, ok, Ends, if◌then◌else◌,
}
use homework_module.LinkedList.{
  Ptr, null, ListNode, Heap, write, load, LinkedList, remove_node, ListIterator, it_has_next,
  it_next, it_remove_current,
}
use homework_module.LinkedList.Segment.{Cells, first}
use homework_module.LinkedList.Insert.{IsList, IsRing-at, later-ne-first}
use homework_module.LinkedList.Unlink.{IsRemoved, remove_node-IsList}
use homework_module.LinkedList.Remove.{load-IsRing, head-ne-null, remove_node-alone}

-- The iterator in front of the cells `ys`.
abbrev pub before : LinkedList → Cells → ListIterator
before l ys = record { list = some l; current = first ys null }

pub has_next-nil : (l : LinkedList) → it_has_next (before l []) ≡ false
unfolding it_has_next
has_next-nil l = refl

pub has_next-cons :
    (h : Heap) (l : LinkedList) (xs : Cells) (p v : Ptr) (ys : Cells)
    → IsList h l (xs ++ (p, v) ∷ ys)
    → it_has_next (before l ((p, v) ∷ ys)) ≡ true
unfolding it_has_next
has_next-cons h l xs p v ys is = ground (arith, (IsRing-at h xs p v ys is.ring).0)

next_stops :
    (l : LinkedList) (xs : Cells) (p v : Ptr) (ys : Cells) (h : Heap)
    → IsList h l (xs ++ (p, v) ∷ ys)
    → (if first ys (first (xs ++ (p, v) ∷ ys) null) == l.head
        then null
        else first ys (first (xs ++ (p, v) ∷ ys) null))
      ≡ first ys null
next_stops l xs p v [] h is = ground (arith, is.head)
next_stops l xs p v ((q, u) ∷ ys) h is =
    ground (arith, is.head, later-ne-first xs p v q u ys is.ring.distinct)

-- `it_next` returns the value of the cell in front and steps over it, and changes no node.
pub it_next-ok :
    (h : Heap) (l : LinkedList) (xs : Cells) (p v : Ptr) (ys : Cells)
    → IsList h l (xs ++ (p, v) ∷ ys)
    → it_next (before l ((p, v) ∷ ys)) h ≡ ok ((v, before l ys), h)
unfolding it_next
it_next-ok h l xs p v ys is =
    rw (some_node, load-IsRing h xs p v ys is.ring, next_stops l xs p v ys h is)
  where
    some_node : (p == null) ≡ false
    some_node = ground (arith, (IsRing-at h xs p v ys is.ring).0)

it_remove_current-run :
    (h g : Heap) (l l' : LinkedList) (p v : Ptr) {c : ListNode}
    → (p == null) ≡ false
    → load p h ≡ ok (c, h)
    → remove_node l p h ≡ ok ((v, l'), g)
    → it_remove_current (record { list = some l; current = p }) h
      ≡ ok ((v, record { list = some l'; current = if l'.head == null then null else c.next }), g)
unfolding it_remove_current
it_remove_current-run h g l l' p v some_node at run = rw (some_node, at, run)

alone-IsRemoved :
    (h : Heap) (l : LinkedList) (p : Ptr)
    → IsRemoved h (write h p none) l (record l { head = null }) p []
unfolding write
alone-IsRemoved h l p = record {
  is_list = record { ring = record { distinct = tt; linked = tt }; head = refl };
  same_cmp = refl;
  freed = ground arith;
  none_made = λ a e. ground arith;
}

-- `it_remove_current` of the first cell: its value is returned, its node is freed, and the iterator
-- stands in front of the rest.
pub it_remove_current-IsRemoved :
    (h : Heap) (l : LinkedList) (p v : Ptr) (ys : Cells)
    → IsList h l ((p, v) ∷ ys)
    → Ends
        (it_remove_current (before l ((p, v) ∷ ys)) h)
        (λ r g. (l' : LinkedList) × (r ≡ (v, before l' ys)) × IsRemoved h g l l' p ys)
it_remove_current-IsRemoved h l p v [] is = (
  _,
  _,
  it_remove_current-run h (write h p none) l (record l { head = null }) p v some_node
      (load-IsRing h [] p v [] is.ring) (remove_node-alone h l p v is),
  (record l { head = null }, refl, alone-IsRemoved h l p),
)
  where
    some_node : (p == null) ≡ false
    some_node = ground (arith, is.ring.linked.0)
it_remove_current-IsRemoved h l p v ((q, u) ∷ ys) is =
    let (r, g, run, out) = remove_node-IsList h l [] p v ((q, u) ∷ ys) (λ e. ground arith) is in
    (
      _,
      g,
      it_remove_current-run h g l r.1 p r.0 some_node (load-IsRing h [] p v ((q, u) ∷ ys) is.ring)
          run,
      (
        r.1,
        ap₂ (λ a b. (a, record { list = some r.1; current = b })) out.0
            (ap (λ b. if b then null else q) (head-ne-null g r.1 q u ys out.1.is_list)),
        out.1,
      ),
    )
  where
    some_node : (p == null) ≡ false
    some_node = ground (arith, is.ring.linked.0)
