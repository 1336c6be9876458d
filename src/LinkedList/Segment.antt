-- ===== src/LinkedList/Segment.antt =====
-- Stretches of nodes linked both ways, for the lists of 03/linked_list.c.
use homework_module.Prelude.{
  ◌≡◌, refl, ◌∙◌, ◌≢◌, Bool, true, false, ◌||◌, Option, none, some, List, [], ◌∷◌, ◌++◌, arith,
  ◌==◌,
}
use homework_module.LinkedList.{Ptr, null, ListNode, list_node, Heap, write}

-- Address and value of each node, in order.
abbrev pub Cells : Type 0
Cells = List (Ptr × Ptr)

abbrev pub has : Ptr → Cells → Bool
has a [] = false
has a ((p, _) ∷ xs) = (a == p) || has a xs

abbrev pub first : Cells → Ptr → Ptr
first [] d = d
first ((p, _) ∷ xs) d = p

abbrev pub last : Cells → Ptr → Ptr
last [] d = d
last ((p, _) ∷ xs) d = last xs p

abbrev pub Distinct : Cells → Type 0
Distinct [] = Unit
Distinct ((p, _) ∷ xs) = (has p xs ≡ false) × Distinct xs

-- The nodes `xs` are linked both ways, with `before` in front of them and `after` behind.
abbrev pub Seg : Heap → (before : Ptr) → Cells → (after : Ptr) → Type 0
Seg h before [] after = Unit
Seg h before ((p, v) ∷ xs) after =
    (p ≢ null) × (h p ≡ some (list_node v before (first xs after))) × Seg h p xs after

pub has-append : (a : Ptr) (xs ys : Cells) → has a (xs ++ ys) ≡ (has a xs || has a ys)
has-append a [] ys = refl
has-append a ((p, v) ∷ xs) ys = ground (arith, has-append a xs ys)

pub first-append : (xs ys : Cells) (d : Ptr) → first (xs ++ ys) d ≡ first xs (first ys d)
first-append [] ys d = refl
first-append ((p, v) ∷ xs) ys d = refl

pub last-append : (xs ys : Cells) (d : Ptr) → last (xs ++ ys) d ≡ last ys (last xs d)
last-append [] ys d = refl
last-append ((p, v) ∷ xs) ys d = last-append xs ys p

pub has-last : (p v : Ptr) (xs : Cells) (d : Ptr) → has (last ((p, v) ∷ xs) d) ((p, v) ∷ xs) ≡ true
has-last p v [] d = ground arith
has-last p v ((q, w) ∷ xs) d = ground (arith, has-last q w xs p)

-- A segment depends only on its own addresses.
pub Seg-frame :
    (h g : Heap) (b : Ptr) (xs : Cells) (a : Ptr)
    → ((q : Ptr) → has q xs ≡ true → g q ≡ h q)
    → Seg h b xs a
    → Seg g b xs a
Seg-frame h g b [] a same s = tt
Seg-frame h g b ((p, v) ∷ xs) a same s =
    (s.0, ground (arith, same p), Seg-frame h g p xs a (λ q i. same q (ground arith)) s.2)

pub Seg-append :
    (h : Heap) (b : Ptr) (xs ys : Cells) (a : Ptr)
    → Seg h b xs (first ys a)
    → Seg h (last xs b) ys a
    → Seg h b (xs ++ ys) a
Seg-append h b [] ys a s t = t
Seg-append h b ((p, v) ∷ xs) ys a s t =
    (s.0, ground (arith, first-append xs ys a), Seg-append h p xs ys a s.2 t)

pub Seg-split :
    (h : Heap) (b : Ptr) (xs ys : Cells) (a : Ptr)
    → Seg h b (xs ++ ys) a
    → Seg h b xs (first ys a) × Seg h (last xs b) ys a
Seg-split h b [] ys a s = (tt, s)
Seg-split h b ((p, v) ∷ xs) ys a s =
    let r = Seg-split h p xs ys a s.2 in ((s.0, ground (arith, first-append xs ys a), r.0), r.1)

pub Distinct-split :
    (xs ys : Cells)
    → Distinct (xs ++ ys)
    → Distinct xs × Distinct ys × ((q : Ptr) → has q xs ≡ true → has q ys ≡ false)
Distinct-split [] ys d = (tt, d, λ q i. ground arith)
Distinct-split ((p, v) ∷ xs) ys d =
    let r = Distinct-split xs ys d.1 in
    (
      (ground (arith, has-append p xs ys), r.0),
      r.1,
      λ q i. ground (arith, has-append p xs ys, r.2 q),
    )

pub Distinct-append :
    (xs ys : Cells)
    → Distinct xs
    → Distinct ys
    → ((q : Ptr) → has q xs ≡ true → has q ys ≡ false)
    → Distinct (xs ++ ys)
Distinct-append [] ys dx dy apart = dy
Distinct-append ((p, v) ∷ xs) ys dx dy apart = (
  ground (arith, has-append p xs ys, apart p),
  Distinct-append xs ys dx.1 dy (λ q i. apart q (ground arith)),
)

-- The heaps that the two assignments `p->next = q` and `p->prev = q` leave.
abbrev pub next_to : Ptr → Option ListNode → Option ListNode
next_to q none = none
next_to q (some n) = some (record n { next = q })

abbrev pub prev_to : Ptr → Option ListNode → Option ListNode
prev_to q none = none
prev_to q (some n) = some (record n { prev = q })

pub ne_of_has : (p q : Ptr) (xs : Cells) → has p xs ≡ false → has q xs ≡ true → (p == q) ≡ false
ne_of_has p q xs out inside = ground arith

pub write-ne : (h : Heap) (p q : Ptr) (c : Option ListNode) → (p == q) ≡ false → write h q c p ≡ h p
unfolding write
write-ne h p q c e = rw e

-- Relinking the last node to a new successor.
pub Seg-set_next :
    (h : Heap) (b : Ptr) (xs : Cells) (a q : Ptr) (d : Ptr)
    → Distinct xs
    → (xs ≢ [])
    → Seg h b xs a
    → Seg (write h (last xs d) (next_to q (h (last xs d)))) b xs q
unfolding write
Seg-set_next h b [] a q d ds ne s = absurd (ne refl)
Seg-set_next h b ((p, v) ∷ []) a q d ds ne s = (s.0, ground arith, tt)
Seg-set_next h b ((p, v) ∷ (p', v') ∷ xs) a q d ds ne s = (
  s.0,
  write-ne h p _ _ (ne_of_has p _ ((p', v') ∷ xs) ds.0 (has-last p' v' xs p)) ∙ s.1,
  Seg-set_next h p ((p', v') ∷ xs) a q p ds.1 (ground arith) s.2,
)

-- Relinking the first node to a new predecessor.
pub Seg-set_prev :
    (h : Heap) (b : Ptr) (p v : Ptr) (xs : Cells) (a q : Ptr)
    → has p xs ≡ false
    → Seg h b ((p, v) ∷ xs) a
    → Seg (write h p (prev_to q (h p))) q ((p, v) ∷ xs) a
unfolding write
Seg-set_prev h b p v xs a q out s =
    (s.0, ground arith, Seg-frame h _ p xs a (λ r i. ground arith) s.2)
