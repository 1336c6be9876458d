-- ===== src/LinkedList.antt =====
-- 03/linked_list.c: a circular doubly linked list of pointers, on an explicit heap of nodes.
-- `calloc` enters as an argument: the address that it returns, or `null`.
mod Examples
pub mod Insert
pub mod Iterate
pub mod Order
pub mod Relink
pub mod Remove
pub mod Unlink
pub mod Ring
pub mod Segment
use homework_module.Prelude.{
  ℕ, zero, suc, Bool, true, false, not, ◌&&◌, Option, none, some, ◌==◌, if◌then◌else◌, fault,
  out_of_fuel, ok, Cmd, pure, ◌>>=◌, ◌>>◌,
}
use homework_module.Prelude.Int.{ℤ, negsuc, is_negative}

abbrev pub Ptr : Type 0
Ptr = ℕ

abbrev pub null : Ptr
null = 0

-- `void *value` is an address too.
pub record ListNode : Type 0 where
  pub value : Ptr
  pub prev : Ptr
  pub next : Ptr

abbrev pub list_node : Ptr → Ptr → Ptr → ListNode
list_node v p n = record { value = v; prev = p; next = n }

abbrev pub Heap : Type 0
Heap = Ptr → Option ListNode

unfoldable pub write : Heap → Ptr → Option ListNode → Heap
write h p c a = if a == p then c else h a

-- `*p`: a fault at NULL and at an address that holds no node.
unfoldable pub load : Ptr → Cmd Heap ListNode
load p h = if p == null then fault else elim (h p) [ none ↦ fault | some n ↦ ok (n, h) ]

unfoldable pub store : Ptr → Option ListNode → Cmd Heap (Unit {0})
store p c h = ok (tt, write h p c)

unfoldable pub set_next : Ptr → Ptr → Cmd Heap (Unit {0})
unfolding load store
set_next p q = do n ← load p; store p (some (record n { next = q }))

unfoldable pub set_prev : Ptr → Ptr → Cmd Heap (Unit {0})
unfolding load store
set_prev p q = do n ← load p; store p (some (record n { prev = q }))

unfoldable pub free : Ptr → Cmd Heap (Unit {0})
unfolding load store
free p = do _ ← load p; store p none

-- The result of `cmp` is an `int`, of which the list reads only `< 0`.
abbrev pub CmpFunc : Type 0
CmpFunc = Ptr → Ptr → ℤ

pub record LinkedList : Type 0 where
  pub head : Ptr
  pub cmp : CmpFunc

unfoldable pub default_cmp : CmpFunc
default_cmp left right = negsuc 0

unfoldable pub list_create : Option CmpFunc → LinkedList
unfolding default_cmp
list_create none = record { head = null; cmp = default_cmp }
list_create (some cmp) = record { head = null; cmp = cmp }

-- `calloc` gives a zeroed node at `fresh`; the first assignment faults where that is NULL.
unfoldable pub create_node : (fresh : Ptr) → Ptr → Cmd Heap Ptr
unfolding store
create_node fresh value =
    if fresh == null
    then (λ _. fault)
    else do store fresh (some (list_node value fresh fresh)); pure fresh

unfoldable pub insert_between : (prev next insert : Ptr) → Cmd Heap (Unit {0})
unfolding set_prev set_next
insert_between prev next insert = do
  set_prev insert prev
  set_next insert next
  set_next prev insert
  set_prev next insert

-- The `do … while (cur != list->head)` loop of `list_insert`, with the append behind it.
unfoldable pub insert_loop : ℕ → LinkedList → (value node cur : Ptr) → Cmd Heap (Unit {0})
unfolding load insert_between
insert_loop zero list value node cur = λ _. out_of_fuel
insert_loop (suc fuel) list value node cur = do
  c ← load cur
  if is_negative (list.cmp value c.value) then insert_between c.prev cur node else do
    if c.next == list.head
        then (do e ← load list.head; insert_between e.prev list.head node)
        else insert_loop fuel list value node c.next

-- `fuel` bounds the walk round the ring; the list returned is `*list` afterwards.
unfoldable pub list_insert :
    (fuel : ℕ) (fresh : Ptr) → Option LinkedList → Ptr → Cmd Heap (Option LinkedList)
unfolding create_node load insert_between insert_loop
list_insert fuel fresh none value = pure none
list_insert fuel fresh (some list) value = do
  node ← create_node fresh value
  if list.head == null then pure (some (record list { head = node })) else do
    h ← load list.head
    if is_negative (list.cmp value h.value)
        then (do insert_between h.prev list.head node; pure (some (record list { head = node })))
        else (do insert_loop fuel list value node list.head; pure (some list))

-- The value that was held, and the list with its new head.
unfoldable pub remove_node : LinkedList → Ptr → Cmd Heap (Ptr × LinkedList)
unfolding load set_next set_prev free
remove_node list node = do
  n ← load node
  if (list.head == node) && (n.next == node)
      then (do free list.head; pure (n.value, record list { head = null }))
      else (do
        let head' = if list.head == node then n.next else list.head
        set_next n.prev n.next
        set_prev n.next n.prev
        free node
        pure (n.value, record list { head = head' }))

-- The loop of `list_remove_value`: `cur->next` is read before the node may be freed, and the test
-- `cur != list->head` reads the head after it.
unfoldable pub remove_loop : ℕ → LinkedList → (value cur : Ptr) → Cmd Heap LinkedList
unfolding load remove_node
remove_loop zero list value cur = λ _. out_of_fuel
remove_loop (suc fuel) list value cur = do
  c ← load cur
  list' ← if c.value == value then (do r ← remove_node list cur; pure r.1) else pure list
  if c.next == list'.head then pure list' else remove_loop fuel list' value c.next

-- Returns 1 (`true`) whether or not the value was there.
unfoldable pub list_remove_value :
    (fuel : ℕ) → Option LinkedList → Ptr → Cmd Heap (Bool × Option LinkedList)
unfolding remove_loop
list_remove_value fuel none value = pure (false, none)
list_remove_value fuel (some list) value =
    if list.head == null
    then pure (false, some list)
    else do list' ← remove_loop fuel list value list.head; pure (true, some list')

-- The iterator holds the list that its pointer leads to; `it_remove_current` changes that list.
pub record ListIterator : Type 0 where
  pub list : Option LinkedList
  pub current : Ptr

unfoldable pub it_begin : Option LinkedList → ListIterator
it_begin none = record { list = none; current = null }
it_begin (some list) = record { list = some list; current = list.head }

unfoldable pub it_current : ListIterator → Cmd Heap Ptr
unfolding load
it_current it = if it.current == null then pure null else do c ← load it.current; pure c.value

next_in : Option LinkedList → ListIterator → Cmd Heap (Ptr × ListIterator)
unfolding load
next_in none it = pure (null, it)
next_in (some list) it = if it.current == null then pure (null, it) else do
  c ← load it.current
  pure (c.value, record it { current = if c.next == list.head then null else c.next })

unfoldable pub it_next : ListIterator → Cmd Heap (Ptr × ListIterator)
unfolding next_in
it_next it = next_in it.list it

unfoldable pub it_has_next : ListIterator → Bool
it_has_next it = not (it.current == null)

remove_in : Option LinkedList → ListIterator → Cmd Heap (Ptr × ListIterator)
unfolding load remove_node
remove_in none it = pure (null, it)
remove_in (some list) it = if it.current == null then pure (null, it) else do
  c ← load it.current
  r ← remove_node list it.current
  pure (r.0, record { list = some r.1; current = if r.1.head == null then null else c.next })

unfoldable pub it_remove_current : ListIterator → Cmd Heap (Ptr × ListIterator)
unfolding remove_in
it_remove_current it = remove_in it.list it
