-- ===== src/LinkedList/Examples.antt =====
-- A list of two nodes, and the theorems about 03/linked_list.c at it.
use mathlib.Core.List.{Perm}
use homework_module.Prelude.{◌≡◌, refl, true, none, some, [], ◌∷◌, arith, ◌==◌, if◌then◌else◌, Ends}
use homework_module.Prelude.Int.{sub_ℕ}
use homework_module.LinkedList.{
  CmpFunc, Heap, LinkedList, list_node, list_insert, list_remove_value,
}
use homework_module.LinkedList.Segment.{Cells}
use homework_module.LinkedList.Insert.{IsList, insert_sorted, list_insert-IsList}
use homework_module.LinkedList.Remove.{drop_value, list_remove_value-IsList}
use homework_module.LinkedList.Order.{IsOrder, IsSorted, list_insert-IsSorted}

abbrev two_nodes : Heap
two_nodes a =
    if a == 1 then some (list_node 10 2 2) else if a == 2 then some (list_node 20 1 1) else none

abbrev by_value : CmpFunc
by_value a b = sub_ℕ a b

abbrev two : LinkedList
two = record { head = 1; cmp = by_value }

abbrev cells : Cells
cells = (1, 10) ∷ (2, 20) ∷ []

two-IsList : IsList two_nodes two cells
two-IsList = record {
  ring = record {
    distinct = (refl, (refl, tt));
    linked = (λ e. omega arith, refl, (λ e. omega arith, refl, tt));
  };
  head = refl;
}

by_value-IsOrder : IsOrder by_value
by_value-IsOrder = record { irrefl = λ a. ground arith; trans = λ a b c p q. ground arith }

cells-IsSorted : IsSorted by_value cells
cells-IsSorted = ((refl, tt), (tt, tt))

list_insert-IsList_example : Ends (list_insert 2 3 (some two) 15 two_nodes) (λ r g.
    (l' : LinkedList) × (r ≡ some l')
    × (l'.cmp ≡ by_value)
    × IsList g l' (insert_sorted by_value 3 15 cells))
list_insert-IsList_example =
    list_insert-IsList 2 two_nodes 3 15 two cells (λ e. omega arith) refl two-IsList (omega arith)

-- The new cell stands between the two.
insert_sorted_middle : insert_sorted by_value 3 15 cells ≡ (1, 10) ∷ (3, 15) ∷ (2, 20) ∷ []
unfolding insert_sorted
insert_sorted_middle = refl

list_insert-IsSorted_example : Ends (list_insert 2 3 (some two) 15 two_nodes) (λ r g.
    (l' : LinkedList) × (ys : Cells) × (r ≡ some l')
    × IsList g l' ys
    × IsSorted by_value ys
    × Perm ys ((3, 15) ∷ cells))
list_insert-IsSorted_example =
    list_insert-IsSorted 2 two_nodes 3 15 two cells (λ e. omega arith) refl two-IsList (omega arith)
      by_value-IsOrder cells-IsSorted

list_remove_value-IsList_example : Ends (list_remove_value 2 (some two) 10 two_nodes) (λ r g.
    (l' : LinkedList) × (r ≡ (true, some l'))
    × (l'.cmp ≡ by_value)
    × IsList g l' (drop_value 10 cells))
list_remove_value-IsList_example =
    list_remove_value-IsList 2 two_nodes two 10 cells two-IsList (omega arith) refl refl
      (omega arith)
