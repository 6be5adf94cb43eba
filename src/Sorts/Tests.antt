-- ===== src/Sorts/Tests.antt =====
-- Examples for exercises/ex15.
use os_coursework.Prelude.{
  ℕ, ◌≡◌, ◌≤◌, ◌-◌, refl, Option, none, some, List, [], ◌∷◌, map, if◌then◌else◌, ◌==◌, arith,
}
use os_coursework.Prelude.Nodes.{occurrences, Linked, last}
use os_coursework.Sorts.{swap, partition, sort_array, sort_linked}
use os_coursework.Sorts.Order.{Same, Ascending}
use os_coursework.Sorts.Array.{sort_array-sort_linked}
use os_coursework.Sorts.Nodes.{
  Ends, sort_nodes, make_list, append_node, distribute_nodes, join_nodes, print_list, main,
}
use os_coursework.Sorts.Nodes.Loop.{IsList, tail_of}
use os_coursework.Sorts.Nodes.Laws.{SortsNodes, sort_nodes-SortsNodes}
use os_coursework.Sorts.Nodes.Main.{up_to, main-Ascending}

abbrev values : List ℕ
values = 5 ∷ 9 ∷ 2 ∷ 7 ∷ 2 ∷ []

sort_array-sort_linked_example :
    Ascending (sort_array 5 values)
    × Same values (sort_array 5 values)
    × (sort_array 5 values ≡ sort_linked 5 values)
sort_array-sort_linked_example = sort_array-sort_linked 5 values (omega arith)

sorted_values : sort_array 5 values ≡ 2 ∷ 2 ∷ 5 ∷ 7 ∷ 9 ∷ []
unfolding sort_array partition swap
sorted_values = refl

-- Three nodes, of which the middle one has the smallest address.
abbrev some_next : ℕ → Option ℕ
some_next n = if n == 0 then some 7 else if n == 4 then some 0 else none

abbrev some_list : Ends
some_list = record { head = some 4; tail = some 7 }

some_list-IsList : IsList some_next some_list (4 ∷ 0 ∷ 7 ∷ [])
unfolding Linked tail_of last
some_list-IsList = record { linked = (refl, (refl, (refl, refl))); tail_last = refl }

some_list-once : (b : ℕ) → occurrences b (4 ∷ 0 ∷ 7 ∷ []) ≤ 1
unfolding occurrences
some_list-once b = ground arith

sort_nodes-SortsNodes_example :
    SortsNodes 4
      (λ n. 10 - n)
      some_next
      (4 ∷ 0 ∷ 7 ∷ [])
      (sort_nodes 4 (λ n. 10 - n) some_list some_next)
sort_nodes-SortsNodes_example =
    sort_nodes-SortsNodes 4 (λ n. 10 - n) (4 ∷ 0 ∷ 7 ∷ []) some_list some_next (omega arith)
      some_list-IsList some_list-once

main-Ascending_example :
    (items : List ℕ) × (main (λ n. 10 - n) 3 ≡ some items)
    × Ascending items
    × Same (map (λ n. 10 - n) (up_to 3)) items
main-Ascending_example = main-Ascending (λ n. 10 - n) 3

printed : main (λ n. 10 - n) 3 ≡ some (8 ∷ 9 ∷ 10 ∷ [])
unfolding main make_list append_node sort_nodes distribute_nodes join_nodes print_list
printed = refl
