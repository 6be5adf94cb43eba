-- ===== src/Sorts/Nodes.antt =====
-- exercises/ex15/linked.c as it works on its nodes: a node is its address, `next` is the store of the
-- pointers, and the values do not change. `none` is a NULL that is followed, or no fuel left.
pub mod Loop
pub mod Laws
pub mod Main
use os_coursework.Prelude.{
  ℕ, zero, suc, ◌+◌, Option, none, some, List, [], ◌∷◌, true, false, ltb, update,
}

abbrev pub Next : Type 0
Next = ℕ → Option ℕ

-- `List`.
pub record Ends : Type 0 where
  pub head : Option ℕ
  pub tail : Option ℕ

abbrev pub no_nodes : Ends
no_nodes = record { head = none; tail = none }

-- A node goes to the tail of a list.
unfoldable pub append_node : ℕ → Ends → Next → Ends × Next
append_node curr list next = elim list.tail [
  | some tail ↦ (record list { tail = some curr }, update next tail (some curr))
  | none ↦ (record { head = some curr; tail = some curr }, next)
]

-- The loop over the nodes, from `curr`: the lists `lesser` and `greater`.
unfoldable pub distribute_nodes :
    ℕ → (ℕ → ℕ) → ℕ → Option ℕ → Ends → Ends → Next → Option ((Ends × Ends) × Next)
distribute_nodes fuel val pivot none lesser greater next = some ((lesser, greater), next)
distribute_nodes zero val pivot (some curr) lesser greater next = none
distribute_nodes (suc fuel) val pivot (some curr) lesser greater next =
    let cut = update next curr none in
    elim (ltb (val curr) (val pivot)) [
      | true ↦
          let added = append_node curr lesser cut in
          distribute_nodes fuel val pivot (next curr) added.0 greater added.1
      | false ↦
          let added = append_node curr greater cut in
          distribute_nodes fuel val pivot (next curr) lesser added.0 added.1
    ]

-- Lesser + pivot + greater.
unfoldable pub join_nodes : ℕ → Ends → Ends → Next → Option (Ends × Next)
join_nodes pivot lesser greater next =
    let tail : Option ℕ = elim greater.tail [ some tail ↦ some tail | none ↦ some pivot ] in
    elim lesser.head [
      | none ↦ some (record { head = some pivot; tail = tail }, update next pivot greater.head)
      | some head ↦ elim lesser.tail [
        | none ↦ none
        | some last ↦ some (
          record { head = some head; tail = tail },
          update (update next last (some pivot)) pivot greater.head,
        )
      ]
    ]

-- `sort`, with fuel for its depth and for its loop.
unfoldable pub sort_nodes : ℕ → (ℕ → ℕ) → Ends → Next → Option (Ends × Next)
sort_nodes zero val list next = none
sort_nodes (suc fuel) val list next = elim list.head [
  | none ↦ some (list, next)
  | some pivot ↦ elim (next pivot) [
    | none ↦ some (list, next)
    | some curr ↦ elim (distribute_nodes fuel val pivot (some curr) no_nodes no_nodes next) [
      | none ↦ none
      | some parts ↦ elim (sort_nodes fuel val parts.0.0 parts.1) [
        | none ↦ none
        | some lesser ↦ elim (sort_nodes fuel val parts.0.1 lesser.1) [
          | none ↦ none
          | some greater ↦ join_nodes pivot lesser.0 greater.0 greater.1
        ]
      ]
    ]
  ]
]

-- The loop of `main` that makes `n` nodes. The nodes are numbered as `malloc` gives them.
unfoldable pub make_list : ℕ → Ends × Next
make_list zero = (no_nodes, λ _. none)
make_list (suc n) = let r = make_list n in append_node n r.0 (update r.1 n none)

-- The values that the loop over the sorted nodes prints.
unfoldable pub print_list : ℕ → (ℕ → ℕ) → Next → Option ℕ → Option (List ℕ)
print_list fuel val next none = some []
print_list zero val next (some n) = none
print_list (suc fuel) val next (some n) = elim (print_list fuel val next (next n)) [
  | none ↦ none
  | some items ↦ some (val n ∷ items)
]

-- `main` with `n` nodes, whose values `rand` gave.
unfoldable pub main : (ℕ → ℕ) → ℕ → Option (List ℕ)
main val n =
    let list = make_list n in
    elim (sort_nodes (n + 1) val list.0 list.1) [
      | none ↦ none
      | some sorted ↦ print_list n val sorted.1 sorted.0.head
    ]
