-- ===== src/Sorts/Nodes/Main.antt =====
-- exercises/ex15/linked.c: the program prints its values in order.
use os_coursework.Prelude.{
  ℕ, zero, suc, ◌+◌, ◌≤◌, ◌≡◌, refl, sym, ap, subst, ◌∙◌, Option, none, some, List, [], ◌∷◌, ◌++◌,
  map, length, length-append, update, arith,
}
use os_coursework.Prelude.Nodes.{occurrences, Linked, occurrences-append, update-same, update-other}
use os_coursework.Sorts.Order.{times, Same, Ascending}
use os_coursework.Sorts.Linked.{sort_linked-Ascending}
use os_coursework.Sorts.Nodes.{Next, make_list, print_list, main}
use os_coursework.Sorts.Nodes.Loop.{tail_of, IsList, IsList-frame, in-apart, append_node-IsList}
use os_coursework.Sorts.Nodes.Laws.{sort_nodes-SortsNodes}

-- The nodes that `main` makes, in order.
abbrev pub up_to : ℕ → List ℕ
up_to zero = []
up_to (suc n) = up_to n ++ n ∷ []

up_to-absent : (n b : ℕ) → n ≤ b → occurrences b (up_to n) ≡ 0
unfolding occurrences
up_to-absent zero b le = refl
up_to-absent (suc n) b le =
    ground (arith, up_to-absent n b, occurrences-append b (up_to n) (n ∷ []))

up_to-once : (n b : ℕ) → occurrences b (up_to n) ≤ 1
unfolding occurrences
up_to-once zero b = omega arith
up_to-once (suc n) b =
    ground (arith, up_to-once n b, up_to-absent n b, occurrences-append b (up_to n) (n ∷ []))

length-up_to : (n : ℕ) → length (up_to n) ≡ n
length-up_to zero = refl
length-up_to (suc n) = omega (arith, length-up_to n, length-append (up_to n) (n ∷ []))

make_list-IsList : (n : ℕ) → IsList (make_list n).1 (make_list n).0 (up_to n)
unfolding make_list tail_of Linked
make_list-IsList zero = record { linked = refl; tail_last = refl }
make_list-IsList (suc n) =
    let absent = up_to-absent n n (omega arith) in
    (append_node-IsList n (make_list n).0 (up_to n) (update (make_list n).1 n none)
      (IsList-frame (make_list n).1 (update (make_list n).1 n none) (make_list n).0 (up_to n)
        (λ b lt. update-other (make_list n).1 n b none (in-apart n b (up_to n) absent lt))
        (make_list-IsList n))
      (update-same (make_list n).1 n none) (up_to-once n) absent).0

print_list-Linked :
    (val : ℕ → ℕ) (next : Next) (p : Option ℕ) (fuel : ℕ) (nodes : List ℕ)
    → length nodes ≤ fuel
    → Linked next p nodes
    → print_list fuel val next p ≡ some (map val nodes)
unfolding print_list Linked
print_list-Linked val next p fuel [] le h = rw h refl
print_list-Linked val next p zero (a ∷ nodes) le h = absurd (omega arith)
print_list-Linked val next p (suc fuel) (a ∷ nodes) le (e, h) =
    rw (e, print_list, print_list-Linked val next (next a) fuel nodes (omega arith) h) refl

length-map : (f : ℕ → ℕ) (xs : List ℕ) → length (map f xs) ≡ length xs
length-map f [] = refl
length-map f (x ∷ xs) = ap suc (length-map f xs)

-- The program ends, follows no NULL, and prints the values of its nodes in ascending order, each as
-- often as a node has it.
pub main-Ascending :
    (val : ℕ → ℕ) (n : ℕ)
    → (items : List ℕ) × (main val n ≡ some items)
      × Ascending items
      × Same (map val (up_to n)) items
unfolding main
main-Ascending val n =
    let r =
      sort_nodes-SortsNodes (n + 1) val (up_to n) (make_list n).0 (make_list n).1
        (omega (arith, length-up_to n)) (make_list-IsList n) (up_to-once n) in
    let (ascending, same) =
      sort_linked-Ascending (n + 1) (map val (up_to n))
        (omega (arith, length-map val (up_to n), length-up_to n)) in
    (
      map val r.order,
      rw (main, r.done)
          (print_list-Linked val r.after.1 r.after.0.head n r.order
            (omega (arith, r.size, length-up_to n)) r.list.linked),
      subst Ascending (sym r.values) ascending,
      λ x. same x ∙ ap (times x) (sym r.values),
    )
