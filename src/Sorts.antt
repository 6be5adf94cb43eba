-- ===== src/Sorts.antt =====
-- exercises/ex15: the quicksort of array.c on an array, and that of linked.c on a linked list.
mod Order
mod Linked
mod Partition
mod Array
mod Nodes
mod Tests
use os_coursework.Prelude.{
  ℕ, zero, suc, ◌+◌, ◌-◌, Bool, true, false, List, [], ◌∷◌, ◌++◌, if◌then◌else◌, ltb, leb, length,
  get_or, set, take, drop,
}

-- `int temp = seq[ j ]; seq[ j ] = seq[ i ]; seq[ i ] = temp;`
unfoldable pub swap : List ℕ → ℕ → ℕ → List ℕ
swap seq j i = set (set seq j (get_or seq i 0)) i (get_or seq j 0)

-- The partition loop of array.c, `n` rounds from `i`, with `lower`.
unfoldable pub partition : ℕ → ℕ → ℕ → ℕ → List ℕ → ℕ × List ℕ
partition zero pivot i lower seq = (lower, seq)
partition (suc n) pivot i lower seq =
    if ltb (get_or seq i 0) pivot
    then partition n pivot (i + 1) (lower + 1) (swap seq (lower + 1) i)
    else partition n pivot (i + 1) lower seq

-- `sort` of array.c, with fuel for its depth. The two calls work on parts of the array that do not
-- meet.
unfoldable pub sort_array : ℕ → List ℕ → List ℕ
sort_array zero seq = seq
sort_array (suc fuel) seq =
    if leb (length seq) 1
    then seq
    else (let pivot = get_or seq 0 0 in
        let p = partition (length seq - 1) pivot 1 0 seq in
        let middle = set (set p.1 0 (get_or p.1 p.0 0)) p.0 pivot in
        sort_array fuel (take p.0 middle)
        ++ get_or middle p.0 0 ∷ sort_array fuel (drop (p.0 + 1) middle))

-- The loop of linked.c over the nodes behind the pivot: each goes to the tail of `lesser` or of
-- `greater`. A list is the values of its nodes in order.
unfoldable pub distribute : ℕ → List ℕ → List ℕ → List ℕ → List ℕ × List ℕ
distribute pivot [] lesser greater = (lesser, greater)
distribute pivot (val ∷ curr) lesser greater =
    if ltb val pivot
    then distribute pivot curr (lesser ++ val ∷ []) greater
    else distribute pivot curr lesser (greater ++ val ∷ [])

-- `sort` of linked.c.
unfoldable pub sort_linked : ℕ → List ℕ → List ℕ
sort_linked zero list = list
sort_linked (suc fuel) [] = []
sort_linked (suc fuel) (pivot ∷ list) =
    let parts = distribute pivot list [] [] in
    sort_linked fuel parts.0 ++ pivot ∷ sort_linked fuel parts.1
