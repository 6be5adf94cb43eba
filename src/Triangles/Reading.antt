-- ===== src/Triangles/Reading.antt =====
-- assignments/hw4/triangles-sem.c: how many values `readList` takes.
use os_coursework.Prelude.{
  ℕ, ◌+◌, ◌≤◌, ◌<◌, ◌≡◌, sym, ap, ◌∙◌, true, false, List, [], ◌∷◌, ◌++◌, length, length-append, ltb,
  arith,
}
use mathlib.Core.List.{append_assoc, append-nil}
use os_coursework.Triangles.Sem.{max_values, values, undefined, read_list}

read_list-few :
    (v_list input : List ℕ)
    → length v_list + length input ≤ max_values
    → read_list v_list input ≡ values (v_list ++ input)
unfolding read_list
read_list-few v_list [] le = ap values (sym (append-nil v_list))
read_list-few v_list (v ∷ input) le =
    let room : ltb (length v_list) max_values ≡ true = ground arith in
    let few : ltb max_values (length v_list) ≡ false = ground arith in
    rw (few, room)
      (read_list-few (v_list ++ v ∷ []) input (omega (arith, length-append v_list (v ∷ [])))
        ∙ ap values (append_assoc v_list (v ∷ []) input))

read_list-many :
    (v_list input : List ℕ)
    → length v_list ≤ max_values
    → max_values < length v_list + length input
    → read_list v_list input ≡ undefined
unfolding read_list
read_list-many v_list [] le lt = absurd (omega arith)
read_list-many v_list (v ∷ input) le lt =
    let rest = read_list-many (v_list ++ v ∷ []) input in
    let size = length-append v_list (v ∷ []) in ground (arith, rest, size)

-- `readList` takes up to 10000 values, in order. One more is written behind the array: `fail` is never
-- reached.
read_list-max_values :
    (input : List ℕ)
    → (length input ≤ max_values → read_list [] input ≡ values input)
      × (max_values < length input → read_list [] input ≡ undefined)
read_list-max_values input = (
  λ le. read_list-few [] input (omega arith),
  λ lt. read_list-many [] input (omega arith) (omega arith),
)
