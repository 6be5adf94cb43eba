-- ===== src/Sorts/Array.antt =====
-- exercises/ex15/array.c: its quicksort sorts, and gives what that of linked.c gives.
use os_coursework.Prelude.{
  ℕ, zero, suc, ◌+◌, ◌-◌, ◌≤◌, ◌≡◌, refl, sym, ap, subst, ◌∙◌, false, inl, inr, ◌⊎◌, List, [], ◌∷◌,
  ◌++◌, All, leb, length, length-append, get_or, set, take, drop, arith,
}
use mathlib.Core.List.{append_assoc}
use os_coursework.Sorts.{sort_array, sort_linked}
use os_coursework.Sorts.Order.{
  times, times-append, Same, Ascending, Same-All, Ascending-append, Ascending-unique,
}
use os_coursework.Sorts.Linked.{sort_linked-Ascending}
use os_coursework.Sorts.Partition.{get_or-middle, set-middle, partition-Parts}

snoc_cases : (xs : List ℕ) → (xs ≡ []) ⊎ ((ys : List ℕ) × (y : ℕ) × (xs ≡ ys ++ y ∷ []))
snoc_cases [] = inl refl
snoc_cases (x ∷ xs) = elim (snoc_cases xs) [
  | inl none ↦ inr ([], x, ap (λ r. x ∷ r) none)
  | inr (ys, y, e) ↦ inr (x ∷ ys, y, ap (λ r. x ∷ r) e)
]

take-front : (k : ℕ) (xs ys : List ℕ) → k ≡ length xs → take k (xs ++ ys) ≡ xs
take-front zero [] ys e = refl
take-front zero (x ∷ xs) ys e = absurd (omega (arith, e))
take-front (suc k) [] ys e = absurd (omega (arith, e))
take-front (suc k) (x ∷ xs) ys e = ap (λ r. x ∷ r) (take-front k xs ys (omega (arith, e)))

drop-front : (k : ℕ) (xs ys : List ℕ) → k ≡ length xs → drop k (xs ++ ys) ≡ ys
drop-front zero [] ys e = refl
drop-front zero (x ∷ xs) ys e = absurd (omega (arith, e))
drop-front (suc k) [] ys e = absurd (omega (arith, e))
drop-front (suc k) (x ∷ xs) ys e = drop-front k xs ys (omega (arith, e))

-- The array with the pivot put between the two parts.
placed : ℕ → ℕ → List ℕ → List ℕ
placed pivot lower seq = set (set seq 0 (get_or seq lower 0)) lower pivot

placed-parts :
    (pivot : ℕ) (lows highs : List ℕ)
    → (first : List ℕ) × (placed pivot (length lows) (pivot ∷ (lows ++ highs))
        ≡ first ++ pivot ∷ highs)
      × Same lows first
      × (length first ≡ length lows)
unfolding placed
placed-parts pivot lows highs = elim (snoc_cases lows) [
  | inl none ↦
      subst
        (λ l.
          (first : List ℕ) × (set
              (set (pivot ∷ (l ++ highs)) 0 (get_or (pivot ∷ (l ++ highs)) (length l) 0)) (length l)
              pivot
            ≡ first ++ pivot ∷ highs)
          × Same l first
          × (length first ≡ length l))
        (sym none) ([], refl, (λ x. refl), refl)
  | inr (ls, l, e) ↦
      subst
        (λ l.
          (first : List ℕ) × (set
              (set (pivot ∷ (l ++ highs)) 0 (get_or (pivot ∷ (l ++ highs)) (length l) 0)) (length l)
              pivot
            ≡ first ++ pivot ∷ highs)
          × Same l first
          × (length first ≡ length l))
        (sym e)
        (let place : length (ls ++ l ∷ []) ≡ length (pivot ∷ ls) =
            omega (arith, length-append ls (l ∷ [])) in
          let shape : pivot ∷ ((ls ++ l ∷ []) ++ highs) ≡ (pivot ∷ ls) ++ l ∷ highs =
            ap (λ r. pivot ∷ r) (append_assoc ls (l ∷ []) highs) in
          (
            l ∷ ls,
            rw (shape, get_or-middle (length (ls ++ l ∷ [])) (pivot ∷ ls) l highs place)
                (ap (λ r. set (l ∷ r) (length (ls ++ l ∷ [])) pivot)
                    (append_assoc ls (l ∷ []) highs)
                  ∙ set-middle (length (ls ++ l ∷ [])) (l ∷ ls) l pivot highs place),
            (λ x. omega (arith, times-append x ls (l ∷ []))),
            omega (arith, length-append ls (l ∷ [])),
          ))
]

sort_array-step :
    (fuel pivot val : ℕ) (rest : List ℕ)
    → let seq = pivot ∷ val ∷ rest in
      (first : List ℕ) × (highs : List ℕ) × (sort_array (suc fuel) seq
        ≡ sort_array fuel first ++ pivot ∷ sort_array fuel highs)
      × All (λ a. a ≤ pivot) first
      × All (λ b. pivot ≤ b) highs
      × ((x : ℕ) → times x first + times x highs ≡ times x (val ∷ rest))
      × (length first + length highs ≡ length (val ∷ rest))
unfolding sort_array placed
sort_array-step fuel pivot val rest =
    let seq = pivot ∷ val ∷ rest in
    let r =
      partition-Parts pivot pivot (val ∷ rest) [] [] (length seq - 1) 1 0 (omega arith)
        (omega arith) refl tt tt in
    let (first, mid, same, size) = placed-parts pivot r.lows r.highs in
    let many : leb (length seq) 1 ≡ false = ground arith in
    let at_lower : length r.lows ≡ length first = omega (arith, size) in
    let step : sort_array (suc fuel) seq
        ≡ sort_array fuel first ++ pivot ∷ sort_array fuel r.highs =
      rw
        (
          sort_array,
          many,
          r.result,
          mid,
          take-front (length r.lows) first (pivot ∷ r.highs) at_lower,
          get_or-middle (length r.lows) first pivot r.highs at_lower,
          sym (append_assoc first (pivot ∷ []) r.highs),
          drop-front (length r.lows + 1) (first ++ pivot ∷ []) r.highs
              (omega (arith, at_lower, length-append first (pivot ∷ []))),
        )
        refl in
    (
      first,
      r.highs,
      step,
      Same-All (λ a. a ≤ pivot) r.lows first same r.low,
      r.high,
      (λ x. omega (arith, same x, r.same x)),
      omega (arith, size, r.size),
    )

-- With fuel for every value the result is ascending and has the same elements.
sort_array-Ascending :
    (fuel : ℕ) (seq : List ℕ)
    → length seq ≤ fuel
    → Ascending (sort_array fuel seq) × Same seq (sort_array fuel seq)
unfolding sort_array
sort_array-Ascending zero [] le = (tt, λ x. refl)
sort_array-Ascending zero (a ∷ seq) le = absurd (omega arith)
sort_array-Ascending (suc fuel) [] le = (tt, λ x. refl)
sort_array-Ascending (suc fuel) (a ∷ []) le = ((tt, tt), λ x. refl)
sort_array-Ascending (suc fuel) (pivot ∷ val ∷ rest) le =
    let (first, highs, step, low, high, same, size) = sort_array-step fuel pivot val rest in
    let (sorted, elements) = sort_array-Ascending fuel first (omega (arith, size)) in
    let (sorted', elements') = sort_array-Ascending fuel highs (omega (arith, size)) in
    (
      subst Ascending (sym step) (
          Ascending-append pivot (sort_array fuel first) (sort_array fuel highs) sorted sorted'
            (Same-All (λ a. a ≤ pivot) first _ elements low)
            (Same-All (λ b. pivot ≤ b) highs _ elements' high)),
      λ x. omega (
        arith,
        ap (times x) step,
        same x,
        elements x,
        elements' x,
        times-append x (sort_array fuel first) (pivot ∷ sort_array fuel highs),
      ),
    )

-- `sort` of array.c ends, within as many calls in each other as there are values, with an ascending
-- array that has the same values as often, and so gives what `sort` of linked.c makes of a list of
-- these values.
pub sort_array-sort_linked :
    (fuel : ℕ) (seq : List ℕ)
    → length seq ≤ fuel
    → Ascending (sort_array fuel seq)
      × Same seq (sort_array fuel seq)
      × (sort_array fuel seq ≡ sort_linked fuel seq)
sort_array-sort_linked fuel seq le =
    let (sorted, elements) = sort_array-Ascending fuel seq le in
    let (sorted', elements') = sort_linked-Ascending fuel seq le in
    (
      sorted,
      elements,
      Ascending-unique (sort_array fuel seq) (sort_linked fuel seq) sorted sorted'
          (λ x. sym (elements x) ∙ elements' x),
    )
