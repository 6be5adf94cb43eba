-- ===== src/Sorts/Linked.antt =====
-- exercises/ex15/linked.c: its quicksort sorts.
use os_coursework.Prelude.{
  ℕ, zero, suc, ◌+◌, ◌≤◌, ◌≡◌, refl, inl, inr, Bool-cases, List, [], ◌∷◌, ◌++◌, All, ltb, ltb→lt,
  length, length-append, arith,
}
use os_coursework.Sorts.{distribute, sort_linked}
use os_coursework.Sorts.Order.{
  times, times-append, Same, Ascending, Same-All, All-append, Ascending-append,
}

-- What the loop over the nodes keeps.
distribute_lem :
    (pivot : ℕ) (curr lesser greater : List ℕ)
    → All (λ a. a ≤ pivot) lesser
    → All (λ b. pivot ≤ b) greater
    → let parts = distribute pivot curr lesser greater in
      All (λ a. a ≤ pivot) parts.0
      × All (λ b. pivot ≤ b) parts.1
      × ((x : ℕ)
          → times x parts.0 + times x parts.1 ≡ times x lesser + times x greater + times x curr)
      × (length parts.0 + length parts.1 ≡ length lesser + length greater + length curr)
unfolding distribute
distribute_lem pivot [] lesser greater low high = (low, high, λ x. omega arith, omega arith)
distribute_lem pivot (val ∷ curr) lesser greater low high = elim (Bool-cases (ltb val pivot)) [
  | inl less ↦
      let r =
        distribute_lem pivot curr (lesser ++ val ∷ []) greater
          (All-append (λ a. a ≤ pivot) lesser (val ∷ []) low
            (omega (arith, ltb→lt val pivot less), tt))
          high in
      rw less (
        r.0,
        r.1,
        λ x. omega (arith, r.2 x, times-append x lesser (val ∷ [])),
        omega (arith, r.3, length-append lesser (val ∷ [])),
      )
  | inr not_less ↦
      let r =
        distribute_lem pivot curr lesser (greater ++ val ∷ []) low
          (All-append (λ b. pivot ≤ b) greater (val ∷ []) high (ground (arith, not_less), tt)) in
      rw not_less (
        r.0,
        r.1,
        λ x. omega (arith, r.2 x, times-append x greater (val ∷ [])),
        omega (arith, r.3, length-append greater (val ∷ [])),
      )
]

-- With fuel for every node the result is ascending and has the same elements.
pub sort_linked-Ascending :
    (fuel : ℕ) (list : List ℕ)
    → length list ≤ fuel
    → Ascending (sort_linked fuel list) × Same list (sort_linked fuel list)
unfolding sort_linked
sort_linked-Ascending zero [] le = (tt, λ x. refl)
sort_linked-Ascending zero (a ∷ list) le = absurd (omega arith)
sort_linked-Ascending (suc fuel) [] le = (tt, λ x. refl)
sort_linked-Ascending (suc fuel) (pivot ∷ list) le =
    let parts = distribute pivot list [] [] in
    let (low, high, same, size) = distribute_lem pivot list [] [] tt tt in
    let (sorted, elements) = sort_linked-Ascending fuel parts.0 (omega (arith, size)) in
    let (sorted', elements') = sort_linked-Ascending fuel parts.1 (omega (arith, size)) in
    (
      Ascending-append pivot (sort_linked fuel parts.0) (sort_linked fuel parts.1) sorted sorted'
          (Same-All (λ a. a ≤ pivot) parts.0 _ elements low)
          (Same-All (λ b. pivot ≤ b) parts.1 _ elements' high),
      λ x. omega (
        arith,
        same x,
        elements x,
        elements' x,
        times-append x (sort_linked fuel parts.0) (pivot ∷ sort_linked fuel parts.1),
      ),
    )
