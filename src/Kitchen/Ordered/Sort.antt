-- ===== src/Kitchen/Ordered/Sort.antt =====
-- The sort of `lock_appliances`: the result ascends and has the same appliances.
use os_coursework.Prelude.{
  ℕ, zero, suc, ◌+◌, ◌-◌, ◌≤◌, ◌<◌, ◌≡◌, refl, true, false, List, [], ◌∷◌, length, ltb, elem, All,
  arith, Bool-cases, inl, inr, ap, All-mem,
}
use os_coursework.Kitchen.Ordered.{inner, outer, sort_appliances}

abbrev pub Ascending : List ℕ → Type 0
Ascending [] = Unit
Ascending (x ∷ xs) = All (λ y. x < y) xs × Ascending xs

abbrev pub Distinct : List ℕ → Type 0
Distinct [] = Unit
Distinct (x ∷ xs) = (elem x xs ≡ false) × Distinct xs

-- What the inner loop gives: the least element, and the others.
record IsPick (x : ℕ) (ys : List ℕ) (m : ℕ) (r : List ℕ) : Type 0 where
  least : m ≤ x
  above : All (λ y. m < y) r
  distinct : Distinct r
  same : (a : ℕ) → elem a (m ∷ r) ≡ elem a (x ∷ ys)
  size : length r ≡ length ys

inner-IsPick :
    (x : ℕ) (ys : List ℕ)
    → elem x ys ≡ false
    → Distinct ys
    → IsPick x ys (inner x ys).0 (inner x ys).1
unfolding inner
inner-IsPick x [] new dist = record {
  least = omega arith;
  above = tt;
  distinct = tt;
  same = λ a. refl;
  size = refl;
}
inner-IsPick x (y ∷ ys) new dist = elim (Bool-cases (ltb y x)) [
  | inl lt ↦
      let ih = inner-IsPick y ys dist.0 dist.1 in
      rw lt (record {
        least = ground (arith, ih.least);
        above = (ground (arith, ih.least), ih.above);
        distinct = (ground (arith, ih.same x), ih.distinct);
        same = λ a. ground (arith, ih.same a);
        size = ground (arith, ih.size);
      })
  | inr ge ↦
      let ih = inner-IsPick x ys (ground arith) dist.1 in
      rw ge (record {
        least = ih.least;
        above = (ground (arith, ih.least), ih.above);
        distinct = (ground (arith, ih.same y), ih.distinct);
        same = λ a. ground (arith, ih.same a);
        size = ground (arith, ih.size);
      })
]

-- What holds of a list holds of any part of it.
pub All-of_elem :
    (P : ℕ → Type 0) (xs ys : List ℕ)
    → ((a : ℕ) → elem a ys ≡ true → elem a xs ≡ true)
    → All P xs
    → All P ys
All-of_elem P xs [] sub h = tt
All-of_elem P xs (y ∷ ys) sub h =
    (All-mem P xs y h (sub y (ground arith)), All-of_elem P xs ys (λ a e. sub a (ground arith)) h)

outer-Ascending :
    (k : ℕ) (xs : List ℕ)
    → length xs ≤ k + 1
    → Distinct xs
    → Ascending (outer k xs) × ((a : ℕ) → elem a (outer k xs) ≡ elem a xs)
unfolding outer
outer-Ascending zero [] few dist = (tt, λ a. refl)
outer-Ascending zero (x ∷ []) few dist = ((tt, tt), λ a. refl)
outer-Ascending zero (x ∷ y ∷ xs) few dist = absurd (omega arith)
outer-Ascending (suc k) [] few dist = (tt, λ a. refl)
outer-Ascending (suc k) (x ∷ xs) few dist =
    let pick = inner-IsPick x xs dist.0 dist.1 in
    let (asc, same) = outer-Ascending k (inner x xs).1 (omega (arith, pick.size)) pick.distinct in
    (
      (
        All-of_elem (λ y. (inner x xs).0 < y) (inner x xs).1 _ (λ a e. ground (arith, same a))
            pick.above,
        asc,
      ),
      λ a. ground (arith, same a, pick.same a),
    )

-- Of appliances that differ, the sort gives an ascending list of the same appliances.
pub sort_appliances-Ascending :
    (xs : List ℕ)
    → Distinct xs
    → Ascending (sort_appliances xs) × ((a : ℕ) → elem a (sort_appliances xs) ≡ elem a xs)
unfolding sort_appliances
sort_appliances-Ascending xs dist = outer-Ascending (length xs - 1) xs (omega arith) dist

inner-above : (x : ℕ) (ys : List ℕ) → All (λ y. x < y) ys → (inner x ys ≡ (x, ys))
unfolding inner
inner-above x [] h = refl
inner-above x (y ∷ ys) h = ground (arith, inner-above x ys h.1)

outer-Ascending_same : (k : ℕ) (xs : List ℕ) → Ascending xs → outer k xs ≡ xs
unfolding outer
outer-Ascending_same zero xs h = refl
outer-Ascending_same (suc k) [] h = refl
outer-Ascending_same (suc k) (x ∷ xs) h =
    rw (inner-above x xs h.0) (ap (x ∷◌) (outer-Ascending_same k xs h.1))

-- From the second round on the array is sorted, and the sort leaves it as it is.
sort_appliances_again :
    (xs : List ℕ) → Distinct xs → sort_appliances (sort_appliances xs) ≡ sort_appliances xs
unfolding sort_appliances
sort_appliances_again xs dist =
    outer-Ascending_same _ (sort_appliances xs) (sort_appliances-Ascending xs dist).0
