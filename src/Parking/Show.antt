-- ===== src/Parking/Show.antt =====
-- The listing of `show` in assignments/hw6/parkingServer.c.
use os_coursework.Prelude.{
  ℕ, zero, suc, ◌+◌, ◌-◌, ◌≤◌, ◌≡◌, refl, ap, ◌∙◌, ◌&&◌, Bool, List, [], ◌∷◌, if◌then◌else◌, ltb,
  Bool-cases, inl, inr, All, arith, length,
}
use os_coursework.Parking.{ParkingRecord, in_use, exchange, sort_rounds, sorted_copy}

-- Arrival times that do not fall.
abbrev Sorted : List ParkingRecord → Type 0
Sorted [] = Unit
Sorted (x ∷ xs) = All (λ y. x.arrival_time ≤ y.arrival_time) xs × Sorted xs

-- How many records satisfy a test.
unfoldable pub tally : (ParkingRecord → Bool) → List ParkingRecord → ℕ
tally p [] = 0
tally p (x ∷ xs) = (if p x then 1 else 0) + tally p xs

record IsPick (x : ParkingRecord) (ys : List ParkingRecord) (m : ParkingRecord)
    (r : List ParkingRecord) : Type 0 where
  least : m.arrival_time ≤ x.arrival_time
  above : All (λ y. m.arrival_time ≤ y.arrival_time) r
  same : (p : ParkingRecord → Bool) → tally p (m ∷ r) ≡ tally p (x ∷ ys)
  size : length r ≡ length ys

exchange-IsPick :
    (x : ParkingRecord) (ys : List ParkingRecord) → IsPick x ys (exchange x ys).0 (exchange x ys).1
unfolding exchange tally
exchange-IsPick x [] = record { least = omega arith; above = tt; same = λ p. refl; size = refl }
exchange-IsPick x (y ∷ ys) = elim (Bool-cases (ltb y.arrival_time x.arrival_time)) [
  | inl lt ↦
      let ih = exchange-IsPick y ys in
      rw lt (record {
        least = ground (arith, ih.least);
        above = (ground (arith, ih.least), ih.above);
        same = λ p. omega (arith, ih.same p);
        size = ap suc ih.size;
      })
  | inr ge ↦
      let ih = exchange-IsPick x ys in
      rw ge (record {
        least = ih.least;
        above = (ground (arith, ih.least), ih.above);
        same = λ p. omega (arith, ih.same p);
        size = ap suc ih.size;
      })
]

-- What holds of all records holds of them in any order that the loops make.
exchange-All :
    (P : ParkingRecord → Type 0) (x : ParkingRecord) (ys : List ParkingRecord)
    → P x
    → All P ys
    → P (exchange x ys).0 × All P (exchange x ys).1
unfolding exchange
exchange-All P x [] h hs = (h, tt)
exchange-All P x (y ∷ ys) h hs = elim (Bool-cases (ltb y.arrival_time x.arrival_time)) [
  | inl lt ↦ let (m, r) = exchange-All P y ys hs.0 hs.1 in rw lt (m, (h, r))
  | inr ge ↦ let (m, r) = exchange-All P x ys h hs.1 in rw ge (m, (hs.0, r))
]

sort_rounds-All :
    (P : ParkingRecord → Type 0) (k : ℕ) (xs : List ParkingRecord)
    → All P xs
    → All P (sort_rounds k xs)
unfolding sort_rounds
sort_rounds-All P zero xs h = h
sort_rounds-All P (suc k) [] h = h
sort_rounds-All P (suc k) (x ∷ xs) h =
    let (m, r) = exchange-All P x xs h.0 h.1 in (m, sort_rounds-All P k (exchange x xs).1 r)

sort_rounds-Sorted :
    (k : ℕ) (xs : List ParkingRecord)
    → length xs ≤ k + 1
    → Sorted (sort_rounds k xs)
      × ((p : ParkingRecord → Bool) → tally p (sort_rounds k xs) ≡ tally p xs)
unfolding sort_rounds tally
sort_rounds-Sorted zero [] few = (tt, λ p. refl)
sort_rounds-Sorted zero (x ∷ []) few = ((tt, tt), λ p. refl)
sort_rounds-Sorted zero (x ∷ y ∷ xs) few = absurd (omega (arith, few))
sort_rounds-Sorted (suc k) [] few = (tt, λ p. refl)
sort_rounds-Sorted (suc k) (x ∷ xs) few =
    let pick = exchange-IsPick x xs in
    let (sorted, same) = sort_rounds-Sorted k (exchange x xs).1 (omega (arith, pick.size, few)) in
    (
      (
        sort_rounds-All (λ y. (exchange x xs).0.arrival_time ≤ y.arrival_time) k (exchange x xs).1
            pick.above,
        sorted,
      ),
      λ p. omega (arith, same p, pick.same p),
    )

in_use-tally :
    (p : ParkingRecord → Bool) (table : List ParkingRecord)
    → tally p (in_use table) ≡ tally (λ r. r.occupied && p r) table
unfolding in_use tally
in_use-tally p [] = refl
in_use-tally p (r ∷ table) = elim (Bool-cases r.occupied) [
  | inl e ↦ simp e (ap (λ n. (if p r then 1 else 0) + n) (in_use-tally p table))
  | inr e ↦ rw e (omega (arith, in_use-tally p table))
]

-- The records that `show` lists come by arrival time, and are those in use, each as often as it is in
-- the table.
sorted_copy-Sorted :
    (table : List ParkingRecord)
    → Sorted (sorted_copy table)
      × ((p : ParkingRecord → Bool)
          → tally p (sorted_copy table) ≡ tally (λ r. r.occupied && p r) table)
unfolding sorted_copy
sorted_copy-Sorted table =
    let copy = in_use table in
    let (sorted, same) = sort_rounds-Sorted (length copy - 1) copy (omega arith) in
    (sorted, λ p. same p ∙ in_use-tally p table)
