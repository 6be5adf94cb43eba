-- ===== src/Triangles/Strided.antt =====
-- assignments/hw2/triangles.c and hw3/triangles-thread.c: the workers share the work among them.
use os_coursework.Prelude.{
  ℕ, zero, suc, ◌+◌, ◌-◌, ◌≤◌, ◌≡◌, refl, sym, ap, ◌∙◌, inl, inr, Bool-cases, List, [], ◌∷◌, ◌++◌,
  length, length-append, if◌then◌else◌, ltb, sum_below, arith,
}
use mathlib.Core.List.{append_assoc, append-nil}
use os_coursework.Triangles.{
  strided, found_second, find_triangles, main, Values, push, read_values, read_list,
}
use os_coursework.Triangles.Sums.{sum_below-cong, sum_below-none, sum_below_add, sum_below_longer}
use os_coursework.Triangles.Count.{triangles, second-triangles}

module _ (f : ℕ → ℕ) (workers bound : ℕ) where
  -- What there is to count at an index.
  share : ℕ → ℕ
  share i = if ltb i bound then f i else 0

  strided-past : (fuel i : ℕ) → bound ≤ i → strided fuel workers bound i f ≡ 0
  unfolding strided
  strided-past zero i le = refl
  strided-past (suc fuel) i le = ground arith

  strided-round :
      (fuel i : ℕ)
      → strided (suc fuel) workers bound i f ≡ share i + strided fuel workers bound (i + workers) f
  unfolding strided share
  strided-round fuel i = elim (Bool-cases (ltb i bound)) [
    | inl within ↦ rw within refl
    | inr past ↦ rw past (omega (arith, strided-past fuel (i + workers) (ground (arith, past))))
  ]

  share-past : (i : ℕ) → bound ≤ i → share i ≡ 0
  unfolding share
  share-past i le = ground arith

  -- The next `n` indices.
  shares-next :
      (n base : ℕ)
      → sum_below base share + sum_below n (λ w. share (base + w)) ≡ sum_below (base + n) share
  unfolding sum_below
  shares-next zero base =
      omega (arith, ap (λ m. sum_below m share) {x = base + 0} {y = base} (omega arith))
  shares-next (suc n) base = omega (
    arith,
    shares-next n base,
    ap (λ m. sum_below m share) {x = base + suc n} {y = suc (base + n)} (omega arith),
  )

  -- What the workers count from a row of indices on, and what is before it, is all there is.
  rows :
      (fuel base : ℕ)
      → 1 ≤ workers
      → bound ≤ base + fuel
      → sum_below base share + sum_below workers (λ w. strided fuel workers bound (base + w) f)
        ≡ sum_below bound share
  rows zero base pos le = omega (
    arith,
    sum_below-none workers (λ w. strided zero workers bound (base + w) f)
        (λ w lt. strided-past zero (base + w) (omega arith)),
    sum_below_longer (base - bound) bound share (λ i past small. share-past i past),
    ap (λ m. sum_below m share) {x = bound + (base - bound)} {y = base} (omega arith),
  )
  rows (suc fuel) base pos le = omega (
    arith,
    sum_below-cong workers (λ w. strided (suc fuel) workers bound (base + w) f)
        (λ w. share (base + w) + strided fuel workers bound (base + w + workers) f)
        (λ w lt. strided-round fuel (base + w)),
    sum_below_add workers (λ w. share (base + w))
        (λ w. strided fuel workers bound (base + w + workers) f),
    shares-next workers base,
    sum_below-cong workers (λ w. strided fuel workers bound (base + w + workers) f)
        (λ w. strided fuel workers bound (base + workers + w) f)
        (λ w lt. ap (λ i. strided fuel workers bound i f) (omega arith)),
    rows fuel (base + workers) pos (omega arith),
  )

  share-sum : sum_below bound share ≡ sum_below bound f
  unfolding share
  share-sum = sum_below-cong bound share f (λ i lt. ground arith)

-- For any positive number of workers the counts of the workers add up to the number of triangles.
pub main-triangles : (v : List ℕ) (workers : ℕ) → 1 ≤ workers → main v workers ≡ triangles v
unfolding main find_triangles
main-triangles v workers pos =
    let bound = length v - 2 in
    let all = rows (found_second v) workers bound (length v) 0 pos (omega arith) in
    let first =
      sum_below-cong workers (find_triangles v workers)
        (λ w. strided (length v) workers bound (0 + w) (found_second v))
        (λ w lt. ap (λ i. strided (length v) workers bound i (found_second v)) (omega arith)) in
    omega (
      arith,
      all,
      first,
      share-sum (found_second v) workers bound,
      second-triangles v,
      sum_below-none 0 (share (found_second v) workers bound) (λ i lt. absurd (omega arith)),
    )

read_values-append :
    (input : List ℕ) (s : Values)
    → length s.list ≤ s.cap
    → 1 ≤ s.cap
    → ((read_values input s).list ≡ s.list ++ input)
      × (length (read_values input s).list ≤ (read_values input s).cap)
unfolding read_values push
read_values-append [] s le pos = (sym (append-nil s.list), le)
read_values-append (v ∷ input) s le pos =
    let size = length-append s.list (v ∷ []) in
    let rest = read_values-append input (push s v) (ground (arith, size)) (ground arith) in
    (rest.0 ∙ append_assoc s.list (v ∷ []) input, rest.1)

-- `readList` keeps every value in order, and the list never outgrows what was allocated for it.
read_list_lem :
    (input : List ℕ) → ((read_list input).list ≡ input) × (length input ≤ (read_list input).cap)
unfolding read_list
read_list_lem input =
    let r = read_values-append input (record { list = []; cap = 5 }) (omega arith) (omega arith) in
    (r.0, rw (r.0) at r.1)
