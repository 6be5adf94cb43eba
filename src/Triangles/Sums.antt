-- ===== src/Triangles/Sums.antt =====
-- Sums over an initial part of the numbers.
use os_coursework.Prelude.{
  ℕ, zero, suc, ◌+◌, ◌≤◌, ◌<◌, ◌≡◌, refl, sym, ap, ◌∙◌, if◌then◌else◌, ltb, sum_below,
  sum_below-zero, arith,
}
use os_coursework.Triangles.{for_sum}

pub sum_below-cong :
    (n : ℕ) (f g : ℕ → ℕ) → ((i : ℕ) → i < n → f i ≡ g i) → sum_below n f ≡ sum_below n g
unfolding sum_below
sum_below-cong zero f g h = refl
sum_below-cong (suc n) f g h =
    omega (arith, sum_below-cong n f g (λ i lt. h i (omega arith)), h n (omega arith))

pub sum_below-none : (n : ℕ) (f : ℕ → ℕ) → ((i : ℕ) → i < n → f i ≡ 0) → sum_below n f ≡ 0
sum_below-none n f h = sum_below-cong n f (λ i. 0) h ∙ sum_below-zero n

pub sum_below_add :
    (n : ℕ) (f g : ℕ → ℕ) → sum_below n (λ i. f i + g i) ≡ sum_below n f + sum_below n g
unfolding sum_below
sum_below_add zero f g = omega arith
sum_below_add (suc n) f g = omega (arith, sum_below_add n f g)

pub sum_below_swap :
    (n m : ℕ) (f : ℕ → ℕ → ℕ)
    → sum_below n (λ i. sum_below m (f i)) ≡ sum_below m (λ j. sum_below n (λ i. f i j))
unfolding sum_below
sum_below_swap zero m f = sym (sum_below-zero m)
sum_below_swap (suc n) m f =
    omega (arith, sum_below_swap n m f, sum_below_add m (λ j. sum_below n (λ i. f i j)) (f n))

-- The sum of a longer part, when nothing is added behind the shorter one.
pub sum_below_longer :
    (k n : ℕ) (f : ℕ → ℕ)
    → ((i : ℕ) → n ≤ i → i < n + k → f i ≡ 0)
    → sum_below (n + k) f ≡ sum_below n f
unfolding sum_below
sum_below_longer zero n f h = ap (λ m. sum_below m f) {y = n} (omega arith)
sum_below_longer (suc k) n f h =
    ap (λ m. sum_below m f) {y = suc (n + k)} (omega arith)
    ∙ omega (
      arith,
      sum_below_longer k n f (λ i le lt. h i le (omega arith)),
      h (n + k) (omega arith) (omega arith),
    )

-- A loop from an index on adds what the sum has behind that index.
for_sum-below :
    (n from : ℕ) (f : ℕ → ℕ) → sum_below from f + for_sum n from f ≡ sum_below (from + n) f
unfolding for_sum sum_below
for_sum-below zero from f =
    omega (arith, ap (λ m. sum_below m f) {x = from + 0} {y = from} (omega arith))
for_sum-below (suc n) from f = omega (
  arith,
  for_sum-below n (from + 1) f,
  ap (λ m. sum_below m f) {x = from + 1} {y = suc from} (omega arith),
  ap (λ m. sum_below m f) {x = from + 1 + n} {y = from + suc n} (omega arith),
)

for_sum-cong :
    (n from : ℕ) (f g : ℕ → ℕ)
    → ((i : ℕ) → from ≤ i → f i ≡ g i)
    → for_sum n from f ≡ for_sum n from g
unfolding for_sum
for_sum-cong zero from f g h = refl
for_sum-cong (suc n) from f g h =
    omega (arith, h from (omega arith), for_sum-cong n (from + 1) f g (λ i le. h i (omega arith)))

-- The same, as a sum of which the part before the index is left out.
pub for_sum-window :
    (n from to : ℕ) (f : ℕ → ℕ)
    → from + n ≡ to
    → for_sum n from f ≡ sum_below to (λ i. if ltb i from then 0 else f i)
for_sum-window n from to f e =
    let g : ℕ → ℕ = λ i. if ltb i from then 0 else f i in
    omega (
      arith,
      for_sum-cong n from f g (λ i le. ground arith),
      for_sum-below n from g,
      sum_below-none from g (λ i lt. ground arith),
      ap (λ m. sum_below m g) e,
    )
