-- ===== src/Prelude/Family.antt =====
-- Families indexed by a number: one entry changed, and the sum of the first `n` entries.
use Prim.Native.Nat.{ℕ, zero, suc, ◌+◌, ◌≤◌, ◌<◌}
use mathlib.Core.Path.{◌≡◌, refl, subst}
use native.Mathlib.Omega.{arith}
use mathlib.Core.Logic.{◌⊎◌, inl, inr}
use os_coursework.Prelude.Tests.{◌==◌, if◌then◌else◌, Bool-cases, ==_iff}

abbrev pub update {ℓ} : {A : Type ℓ} → (ℕ → A) → ℕ → A → ℕ → A
update f i a j = if i == j then a else f j

unfoldable pub sum_below : ℕ → (ℕ → ℕ) → ℕ
sum_below zero f = 0
sum_below (suc n) f = sum_below n f + f n

pub sum_below-zero : (n : ℕ) → sum_below n (λ _. 0) ≡ 0
unfolding sum_below
sum_below-zero zero = refl
sum_below-zero (suc n) = omega (arith, sum_below-zero n)

sum_below-update_of_le :
    (n : ℕ) (f : ℕ → ℕ) (i v : ℕ) → n ≤ i → sum_below n (update f i v) ≡ sum_below n f
unfolding sum_below
sum_below-update_of_le zero f i v h = refl
sum_below-update_of_le (suc n) f i v h = ground (arith, sum_below-update_of_le n f i v)

-- What changes in the sum is the entry.
pub sum_below-update :
    (n : ℕ) (f : ℕ → ℕ) (i v : ℕ) → i < n → sum_below n (update f i v) + f i ≡ sum_below n f + v
unfolding sum_below
sum_below-update zero f i v h = elim h [ ]
sum_below-update (suc n) f i v h =
    ground (arith, sum_below-update n f i v, sum_below-update_of_le n f i v)

-- All of the first `n` entries are 0, or one is not.
pub find_below :
    (n : ℕ) (f : ℕ → ℕ)
    → (((i : ℕ) → i < n → f i ≡ 0) × (sum_below n f ≡ 0))
      ⊎ ((i : ℕ) × (i < n) × (0 < f i) × (0 < sum_below n f))
unfolding sum_below
find_below zero f = inl (λ i h. elim h [ ], refl)
find_below (suc n) f = elim (find_below n f) [
  | inr (i, lt, pos, total) ↦ inr (i, omega arith, pos, omega arith)
  | inl (all, total) ↦ elim (Bool-cases (f n == 0)) [
    | inl z ↦ inl (
      λ i lt. elim (Bool-cases (i == n)) [ inl e ↦ ground arith | inr ne ↦ ground (arith, all i) ],
      ground arith,
    )
    | inr p ↦ inr (n, omega arith, ground arith, ground arith)
  ]
]

-- What holds of each entry and of the new one, holds of each entry after the change.
pub update-all {ℓ κ} :
    {A : Type ℓ} (Q : ℕ → A → Type κ) (f : ℕ → A) (i : ℕ) (a : A) (n : ℕ)
    → ((j : ℕ) → j < n → Q j (f j))
    → Q i a
    → (j : ℕ) → j < n
    → Q j (update f i a j)
update-all Q f i a n all new j lt = elim (Bool-cases (i == j)) [
  | inl e ↦ rw e (subst (λ k. Q k a) ((==_iff i j).0 e) new)
  | inr e ↦ rw e (all j lt)
]
