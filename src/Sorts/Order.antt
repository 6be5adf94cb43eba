-- ===== src/Sorts/Order.antt =====
-- Ascending lists, and lists with the same elements.
use os_coursework.Prelude.{
  ℕ, ◌+◌, ◌≤◌, ◌<◌, ◌≡◌, refl, ap, subst, inl, inr, Bool-cases, List, [], ◌∷◌, ◌++◌, All,
  if◌then◌else◌, ◌==◌, ==_iff, arith,
}

-- How often a value is in a list.
abbrev pub times : ℕ → List ℕ → ℕ
times x [] = 0
times x (a ∷ xs) = (if a == x then 1 else 0) + times x xs

pub times-append : (x : ℕ) (xs ys : List ℕ) → times x (xs ++ ys) ≡ times x xs + times x ys
times-append x [] ys = omega arith
times-append x (a ∷ xs) ys = omega (arith, times-append x xs ys)

-- Two lists with the same elements as often.
abbrev pub Same : List ℕ → List ℕ → Type 0
Same xs ys = (x : ℕ) → times x xs ≡ times x ys

-- Every element is at most the ones behind it.
abbrev pub Ascending : List ℕ → Type 0
Ascending [] = Unit
Ascending (a ∷ xs) = All (λ b. a ≤ b) xs × Ascending xs

itself : (a : ℕ) (xs : List ℕ) → 0 < times a (a ∷ xs)
itself a xs = ground arith

All-of_times : (P : ℕ → Type 0) (xs : List ℕ) → ((x : ℕ) → 0 < times x xs → P x) → All P xs
All-of_times P [] h = tt
All-of_times P (a ∷ xs) h = (h a (itself a xs), All-of_times P xs (λ x lt. h x (omega (arith, lt))))

times-All : (P : ℕ → Type 0) (xs : List ℕ) → All P xs → (x : ℕ) → 0 < times x xs → P x
times-All P [] h x lt = absurd (omega arith)
times-All P (a ∷ xs) h x lt = elim (Bool-cases (a == x)) [
  | inl e ↦ subst P ((==_iff a x).0 e) h.0
  | inr ne ↦ times-All P xs h.1 x (omega (arith, rw ne at lt))
]

pub Same-All : (P : ℕ → Type 0) (xs ys : List ℕ) → Same xs ys → All P xs → All P ys
Same-All P xs ys s h = All-of_times P ys (λ x lt. times-All P xs h x (omega (arith, s x, lt)))

pub All-weaken : (P Q : ℕ → Type 0) (xs : List ℕ) → ((a : ℕ) → P a → Q a) → All P xs → All Q xs
All-weaken P Q [] f h = tt
All-weaken P Q (a ∷ xs) f h = (f a h.0, All-weaken P Q xs f h.1)

pub All-append : (P : ℕ → Type 0) (xs ys : List ℕ) → All P xs → All P ys → All P (xs ++ ys)
All-append P [] ys h k = k
All-append P (a ∷ xs) ys h k = (h.0, All-append P xs ys h.1 k)

-- The two sorted parts with the pivot in between.
pub Ascending-append :
    (pivot : ℕ) (xs ys : List ℕ)
    → Ascending xs
    → Ascending ys
    → All (λ a. a ≤ pivot) xs
    → All (λ b. pivot ≤ b) ys
    → Ascending (xs ++ pivot ∷ ys)
Ascending-append pivot [] ys h k low high = (high, k)
Ascending-append pivot (a ∷ xs) ys h k low high = (
  All-append (λ b. a ≤ b) xs (pivot ∷ ys) h.0
      (low.0, All-weaken (λ b. pivot ≤ b) (λ b. a ≤ b) ys (λ b le. omega (arith, le, low.0)) high),
  Ascending-append pivot xs ys h.1 k low.1 high,
)

-- Ascending lists with the same elements are the same list.
pub Ascending-unique : (xs ys : List ℕ) → Ascending xs → Ascending ys → Same xs ys → xs ≡ ys
Ascending-unique [] [] h k s = refl
Ascending-unique [] (b ∷ ys) h k s = absurd (omega (arith, s b, itself b ys))
Ascending-unique (a ∷ xs) [] h k s = absurd (omega (arith, s a, itself a xs))
Ascending-unique (a ∷ xs) (b ∷ ys) h k s =
    let low =
      times-All (λ c. b ≤ c) (b ∷ ys) (omega arith, k.0) a (omega (arith, s a, itself a xs)) in
    let high =
      times-All (λ c. a ≤ c) (a ∷ xs) (omega arith, h.0) b (omega (arith, s b, itself b ys)) in
    let same : a ≡ b = omega (arith, low, high) in
    rw same (
      ap (λ r. b ∷ r)
        (Ascending-unique xs ys h.1 k.1
          (λ x. omega (arith, subst (λ c. times x (c ∷ xs) ≡ times x (b ∷ ys)) same (s x)))))
