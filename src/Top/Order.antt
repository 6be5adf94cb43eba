-- ===== src/Top/Order.antt =====
-- assignments/hw7: what the programs rely on in `qsort`, and their comparison.
use os_coursework.Prelude.{
  ℕ, suc, ◌<◌, ◌≡◌, refl, ap, ◌⊎◌, Bool, true, false, ◌||◌, List, [], ◌∷◌, All, leb, ◌==◌, length,
  arith,
}
use os_coursework.Top.{Process, int_bits, compare_proc_mem}

-- The order of a list changes, and nothing else.
pub data Shuffled : List Process → List Process → Type 0 where
  empty : Shuffled [] []
  skip : (p : Process) {xs ys : List Process} → Shuffled xs ys → Shuffled (p ∷ xs) (p ∷ ys)
  exchange : (p q : Process) (xs : List Process) → Shuffled (p ∷ q ∷ xs) (q ∷ p ∷ xs)
  chain : {xs ys zs : List Process} → Shuffled xs ys → Shuffled ys zs → Shuffled xs zs

pub Shuffled-All :
    (P : Process → Type 0) {xs ys : List Process} → Shuffled xs ys → All P xs → All P ys
Shuffled-All P empty h = h
Shuffled-All P (skip p s) h = (h.0, Shuffled-All P s h.1)
Shuffled-All P (exchange p q xs) h = (h.1.0, (h.0, h.1.1))
Shuffled-All P (chain s t) h = Shuffled-All P t (Shuffled-All P s h)

pub Shuffled-length : {xs ys : List Process} → Shuffled xs ys → length xs ≡ length ys
Shuffled-length empty = refl
Shuffled-length (skip p s) = ap suc (Shuffled-length s)
Shuffled-length (exchange p q xs) = refl
Shuffled-length (chain s t) = omega (arith, Shuffled-length s, Shuffled-length t)

-- An `int` of these bits is not above 0.
unfoldable pub at_most_zero : ℕ → Bool
at_most_zero bits = bits == 0 || leb 2147483648 bits

-- No value is above one behind it.
abbrev pub Ordered : (Process → Process → ℕ) → List Process → Type 0
Ordered compare [] = Unit
Ordered compare (p ∷ procs) =
    All (λ q. at_most_zero (compare p q) ≡ true) procs × Ordered compare procs

-- `qsort` of the C library: it gives the same values, and in order if the comparison is total and
-- transitive on them.
pub record Qsort : Type 1 where
  pub sort : (Process → Process → ℕ) → List Process → List Process
  pub shuffles :
      (compare : Process → Process → ℕ) (procs : List Process) → Shuffled procs (sort compare procs)
  pub orders :
      (P : Process → Type 0) (compare : Process → Process → ℕ)
      → ((a b : Process)
          → P a
          → P b
          → (at_most_zero (compare a b) ≡ true) ⊎ (at_most_zero (compare b a) ≡ true))
      → ((a b c : Process)
          → P a
          → P b
          → P c
          → at_most_zero (compare a b) ≡ true
          → at_most_zero (compare b c) ≡ true
          → at_most_zero (compare a c) ≡ true)
      → (procs : List Process) → All P procs
      → Ordered compare (sort compare procs)

-- A size that is not negative and fits in an `int`.
abbrev pub Fits : Process → Type 0
Fits p = (p.memsize.0 ≡ false) × (p.memsize.1 < 2147483648)

-- Between such sizes the subtraction of `compare_proc_mem` does not overflow.
pub compare_proc_mem-leb :
    (a b : Process)
    → Fits a
    → Fits b
    → at_most_zero (compare_proc_mem a b) ≡ leb b.memsize.1 a.memsize.1
unfolding at_most_zero compare_proc_mem int_bits
compare_proc_mem-leb a b h k = rw (h.0, k.0) (ground arith)
