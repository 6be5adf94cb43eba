-- ===== src/Top/Insertion.antt =====
-- An insertion sort does what assignments/hw7 relies on in `qsort`.
use os_coursework.Prelude.{
  ℕ, ◌≡◌, ◌⊎◌, inl, inr, true, false, Bool-cases, List, [], ◌∷◌, All, if◌then◌else◌,
}
use os_coursework.Top.{Process}
use os_coursework.Top.Order.{
  Shuffled, empty, skip, exchange, chain, Shuffled-All, at_most_zero, Ordered, Qsort,
}

insert_by : (Process → Process → ℕ) → Process → List Process → List Process
insert_by compare p [] = p ∷ []
insert_by compare p (q ∷ procs) =
    if at_most_zero (compare p q) then p ∷ q ∷ procs else q ∷ insert_by compare p procs

pub sort_by : (Process → Process → ℕ) → List Process → List Process
sort_by compare [] = []
sort_by compare (p ∷ procs) = insert_by compare p (sort_by compare procs)

Shuffled_refl : (procs : List Process) → Shuffled procs procs
Shuffled_refl [] = empty
Shuffled_refl (p ∷ procs) = skip p (Shuffled_refl procs)

insert_by-Shuffled :
    (compare : Process → Process → ℕ) (p : Process) (procs : List Process)
    → Shuffled (p ∷ procs) (insert_by compare p procs)
unfolding insert_by
insert_by-Shuffled compare p [] = skip p empty
insert_by-Shuffled compare p (q ∷ procs) = elim (Bool-cases (at_most_zero (compare p q))) [
  | inl e ↦ rw e (Shuffled_refl (p ∷ q ∷ procs))
  | inr e ↦ rw e (chain (exchange p q procs) (skip q (insert_by-Shuffled compare p procs)))
]

pub sort_by-Shuffled :
    (compare : Process → Process → ℕ) (procs : List Process)
    → Shuffled procs (sort_by compare procs)
unfolding sort_by
sort_by-Shuffled compare [] = empty
sort_by-Shuffled compare (p ∷ procs) =
    chain (skip p (sort_by-Shuffled compare procs))
      (insert_by-Shuffled compare p (sort_by compare procs))

module _ (P : Process → Type 0) (compare : Process → Process → ℕ)
    (total : (a b : Process)
      → P a
      → P b
      → (at_most_zero (compare a b) ≡ true) ⊎ (at_most_zero (compare b a) ≡ true))
    (trans : (a b c : Process)
      → P a
      → P b
      → P c
      → at_most_zero (compare a b) ≡ true
      → at_most_zero (compare b c) ≡ true
      → at_most_zero (compare a c) ≡ true) where
  below :
      (p q : Process) (procs : List Process)
      → P p
      → P q
      → All P procs
      → at_most_zero (compare p q) ≡ true
      → All (λ r. at_most_zero (compare q r) ≡ true) procs
      → All (λ r. at_most_zero (compare p r) ≡ true) procs
  below p q [] h k hs e es = tt
  below p q (r ∷ procs) h k hs e es = (trans p q r h k hs.0 e es.0, below p q procs h k hs.1 e es.1)

  turned :
      (p q : Process)
      → P p
      → P q
      → at_most_zero (compare p q) ≡ false
      → at_most_zero (compare q p) ≡ true
  turned p q h k e = elim (total p q h k) [ inl le ↦ cc (le, e) | inr ge ↦ ge ]

  insert_by-Ordered :
      (p : Process) (procs : List Process)
      → P p
      → All P procs
      → Ordered compare procs
      → Ordered compare (insert_by compare p procs)
  unfolding insert_by
  insert_by-Ordered p [] h hs o = (tt, tt)
  insert_by-Ordered p (q ∷ procs) h hs o = elim (Bool-cases (at_most_zero (compare p q))) [
    | inl e ↦ rw e ((e, below p q procs h hs.0 hs.1 e o.0), o)
    | inr e ↦ rw e (
      Shuffled-All (λ r. at_most_zero (compare q r) ≡ true) (insert_by-Shuffled compare p procs)
          (turned p q h hs.0 e, o.0),
      insert_by-Ordered p procs h hs.1 o.1,
    )
  ]

  pub sort_by-Ordered :
      (procs : List Process) → All P procs → Ordered compare (sort_by compare procs)
  unfolding sort_by
  sort_by-Ordered [] h = tt
  sort_by-Ordered (p ∷ procs) h =
      insert_by-Ordered p (sort_by compare procs) h.0
        (Shuffled-All P (sort_by-Shuffled compare procs) h.1) (sort_by-Ordered procs h.1)

abbrev pub some_qsort : Qsort
some_qsort = record { sort = sort_by; shuffles = sort_by-Shuffled; orders = sort_by-Ordered }
