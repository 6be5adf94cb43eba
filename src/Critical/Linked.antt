-- ===== src/Critical/Linked.antt =====
-- exercises/ex08/critical.c: what `enqueueNode` and a counter change in a list of nodes.
use os_coursework.Prelude.{
  ℕ, ◌+◌, ◌≤◌, ◌<◌, ◌≡◌, refl, sym, ap, ◌∙◌, ◌≢◌, Option, none, some, List, [], ◌∷◌, ◌++◌, update,
  Bool-cases, inl, inr, ==_iff, ◌==◌, arith,
}
use os_coursework.Prelude.Nodes.{
  occurrences, Linked, last, last-occurrences, update-same, update-other, Linked-join,
}

unfoldable pub sum_of : (ℕ → ℕ) → List ℕ → ℕ
sum_of f [] = 0
sum_of f (a ∷ q) = f a + sum_of f q

pub sum_of-append : (f : ℕ → ℕ) (xs ys : List ℕ) → sum_of f (xs ++ ys) ≡ sum_of f xs + sum_of f ys
unfolding sum_of
sum_of-append f [] ys = omega arith
sum_of-append f (b ∷ xs) ys = omega (arith, sum_of-append f xs ys)

-- A sum grows with a counter as often as the node is in the list.
pub sum_of-update :
    (f : ℕ → ℕ) (i : ℕ) (q : List ℕ)
    → sum_of (update f i (f i + 1)) q ≡ sum_of f q + occurrences i q
unfolding sum_of occurrences
sum_of-update f i [] = refl
sum_of-update f i (a ∷ q) = elim (Bool-cases (i == a)) [
  | inl e ↦ rw (e, (==_iff i a).0 e) (omega (arith, sum_of-update f i q))
  | inr e ↦ rw e (omega (arith, sum_of-update f i q))
]

-- `enqueueNode` puts the node behind the last one.
pub Linked-enqueue :
    (next : ℕ → Option ℕ) (node : ℕ) (p : Option ℕ) (a : ℕ) (q : List ℕ)
    → occurrences node (a ∷ q) ≡ 0
    → ((b : ℕ) → occurrences b (a ∷ q) ≤ 1)
    → Linked next p (a ∷ q)
    → Linked (update (update next (last a q) (some node)) node none) p ((a ∷ q) ++ node ∷ [])
unfolding Linked
Linked-enqueue next node p a q fresh once h =
    let linked = update next (last a q) (some node) in
    let apart : (b : ℕ) → 0 < occurrences b (a ∷ q) → node ≢ b =
      λ b lt same. absurd (omega (arith, fresh, lt, ap (λ c. occurrences c (a ∷ q)) same)) in
    let at_last =
      update-other linked node (last a q) none (apart (last a q) (last-occurrences a q))
      ∙ update-same next (last a q) (some node) in
    Linked-join next (update linked node none) p a q (node ∷ []) once
      (λ b lt ne.
        update-other linked node b none (apart b lt)
        ∙ update-other next (last a q) b (some node) (λ same. ne (sym same)))
      (at_last, update-same linked node none) h
