-- ===== src/Prelude/Nodes.antt =====
-- Linked lists of nodes in a store: a node is a number, its address, and NULL is `none`.
use Prim.Native.Nat.{ℕ, suc, ◌+◌, ◌≤◌, ◌<◌}
use mathlib.Core.Path.{◌≡◌, refl, sym, ap, subst}
use mathlib.Core.Logic.{◌≢◌, inl, inr}
use mathlib.Core.Bool.{Bool}
use mathlib.Core.Option.{Option, none, some}
use mathlib.Core.List.{List, [], ◌∷◌, ◌++◌}
use native.Mathlib.Omega.{arith}
use os_coursework.Prelude.Tests.{◌==◌, if◌then◌else◌, Bool-cases, ==_iff}
use os_coursework.Prelude.Family.{update}

abbrev one_if : Bool → ℕ
one_if b = if b then 1 else 0

-- How often a node is in a list.
unfoldable pub occurrences : ℕ → List ℕ → ℕ
occurrences a [] = 0
occurrences a (b ∷ q) = one_if (a == b) + occurrences a q

-- The nodes from a pointer to the NULL.
unfoldable pub Linked : (ℕ → Option ℕ) → Option ℕ → List ℕ → Type 0
Linked next p [] = p ≡ none
Linked next p (a ∷ q) = (p ≡ some a) × Linked next (next a) q

unfoldable pub last : ℕ → List ℕ → ℕ
last a [] = a
last a (b ∷ q) = last b q

pub occurrences-append :
    (a : ℕ) (xs ys : List ℕ) → occurrences a (xs ++ ys) ≡ occurrences a xs + occurrences a ys
unfolding occurrences
occurrences-append a [] ys = omega arith
occurrences-append a (b ∷ xs) ys = omega (arith, occurrences-append a xs ys)

pub occurrences-here : (a : ℕ) (q : List ℕ) → occurrences a (a ∷ q) ≡ suc (occurrences a q)
unfolding occurrences
occurrences-here a q = rw ((==_iff a a).1 refl) (omega arith)

pub occurrences-tail : (a b : ℕ) (q : List ℕ) → occurrences a q ≤ occurrences a (b ∷ q)
unfolding occurrences
occurrences-tail a b q = omega arith

-- A node that is not in a list is not its first one.
pub absent-apart : (a b : ℕ) (q : List ℕ) → occurrences a (b ∷ q) ≡ 0 → a ≢ b
absent-apart a b q absent e =
    omega (arith, absent, occurrences-here a q, ap (λ c. occurrences a (c ∷ q)) e)

pub last-occurrences : (a : ℕ) (q : List ℕ) → 0 < occurrences (last a q) (a ∷ q)
unfolding occurrences last
last-occurrences a [] = ground arith
last-occurrences a (b ∷ q) = omega (arith, last-occurrences b q)

pub last-append : (a b : ℕ) (q r : List ℕ) → last a (q ++ b ∷ r) ≡ last b r
unfolding last
last-append a b [] r = refl
last-append a b (c ∷ q) r = last-append c b q r

pub update-same {ℓ} : {A : Type ℓ} (f : ℕ → A) (i : ℕ) (a : A) → update f i a i ≡ a
update-same f i a = rw ((==_iff i i).1 refl) refl

pub update-other {ℓ} : {A : Type ℓ} (f : ℕ → A) (i j : ℕ) (a : A) → i ≢ j → update f i a j ≡ f j
update-other f i j a ne = elim (Bool-cases (i == j)) [
  | inl e ↦ absurd (ne ((==_iff i j).0 e))
  | inr e ↦ rw e refl
]

-- A list depends on the pointers of its own nodes only.
pub Linked-frame :
    (next next' : ℕ → Option ℕ) (p : Option ℕ) (q : List ℕ)
    → ((b : ℕ) → 0 < occurrences b q → next' b ≡ next b)
    → Linked next p q
    → Linked next' p q
unfolding Linked
Linked-frame next next' p [] keeps h = h
Linked-frame next next' p (a ∷ q) keeps (e, h) =
    let kept = keeps a (omega (arith, occurrences-here a q)) in
    (
      e,
      subst (λ r. Linked next' r q) (sym kept)
          (Linked-frame next next' (next a) q
            (λ b lt. keeps b (omega (arith, lt, occurrences-tail b a q))) h),
    )

pub Linked-update :
    (next : ℕ → Option ℕ) (a : ℕ) (v p : Option ℕ) (q : List ℕ)
    → occurrences a q ≡ 0
    → Linked next p q
    → Linked (update next a v) p q
Linked-update next a v p q fresh h =
    Linked-frame next (update next a v) p q
      (λ b lt.
        update-other next a b v
          (λ same. absurd (omega (arith, fresh, lt, ap (λ c. occurrences c q) same))))
      h

le_through : {a b c : ℕ} → a ≤ b → b ≤ c → a ≤ c
le_through h k = omega arith

-- The last pointer of a list goes to the front of another one, and the others stay as they are.
pub Linked-join :
    (next next' : ℕ → Option ℕ) (p : Option ℕ) (a : ℕ) (q ys : List ℕ)
    → ((b : ℕ) → occurrences b (a ∷ q) ≤ 1)
    → ((b : ℕ) → 0 < occurrences b (a ∷ q) → b ≢ last a q → next' b ≡ next b)
    → Linked next' (next' (last a q)) ys
    → Linked next p (a ∷ q)
    → Linked next' p ((a ∷ q) ++ ys)
unfolding Linked last
Linked-join next next' p a [] ys once keeps rest (e, h) = (e, rest)
Linked-join next next' p a (b ∷ q) ys once keeps rest (e, h) =
    let absent : occurrences a (b ∷ q) ≡ 0 = omega (arith, once a, occurrences-here a (b ∷ q)) in
    let not_last : a ≢ last b q = λ same.
      absurd (omega (arith, absent, last-occurrences b q, ap (λ c. occurrences c (b ∷ q)) same)) in
    let kept = keeps a (omega (arith, occurrences-here a (b ∷ q))) not_last in
    let once_behind = λ (c : ℕ). le_through (occurrences-tail c a (b ∷ q)) (once c) in
    (
      e,
      subst (λ r. Linked next' r ((b ∷ q) ++ ys)) (sym kept)
          (Linked-join next next' (next a) b q ys once_behind
            (λ c lt ne. keeps c (omega (arith, lt, occurrences-tail c a (b ∷ q))) ne) rest h),
    )
