-- ===== src/Matchmaker/Keeps.antt =====
-- What the pairs and the waiting list of assignments/hw5/matchmaker.c keep.
use os_coursework.Prelude.{
  ℕ, ◌≡◌, ◌≢◌, Bool, true, false, Option, some, List, [], ◌∷◌, ◌==◌, Bool-cases, inl, inr, All,
  elem, arith, update, ==_iff, subst,
}
use os_coursework.Matchmaker.{Stage, outside, searching, found, compatible}
use os_coursework.Matchmaker.Scan.{Incompatible, All-map}

pub some_injective : {A : Type 0} {a b : A} → some a ≡ some b → a ≡ b
some_injective h = cc (h)

pub All-both :
    (P Q : ℕ → Type 0) (list : List ℕ) → All P list → All Q list → All (λ a. P a × Q a) list
All-both P Q [] h k = tt
All-both P Q (a ∷ list) h k = ((h.0, k.0), All-both P Q list h.1 k.1)

pub ==_refl : (i : ℕ) → (i == i) ≡ true
==_refl i = ground arith

pub ==_false : (i j : ℕ) → i ≢ j → (i == j) ≡ false
==_false i j ne = ground (arith, ne)

module _ (skill_gap : ℕ) (skill : ℕ → ℕ) where
  -- The opponent of a matched player is matched with that player, and their skills fit.
  abbrev pub IsPaired : (ℕ → Bool) → (ℕ → Option ℕ) → ℕ → Type 0
  IsPaired matched opponent i =
      (j : ℕ) × (opponent i ≡ some j)
      × (opponent j ≡ some i)
      × (matched j ≡ true)
      × (compatible skill_gap (skill i) (skill j) ≡ true)

  pub record Keeps (matched : ℕ → Bool) (opponent : ℕ → Option ℕ) (waiting : List ℕ)
      (stage : ℕ → Stage) : Type 0 where
    pub paired : (i : ℕ) → matched i ≡ true → IsPaired matched opponent i
    pub list : Incompatible skill_gap skill waiting
    pub free : All (λ j. matched j ≡ false) waiting
    pub inside : All (λ j. stage j ≢ outside) waiting
    pub listed : (i : ℕ) → stage i ≡ searching → matched i ≡ false → elem i waiting ≡ true
    pub new : (i : ℕ) → stage i ≡ outside → matched i ≡ false
    pub success : (i : ℕ) → stage i ≡ found → matched i ≡ true

  -- A thread that moves to a stage that is neither `outside` nor `searching`, and is `found` only
  -- when it is matched, while the pairs and the list stay.
  pub moved-Keeps :
      (matched : ℕ → Bool) (opponent : ℕ → Option ℕ) (waiting : List ℕ) (stage : ℕ → Stage) (i : ℕ)
      (s : Stage)
      → Keeps matched opponent waiting stage
      → s ≢ outside
      → s ≢ searching
      → (s ≡ found → matched i ≡ true)
      → Keeps matched opponent waiting (update stage i s)
  moved-Keeps matched opponent waiting stage i s v in_it not_searching ok = record {
    paired = v.paired;
    list = v.list;
    free = v.free;
    inside =
        All-map (λ j. stage j ≢ outside) (λ j. update stage i s j ≢ outside) waiting
          (λ a h. elim (Bool-cases (i == a)) [ inl e ↦ rw e in_it | inr e ↦ rw e h ]) v.inside;
    listed = λ a h free. elim (Bool-cases (i == a)) [
      | inl e ↦ absurd (not_searching (rw e at h))
      | inr e ↦ v.listed a (rw e at h) free
    ];
    new = λ a h. elim (Bool-cases (i == a)) [
      | inl e ↦ absurd (in_it (rw e at h))
      | inr e ↦ v.new a (rw e at h)
    ];
    success = λ a h. elim (Bool-cases (i == a)) [
      | inl e ↦ subst (λ z. matched z ≡ true) ((==_iff i a).0 e) (ok (rw e at h))
      | inr e ↦ v.success a (rw e at h)
    ];
  }
