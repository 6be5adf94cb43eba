-- ===== src/Matchmaker/Scan.antt =====
-- What the search of `findMatch` in assignments/hw5/matchmaker.c finds.
use os_coursework.Prelude.{
  ℕ, ◌≡◌, ◌≢◌, sym, ap, Bool, true, false, none, some, List, [], ◌∷◌, if◌then◌else◌, ◌==◌,
  Bool-cases, Option-cases, inl, inr, All, elem, arith,
}
use os_coursework.Matchmaker.{compatible, scan}

pub All-map : (P Q : ℕ → Type 0) (list : List ℕ) → ((a : ℕ) → P a → Q a) → All P list → All Q list
All-map P Q [] f h = tt
All-map P Q (a ∷ list) f h = (f a h.0, All-map P Q list f h.1)

module _ (skill_gap : ℕ) (skill : ℕ → ℕ) where
  -- The players of a list differ, and no two of them are compatible.
  abbrev pub Incompatible : List ℕ → Type 0
  Incompatible [] = Unit
  Incompatible (i ∷ list) =
      All (λ j. (i ≢ j) × (compatible skill_gap (skill i) (skill j) ≡ false)) list
      × Incompatible list

  -- Compatibility goes both ways.
  pub compatible_sym : (a b : ℕ) → compatible skill_gap a b ≡ compatible skill_gap b a
  unfolding compatible
  compatible_sym a b = ground arith

  -- If nobody is found, nobody on the list is compatible.
  pub scan-none :
      (matched : ℕ → Bool) (self : ℕ) (list : List ℕ)
      → scan skill_gap skill matched self list ≡ none
      → All (λ j. matched j ≡ false) list
      → All (λ j. compatible skill_gap (skill self) (skill j) ≡ false) list
  unfolding scan
  scan-none matched self [] e free = tt
  scan-none matched self (j ∷ list) e free =
      elim (Bool-cases (compatible skill_gap (skill self) (skill j))) [
        | inl good ↦ cc (rw (free.0, good) at e)
        | inr bad ↦ elim (Option-cases (scan skill_gap skill matched self list)) [
          | inl gone ↦ (bad, scan-none matched self list gone free.1)
          | inr ((k, rest), there) ↦ cc (rw (free.0, bad, there) at e)
        ]
      ]

  -- What is known of the player found and of the list without it.
  pub record IsFound (matched : ℕ → Bool) (self : ℕ) (list : List ℕ) (j : ℕ) (rest : List ℕ)
      : Type 1 where
    pub good : compatible skill_gap (skill self) (skill j) ≡ true
    pub member : (P : ℕ → Type 0) → All P list → P j
    pub others : (P : ℕ → Type 0) → All P list → All P rest
    pub incompatible : Incompatible list → Incompatible rest
    pub differ : Incompatible list → All (λ k. k ≢ j) rest
    pub kept : (a : ℕ) → a ≢ j → elem a rest ≡ elem a list

  first_found :
      (matched : ℕ → Bool) (self c j : ℕ) (list rest : List ℕ)
      → matched c ≡ false
      → compatible skill_gap (skill self) (skill c) ≡ true
      → scan skill_gap skill matched self (c ∷ list) ≡ some (j, rest)
      → (j ≡ c) × (rest ≡ list)
  unfolding scan
  first_found matched self c j list rest free good e =
      let e' = rw (free, good) at e in (cc (e'), cc (e'))

  later_found :
      (matched : ℕ → Bool) (self c j k : ℕ) (list rest rest2 : List ℕ)
      → matched c ≡ false
      → compatible skill_gap (skill self) (skill c) ≡ false
      → scan skill_gap skill matched self list ≡ some (k, rest2)
      → scan skill_gap skill matched self (c ∷ list) ≡ some (j, rest)
      → (j ≡ k) × (rest ≡ c ∷ rest2)
  unfolding scan
  later_found matched self c j k list rest rest2 free bad there e =
      let e' = rw (free, bad, there) at e in (cc (e'), cc (e'))

  pub scan-some :
      (matched : ℕ → Bool) (self : ℕ) (list : List ℕ) (j : ℕ) (rest : List ℕ)
      → scan skill_gap skill matched self list ≡ some (j, rest)
      → All (λ a. matched a ≡ false) list
      → IsFound matched self list j rest
  unfolding scan
  scan-some matched self [] j rest e free = cc
  scan-some matched self (c ∷ list) j rest e free =
      elim (Bool-cases (compatible skill_gap (skill self) (skill c))) [
        | inl good ↦
            let (ej, er) = first_found matched self c j list rest free.0 good e in
            rw (ej, er)
              (record {
                good = good;
                member = λ P h. h.0;
                others = λ P h. h.1;
                incompatible = λ h. h.1;
                differ = λ h. All-map _ (λ k. k ≢ c) list (λ a p q. p.0 (sym q)) h.0;
                kept = λ a ne. ground (arith, ne);
              })
        | inr bad ↦ elim (Option-cases (scan skill_gap skill matched self list)) [
          | inl gone ↦ cc (rw (free.0, bad, gone) at e)
          | inr ((k, rest2), there) ↦
              let ih = scan-some matched self list k rest2 there free.1 in
              let (ej, er) = later_found matched self c j k list rest rest2 free.0 bad there e in
              rw (ej, er)
                (record {
                  good = ih.good;
                  member = λ P h. ih.member P h.1;
                  others = λ P h. (h.0, ih.others P h.1);
                  incompatible = λ h. (ih.others _ h.0, ih.incompatible h.1);
                  differ = λ h. ((ih.member _ h.0).0, ih.differ h.1);
                  kept = λ a ne. ap (λ b. if c == a then true else b) (ih.kept a ne);
                })
        ]
      ]
