-- ===== src/Kitchen/Ordered/Bodies.antt =====
-- The loop body of a chef of ordered.c, whatever appliances it needs: it locks in ascending order,
-- unlocks what it locks, and cooks with all of it.
use mathlib.Core.List.{reverse-cons}
use os_coursework.Prelude.{
  ℕ, ◌<◌, ◌≡◌, refl, Bool, true, false, List, [], ◌∷◌, ◌++◌, if◌then◌else◌, elem, All, arith, ◌==◌,
  Bool-cases, inl, inr, map, reverse, ==_iff, sym, ◌∙◌,
}
use os_coursework.Kitchen.Threads.{Instr, lock, unlock, cook, rest}
use os_coursework.Kitchen.Held.{unlocks, Balanced, IsBody}
use os_coursework.Kitchen.Progress.{Climbs}
use os_coursework.Kitchen.Exclusive.{Equipped}
use os_coursework.Kitchen.Ordered.{sort_appliances, lock_appliances, unlock_appliances, chef_body}
use os_coursework.Kitchen.Ordered.Sort.{Ascending, Distinct, All-of_elem, sort_appliances-Ascending}

elem-snoc : (a x : ℕ) (xs : List ℕ) → elem a (xs ++ x ∷ []) ≡ elem a (x ∷ xs)
elem-snoc a x [] = refl
elem-snoc a x (y ∷ ys) = ground (arith, elem-snoc a x ys)

elem-reverse : (a : ℕ) (xs : List ℕ) → elem a (reverse xs) ≡ elem a xs
elem-reverse a [] = refl
elem-reverse a (x ∷ xs) =
    rw reverse-cons (elem-snoc a x (reverse xs) ∙ ground (arith, elem-reverse a xs))

Distinct-snoc : (x : ℕ) (xs : List ℕ) → elem x xs ≡ false → Distinct xs → Distinct (xs ++ x ∷ [])
Distinct-snoc x [] new d = (refl, tt)
Distinct-snoc x (y ∷ ys) new d =
    (ground (arith, elem-snoc y x ys), Distinct-snoc x ys (ground arith) d.1)

Distinct-reverse : (xs : List ℕ) → Distinct xs → Distinct (reverse xs)
Distinct-reverse [] d = tt
Distinct-reverse (x ∷ xs) d =
    rw reverse-cons
      (Distinct-snoc x (reverse xs) (elem-reverse x xs ∙ d.0) (Distinct-reverse xs d.1))

abbrev unlocking : List ℕ → List Instr
unlocking ys = map unlock ys ++ rest 25 ∷ []

unlocks-unlocking : (m : ℕ) (ys : List ℕ) → unlocks m (unlocking ys) ≡ elem m ys
unlocks-unlocking m [] = refl
unlocks-unlocking m (y ∷ ys) = ground (arith, unlocks-unlocking m ys)

unlocking-Balanced : (ys : List ℕ) → Distinct ys → Balanced (unlocking ys)
unlocking-Balanced [] d = tt
unlocking-Balanced (y ∷ ys) d = (unlocks-unlocking y ys ∙ d.0, unlocking-Balanced ys d.1)

unlocking-Climbs : (limit : ℕ) (ys : List ℕ) → Climbs limit (unlocking ys)
unlocking-Climbs limit [] = tt
unlocking-Climbs limit (y ∷ ys) = unlocking-Climbs limit ys

unlocking-Equipped : (needed ys : List ℕ) → Equipped needed (unlocking ys)
unlocking-Equipped needed [] = tt
unlocking-Equipped needed (y ∷ ys) = unlocking-Equipped needed ys

Ascending-Distinct : (xs : List ℕ) → Ascending xs → Distinct xs
Ascending-Distinct [] h = tt
Ascending-Distinct (x ∷ xs) h = (below_new x xs h.0, Ascending-Distinct xs h.1)
  where
    below_new : (a : ℕ) (ys : List ℕ) → All (λ y. a < y) ys → elem a ys ≡ false
    below_new a [] k = refl
    below_new a (y ∷ ys) k = ground (arith, below_new a ys k.1)

-- The calls of a body whose appliances stand in the order `xs`.
abbrev body_of : List ℕ → ℕ → List Instr
body_of xs d = map lock xs ++ cook d ∷ unlocking (reverse xs)

module _ (xs : List ℕ) (d : ℕ) (asc : Ascending xs) where
  abbrev cooking : List Instr
  cooking = cook d ∷ unlocking (reverse xs)

  unlocks-cooking : (m : ℕ) → unlocks m cooking ≡ elem m xs
  unlocks-cooking m = unlocks-unlocking m (reverse xs) ∙ elem-reverse m xs

  unlocks-locking :
      (m : ℕ) (zs : List ℕ)
      → unlocks m (map lock zs ++ cooking) ≡ (if elem m zs then false else elem m xs)
  unlocks-locking m [] = unlocks-cooking m
  unlocks-locking m (z ∷ zs) = ground (arith, unlocks-locking m zs)

  locking-Balanced :
      (zs : List ℕ)
      → ((a : ℕ) → elem a zs ≡ true → elem a xs ≡ true)
      → Distinct zs
      → Balanced (map lock zs ++ cooking)
  locking-Balanced [] sub dist =
      unlocking-Balanced (reverse xs) (Distinct-reverse xs (Ascending-Distinct xs asc))
  locking-Balanced (z ∷ zs) sub dist = (
    ground (arith, unlocks-locking z zs, sub z),
    locking-Balanced zs (λ a e. sub a (ground arith)) dist.1,
  )

  body_of-IsBody : IsBody (body_of xs d)
  body_of-IsBody = record {
    balanced = locking-Balanced xs (λ a e. e) (Ascending-Distinct xs asc);
    fresh = λ m. ground (arith, unlocks-locking m xs);
  }

  locking-Climbs :
      (limit : ℕ) (zs : List ℕ)
      → All (λ a. a < limit) zs
      → Ascending zs
      → ((m : ℕ) → elem m xs ≡ true → elem m zs ≡ false → All (λ a. m < a) zs)
      → Climbs limit (map lock zs ++ cooking)
  locking-Climbs limit [] small asc' gap = unlocking-Climbs limit (reverse xs)
  locking-Climbs limit (z ∷ zs) small asc' gap = (
    small.0,
    λ m h.
        (gap m (ground (arith, unlocks-locking m (z ∷ zs)))
          (ground (arith, unlocks-locking m (z ∷ zs)))).0,
    locking-Climbs limit zs small.1 asc'.1 (λ m e f. elim (Bool-cases (z == m)) [
      | inl same ↦ rw (← (==_iff z m).0 same) asc'.0
      | inr other ↦ (gap m e (ground arith)).1
    ]),
  )

  body_of-Climbs : (limit : ℕ) → All (λ a. a < limit) xs → Climbs limit (body_of xs d)
  body_of-Climbs limit small = locking-Climbs limit xs small asc (λ m e f. ground (arith, e, f))

  locking-Equipped :
      (needed zs : List ℕ)
      → All (λ m. elem m xs ≡ true) needed
      → Equipped needed (map lock zs ++ cooking)
  locking-Equipped needed [] h = (held needed h, unlocking-Equipped needed (reverse xs))
    where
      held :
          (ms : List ℕ)
          → All (λ m. elem m xs ≡ true) ms
          → All (λ m. unlocks m (unlocking (reverse xs)) ≡ true) ms
      held [] k = tt
      held (m ∷ ms) k = (unlocks-cooking m ∙ k.0, held ms k.1)
  locking-Equipped needed (z ∷ zs) h = locking-Equipped needed zs h

All-self :
    (xs : List ℕ) (test : ℕ → Bool)
    → ((a : ℕ) → elem a xs ≡ true → test a ≡ true)
    → All (λ a. test a ≡ true) xs
All-self [] test h = tt
All-self (x ∷ xs) test h = (h x (ground arith), All-self xs test (λ a e. h a (ground arith)))

module _ (needed : List ℕ) (d : ℕ) (dist : Distinct needed) where
  abbrev sorted : List ℕ
  sorted = sort_appliances needed

  -- What a chef calls is the sorted locking, the cooking and the unlocking.
  chef_body-body_of : chef_body needed d ≡ body_of sorted d
  unfolding chef_body lock_appliances unlock_appliances
  chef_body-body_of = refl

  same : (a : ℕ) → elem a sorted ≡ elem a needed
  same = (sort_appliances-Ascending needed dist).1

  ascending : Ascending sorted
  ascending = (sort_appliances-Ascending needed dist).0

  pub chef_body-IsBody : IsBody (chef_body needed d)
  chef_body-IsBody = rw chef_body-body_of (body_of-IsBody sorted d ascending)

  pub chef_body-Climbs :
      (limit : ℕ) → All (λ a. a < limit) needed → Climbs limit (chef_body needed d)
  chef_body-Climbs limit small = rw chef_body-body_of (
      body_of-Climbs sorted d ascending limit
        (All-of_elem (λ a. a < limit) needed sorted (λ a e. sym (same a) ∙ e) small))

  pub chef_body-Equipped : Equipped needed (chef_body needed d)
  chef_body-Equipped = rw chef_body-body_of (
      locking-Equipped sorted d ascending needed sorted
        (All-self needed (λ m. elem m sorted) (λ m e. same m ∙ e)))
