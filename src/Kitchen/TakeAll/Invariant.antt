-- ===== src/Kitchen/TakeAll/Invariant.antt =====
-- The appliances in use are those of the chefs who cook, and a chef who waits has a reason to.
use os_coursework.Prelude.{
  ℕ, ◌<◌, ◌≡◌, refl, Bool, true, false, some, List, [], ◌∷◌, update, if◌then◌else◌, elem, arith,
  ◌==◌, Bool-cases, inl, inr,
}
use os_coursework.Kitchen.TakeAll.{
  Stage, head, asking, waiting, cooking, releasing, resting, done, State, init, all_available,
  set_all, wait_and_acquire_appliances, woken, release_appliances, resume, turn, Step, chef, wake,
  stop, Reach, here, later,
}

set_all-elem :
    (xs : List ℕ) (v : Bool) (used : ℕ → Bool) (m : ℕ)
    → set_all xs v used m ≡ (if elem m xs then v else used m)
unfolding set_all
set_all-elem [] v used m = refl
set_all-elem (x ∷ xs) v used m = ground (arith, set_all-elem xs v (update used x v) m)

all_available-free :
    (xs : List ℕ) (used : ℕ → Bool) (m : ℕ)
    → all_available xs used ≡ true
    → elem m xs ≡ true
    → used m ≡ false
unfolding all_available
all_available-free [] used m h e = cc
all_available-free (x ∷ xs) used m h e = ground (arith, all_available-free xs used m)

all_available-taken :
    (xs : List ℕ) (used : ℕ → Bool)
    → all_available xs used ≡ false
    → (m : ℕ) × (elem m xs ≡ true) × (used m ≡ true)
unfolding all_available
all_available-taken [] used h = cc
all_available-taken (x ∷ xs) used h = elim (Bool-cases (used x)) [
  | inl taken ↦ (x, ground arith, taken)
  | inr free ↦
      let (m, e, u) = all_available-taken xs used (ground (arith, free)) in (m, ground arith, u)
]

-- From taking its appliances until releasing them.
abbrev pub has_taken : Stage → Bool
has_taken cooking = true
has_taken releasing = true
has_taken _ = false

pub record Inv (n : ℕ) (needed : ℕ → List ℕ) (s : State) : Type 0 where
  pub used :
      (m : ℕ)
      → s.in_use m ≡ true
      → (i : ℕ) × (i < n) × (has_taken (s.stage i) ≡ true) × (elem m (needed i) ≡ true)
  pub held :
      (m i : ℕ)
      → i < n
      → has_taken (s.stage i) ≡ true
      → elem m (needed i) ≡ true
      → s.in_use m ≡ true
  pub apart :
      (m i j : ℕ)
      → i < n
      → j < n
      → has_taken (s.stage i) ≡ true
      → has_taken (s.stage j) ≡ true
      → elem m (needed i) ≡ true
      → elem m (needed j) ≡ true
      → i ≡ j
  pub blocked :
      (i : ℕ)
      → i < n
      → s.stage i ≡ waiting
      → (m : ℕ) × (elem m (needed i) ≡ true) × (s.in_use m ≡ true)

module _ (n : ℕ) (needed : ℕ → List ℕ) (s : State) (inv : Inv n needed s) (i : ℕ) (lt : i < n) where
  open inv use {used, held, apart, blocked}

  -- A change of the stage of `i` between two at which it has or has not taken its appliances.
  move-Inv :
      (p : Stage) {t : State}
      → t.in_use ≡ s.in_use
      → t.stage ≡ update s.stage i p
      → has_taken p ≡ has_taken (s.stage i)
      → ((p ≡ waiting) → (m : ℕ) × (elem m (needed i) ≡ true) × (s.in_use m ≡ true))
      → Inv n needed t
  move-Inv p {t} e_use e_stage e_taken why = record {
    used = λ m u. let (j, ltj, taken, e) = used m (ground arith) in (j, ltj, ground arith, e);
    held = λ m j ltj taken e. ground (arith, held m j);
    apart = λ m j k ltj ltk tj tk ej ek. ground (arith, apart m j k);
    blocked = λ j ltj w. elim (Bool-cases (i == j)) [
      | inl same ↦ let (m, e, u) = why (ground arith) in (m, ground arith, ground arith)
      | inr other ↦ let (m, e, u) = blocked j ltj (ground arith) in (m, e, ground arith)
    ];
  }

  take-Inv :
      {t : State}
      → s.stage i ≡ asking
      → all_available (needed i) s.in_use ≡ true
      → t.in_use ≡ set_all (needed i) true s.in_use
      → t.stage ≡ update s.stage i cooking
      → Inv n needed t
  take-Inv {t} e free e_use e_stage = record {
    used = λ m u. elim (Bool-cases (elem m (needed i))) [
      | inl mine ↦ (i, lt, ground arith, mine)
      | inr other ↦
          let (j, ltj, taken, e') = used m (ground (arith, marks m)) in (j, ltj, ground arith, e')
    ];
    held = λ m j ltj taken e'. ground (arith, held m j, marks m);
    apart = λ m j k ltj ltk tj tk ej ek.
        ground (arith, apart m j k, held m j, held m k, all_available-free (needed i) s.in_use m);
    blocked = λ j ltj w.
        let (m, e', u) = blocked j ltj (ground arith) in (m, e', ground (arith, marks m));
  }
    where
      marks : (m : ℕ) → t.in_use m ≡ (if elem m (needed i) then true else s.in_use m)
      marks m = rw e_use (set_all-elem (needed i) true s.in_use m)

  release-Inv :
      {t : State}
      → s.stage i ≡ releasing
      → t.in_use ≡ set_all (needed i) false s.in_use
      → t.stage ≡ update (λ j. woken (s.stage j)) i resting
      → Inv n needed t
  release-Inv {t} e e_use e_stage = record {
    used = λ m u.
        let (j, ltj, taken, e') = used m (ground (arith, marks m)) in
        (j, ltj, ground (arith, marks m), e');
    held = λ m j ltj taken e'. ground (arith, held m j, marks m, apart m i j);
    apart = λ m j k ltj ltk tj tk ej ek. ground (arith, apart m j k);
    blocked = λ j ltj w. ground arith;
  }
    where
      marks : (m : ℕ) → t.in_use m ≡ (if elem m (needed i) then false else s.in_use m)
      marks m = rw e_use (set_all-elem (needed i) false s.in_use m)

  resume-Inv :
      (p : Stage) {t : State} → s.stage i ≡ p → resume (needed i) p i s ≡ some t → Inv n needed t
  unfolding resume wait_and_acquire_appliances release_appliances
  resume-Inv head e h =
      move-Inv (if s.running then asking else done) (ground arith) (ground arith) (ground arith)
        (λ w. ground arith)
  resume-Inv asking e h = elim (Bool-cases (all_available (needed i) s.in_use)) [
    | inl free ↦ take-Inv e free (ground (arith, free)) (ground (arith, free))
    | inr taken ↦
        move-Inv waiting (ground (arith, taken)) (ground (arith, taken)) (ground arith)
          (λ w. all_available-taken (needed i) s.in_use taken)
  ]
  resume-Inv waiting e h = cc
  resume-Inv cooking e h = move-Inv releasing (ground arith) (ground arith) (ground arith) (λ w. cc)
  resume-Inv releasing e h = release-Inv e (ground arith) (ground arith)
  resume-Inv resting e h = move-Inv head (ground arith) (ground arith) (ground arith) (λ w. cc)
  resume-Inv done e h = cc

init-Inv : (n : ℕ) (needed : ℕ → List ℕ) → Inv n needed init
init-Inv n needed = record {
  used = λ m u. cc;
  held = λ m i lt h e. cc;
  apart = λ m i j lt lt' h h' e e'. cc;
  blocked = λ i lt w. cc;
}

pub Step-Inv :
    {n : ℕ} {needed : ℕ → List ℕ} {s t : State}
    → Step n needed s t
    → Inv n needed s
    → Inv n needed t
unfolding turn
Step-Inv {n} {needed} {s} (chef i lt h) inv = resume-Inv n needed s inv i lt (s.stage i) refl h
Step-Inv {n} {needed} {s} (wake i lt w) inv =
    move-Inv n needed s inv i lt asking refl refl (ground arith) (λ e. cc)
Step-Inv stop inv = record {
  used = inv.used;
  held = inv.held;
  apart = inv.apart;
  blocked = inv.blocked;
}

pub Reach-Inv : {n : ℕ} {needed : ℕ → List ℕ} {s : State} → Reach n needed s → Inv n needed s
Reach-Inv {n} {needed} here = init-Inv n needed
Reach-Inv (later r st) = Step-Inv st (Reach-Inv r)
