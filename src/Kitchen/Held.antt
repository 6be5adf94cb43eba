-- ===== src/Kitchen/Held.antt =====
-- Which mutexes a thread holds can be read off the calls that it has left: those that it still
-- unlocks. True at the start and kept by every step.
use os_coursework.Prelude.{
  ℕ, ◌<◌, ◌≡◌, refl, Bool, true, false, some, List, [], ◌∷◌, if◌then◌else◌, ◌==◌, arith,
}
use os_coursework.Kitchen.Threads.{
  Instr, lock, unlock, cook, rest, say, Pc, at, done, State, init, call, resume, turn, Step, chef,
  stop, Reach, here, later,
}

-- The first of the calls that is about `m` unlocks it.
abbrev pub unlocks : ℕ → List Instr → Bool
unlocks m [] = false
unlocks m (lock a ∷ r) = if a == m then false else unlocks m r
unlocks m (unlock a ∷ r) = if a == m then true else unlocks m r
unlocks m (cook _ ∷ r) = unlocks m r
unlocks m (rest _ ∷ r) = unlocks m r
unlocks m (say ∷ r) = unlocks m r

abbrev pub holds : ℕ → Pc → Bool
holds m (at r) = unlocks m r
holds m done = false

-- Each mutex that the calls lock is unlocked later, and none is unlocked twice.
abbrev pub Balanced : List Instr → Type 0
Balanced [] = Unit
Balanced (lock a ∷ r) = (unlocks a r ≡ true) × Balanced r
Balanced (unlock a ∷ r) = (unlocks a r ≡ false) × Balanced r
Balanced (cook _ ∷ r) = Balanced r
Balanced (rest _ ∷ r) = Balanced r
Balanced (say ∷ r) = Balanced r

-- A loop body: it starts with no mutex.
pub record IsBody (body : List Instr) : Type 0 where
  pub balanced : Balanced body
  pub fresh : (m : ℕ) → unlocks m body ≡ false

abbrev pub PcBalanced : Pc → Type 0
PcBalanced (at r) = Balanced r
PcBalanced done = Unit

pub record Inv (n : ℕ) (s : State) : Type 0 where
  pub owned : (m i : ℕ) → s.owner m ≡ some i → (i < n) × (holds m (s.pc i) ≡ true)
  pub held : (m i : ℕ) → i < n → holds m (s.pc i) ≡ true → s.owner m ≡ some i
  pub balanced : (i : ℕ) → i < n → PcBalanced (s.pc i)

module _ {n : ℕ} {s : State} (inv : Inv n s) (i : ℕ) (lt : i < n) where
  open inv use {owned, held, balanced}

  call-Inv :
      (c : Instr) (r : List Instr) {t : State}
      → s.pc i ≡ at (c ∷ r)
      → call c r i s ≡ some t
      → Inv n t
  unfolding call
  call-Inv (lock m) r e h = record {
    owned = λ m' j. ground (arith, owned m' j, balanced i);
    held = λ m' j. ground (arith, held m' j, balanced i);
    balanced = λ j. ground (arith, balanced j, balanced i);
  }
  call-Inv (unlock m) r e h = record {
    owned = λ m' j. ground (arith, owned m' j, held m i, balanced i);
    held = λ m' j. ground (arith, held m' j, held m i, balanced i);
    balanced = λ j. ground (arith, balanced j, balanced i);
  }
  call-Inv (cook d) r e h = record {
    owned = λ m' j. ground (arith, owned m' j);
    held = λ m' j. ground (arith, held m' j);
    balanced = λ j. ground (arith, balanced j);
  }
  call-Inv (rest d) r e h = record {
    owned = λ m' j. ground (arith, owned m' j);
    held = λ m' j. ground (arith, held m' j);
    balanced = λ j. ground (arith, balanced j);
  }
  call-Inv say r e h = record {
    owned = λ m' j. ground (arith, owned m' j);
    held = λ m' j. ground (arith, held m' j);
    balanced = λ j. ground (arith, balanced j);
  }

  resume-Inv :
      (body : List Instr) (p : Pc) {t : State}
      → IsBody body
      → s.pc i ≡ p
      → resume body p i s ≡ some t
      → Inv n t
  unfolding resume
  resume-Inv body (at []) b e h = record {
    owned = λ m j. ground (arith, owned m j, b.fresh m);
    held = λ m j. ground (arith, held m j, b.fresh m);
    balanced = λ j. ground (arith, balanced j, b.balanced);
  }
  resume-Inv body (at (c ∷ r)) b e h = call-Inv c r e h
  resume-Inv body done b e h = cc

abbrev pub AllBodies : ℕ → (ℕ → List Instr) → Type 0
AllBodies n start = (i : ℕ) → i < n → IsBody (start i)

pub init-Inv : (n : ℕ) → Inv n init
init-Inv n = record { owned = λ m i h. cc; held = λ m i lt h. cc; balanced = λ i lt. tt }

module _ {n : ℕ} {start : ℕ → List Instr} (bodies : AllBodies n start) where
  -- Every step of the system keeps the invariant.
  pub Step-Inv : {s t : State} → Step n start s t → Inv n s → Inv n t
  unfolding turn
  Step-Inv {s} (chef i lt h) inv = resume-Inv inv i lt (start i) (s.pc i) (bodies i lt) refl h
  Step-Inv stop inv = record { owned = inv.owned; held = inv.held; balanced = inv.balanced }

  pub Reach-Inv : {s : State} → Reach n start s → Inv n s
  Reach-Inv here = init-Inv n
  Reach-Inv (later r st) = Step-Inv st (Reach-Inv r)

  -- A mutex is held by one thread at most.
  pub held_once :
      {s : State}
      → Reach n start s
      → (m i j : ℕ) → i < n
      → j < n
      → holds m (s.pc i) ≡ true
      → holds m (s.pc j) ≡ true
      → i ≡ j
  held_once r m i j lt lt' h h' =
      ground (arith, (Reach-Inv r).held m i lt h, (Reach-Inv r).held m j lt' h')
