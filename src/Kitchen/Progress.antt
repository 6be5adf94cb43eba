-- ===== src/Kitchen/Progress.antt =====
-- Threads that lock in ascending order never all wait.
use os_coursework.Prelude.{
  ℕ, zero, suc, ◌+◌, ◌≤◌, ◌<◌, ◌≡◌, ◌≢◌, refl, true, none, some, List, [], ◌∷◌, update, inl, inr,
  arith, Option-cases, subst,
}
use os_coursework.Kitchen.Threads.{
  Instr, lock, unlock, cook, rest, say, Pc, at, done, State, call, resume, turn, Reach,
}
use os_coursework.Kitchen.Held.{unlocks, holds, Inv, AllBodies, Reach-Inv}
use os_coursework.Kitchen.Tails.{OnPc, Reach-tail}

-- Each mutex that the calls lock is below `limit`, and above all those held at that time.
abbrev pub Climbs : ℕ → List Instr → Type 0
Climbs limit [] = Unit
Climbs limit (lock a ∷ r) =
    (a < limit) × ((m : ℕ) → unlocks m (lock a ∷ r) ≡ true → m < a) × Climbs limit r
Climbs limit (unlock _ ∷ r) = Climbs limit r
Climbs limit (cook _ ∷ r) = Climbs limit r
Climbs limit (rest _ ∷ r) = Climbs limit r
Climbs limit (say ∷ r) = Climbs limit r

abbrev pub AllClimb : ℕ → ℕ → (ℕ → List Instr) → Type 0
AllClimb limit n start = (i : ℕ) → i < n → Climbs limit (start i)

Climbs-tail : (limit : ℕ) (c : Instr) (r : List Instr) → Climbs limit (c ∷ r) → Climbs limit r
Climbs-tail limit (lock a) r h = h.2
Climbs-tail limit (unlock a) r h = h
Climbs-tail limit (cook d) r h = h
Climbs-tail limit (rest d) r h = h
Climbs-tail limit say r h = h

-- Some thread is not blocked.
abbrev pub CanMove : ℕ → (ℕ → List Instr) → State → Type 0
CanMove n start s = (j : ℕ) × (t : State) × (j < n) × (turn (start j) j s ≡ some t)

-- A thread that has not returned and waits for no mutex makes a move.
free_moves :
    (body : List Instr) (i : ℕ) (s : State) (p : Pc)
    → p ≢ done
    → ((m : ℕ) (r : List Instr) → p ≡ at (lock m ∷ r) → s.owner m ≡ none)
    → (t : State) × (resume body p i s ≡ some t)
unfolding resume call
free_moves body i s (at []) nd free = (_, refl)
free_moves body i s (at (lock m ∷ r)) nd free = (
  record s { owner = update s.owner m (some i); pc = update s.pc i (at r) },
  ground (arith, free m r refl),
)
free_moves body i s (at (unlock m ∷ r)) nd free = (_, refl)
free_moves body i s (at (cook d ∷ r)) nd free = (_, refl)
free_moves body i s (at (rest d ∷ r)) nd free = (_, refl)
free_moves body i s (at (say ∷ r)) nd free = (_, refl)
free_moves body i s done nd free = absurd (nd refl)

module _ (limit n : ℕ) (start : ℕ → List Instr) (climb : AllClimb limit n start) where
  pub Reach-Climbs : {s : State} → Reach n start s → (j : ℕ) → j < n → OnPc (Climbs limit) (s.pc j)
  Reach-Climbs = Reach-tail n start (λ _. Climbs limit) (λ i. Climbs-tail limit) climb (λ _. tt)

  module _ {s : State} (inv : Inv n s) (all : (j : ℕ) → j < n → OnPc (Climbs limit) (s.pc j)) where
    holder_above :
        (j m : ℕ)
        → j < n
        → holds m (s.pc j) ≡ true
        → (m' : ℕ) (r' : List Instr) → s.pc j ≡ at (lock m' ∷ r')
        → m < m'
    holder_above j m lt h m' r' e = ground (arith, climbs.1 m)
      where
        climbs : Climbs limit (lock m' ∷ r')
        climbs = subst (OnPc (Climbs limit)) e (all j lt)

    -- Thread `i` moves, or it waits for a mutex whose owner waits for a higher one.
    mover :
        (k i : ℕ) (p : Pc)
        → i < n
        → s.pc i ≡ p
        → p ≢ done
        → ((m : ℕ) (r : List Instr) → p ≡ at (lock m ∷ r) → limit ≤ m + k)
        → CanMove n start s
    unfolding turn
    mover zero i (at (lock m ∷ r)) lt e nd up =
        absurd (omega (arith, up m r refl, (subst (OnPc (Climbs limit)) e (all i lt)).0))
    mover (suc k) i (at (lock m ∷ r)) lt e nd up = elim (Option-cases (s.owner m)) [
      | inl free ↦
          let (t, moves) = free_moves (start i) i s (at (lock m ∷ r)) nd (λ m' r' eq. cc) in
          (i, t, lt, cc)
      | inr (j, taken) ↦
          let (lt', h) = inv.owned m j taken in
          mover k j (s.pc j) lt' refl (λ gone. ground (arith, gone, h))
            (λ m' r' e'. omega (arith, up m r refl, holder_above j m lt' h m' r' e'))
    ]
    mover k i p lt e nd up =
        let (t, moves) = free_moves (start i) i s p nd (λ m r eq. cc) in (i, t, lt, cc)

  -- No deadlock: while some thread has not returned, some thread can make a move.
  pub no_deadlock :
      AllBodies n start
      → {s : State} → Reach n start s
      → (i : ℕ) → i < n
      → s.pc i ≢ done
      → CanMove n start s
  no_deadlock bodies {s} r i lt nd =
      mover (Reach-Inv bodies r) (Reach-Climbs r) limit i (s.pc i) lt refl nd (λ m r e. omega arith)
