-- ===== src/Kitchen/Schedule.antt =====
-- Runs by evaluation, and threads that wait for one another for ever.
use os_coursework.Prelude.{
  ℕ, ◌<◌, ◌≡◌, ◌≢◌, refl, true, false, Option, none, some, List, [], ◌∷◌, arith, ltb, Option-cases,
  subst, Bool-cases, inl, inr,
}
use os_coursework.Kitchen.Threads.{
  Instr, lock, unlock, cook, rest, say, Pc, at, done, State, call, resume, turn, chef, stop, Steps,
  Reach, here, later,
}
use os_coursework.Kitchen.Held.{Inv, AllBodies, Reach-Inv}

module _ (n : ℕ) (start : ℕ → List Instr) where
  -- The threads make moves in the given order; `none` if one of them cannot.
  unfoldable pub run : List ℕ → State → Option State
  run [] s = some s
  run (i ∷ is) s = elim (ltb i n) [
    | false ↦ none
    | true ↦ elim (turn (start i) i s) [ none ↦ none | some t ↦ run is t ]
  ]

  pub run-Steps :
      (is : List ℕ) {s t u : State} → Steps n start s t → run is t ≡ some u → Steps n start s u
  unfolding run
  run-Steps [] {s} {t} {u} r h = let e : t ≡ u = cc in subst (Steps n start s) e r
  run-Steps (i ∷ is) {t} r h = elim (Bool-cases (ltb i n)) [
    | inl lt ↦ elim (Option-cases (turn (start i) i t)) [
      | inl stuck ↦ ground (arith, lt, stuck)
      | inr (t', moved) ↦
          run-Steps is (later r (chef i (ground arith) moved)) (ground (arith, lt, moved))
    ]
    | inr ge ↦ ground (arith, ge)
  ]

-- Two threads, each waiting for a mutex that the other holds.
pub record Embrace (i j a b : ℕ) (s : State) : Type 0 where
  pub left_waits : (r : List Instr) × (s.pc i ≡ at (lock b ∷ r))
  pub right_waits : (r : List Instr) × (s.pc j ≡ at (lock a ∷ r))
  pub left_holds : s.owner a ≡ some i
  pub right_holds : s.owner b ≡ some j

module _ {n i j a b : ℕ} {s : State} (inv : Inv n s) (e : Embrace i j a b s) where
  open e use {left_waits, right_waits, left_holds, right_holds}

  resume-Embrace :
      (body : List Instr) (k : ℕ) (p : Pc) {t : State}
      → k < n
      → s.pc k ≡ p
      → resume body p k s ≡ some t
      → Embrace i j a b t
  unfolding resume call
  resume-Embrace body k (at []) lt q h = record {
    left_waits = (left_waits.0, ground (arith, left_waits.1));
    right_waits = (right_waits.0, ground (arith, right_waits.1));
    left_holds = ground arith;
    right_holds = ground arith;
  }
  resume-Embrace body k (at (lock m ∷ r)) lt q h = record {
    left_waits = (left_waits.0, ground (arith, left_waits.1));
    right_waits = (right_waits.0, ground (arith, right_waits.1));
    left_holds = ground arith;
    right_holds = ground arith;
  }
  resume-Embrace body k (at (unlock m ∷ r)) lt q h = record {
    left_waits = (left_waits.0, ground (arith, left_waits.1));
    right_waits = (right_waits.0, ground (arith, right_waits.1));
    left_holds = ground (arith, inv.held m k, left_waits.1);
    right_holds = ground (arith, inv.held m k, right_waits.1);
  }
  resume-Embrace body k (at (cook m ∷ r)) lt q h = record {
    left_waits = (left_waits.0, ground (arith, left_waits.1));
    right_waits = (right_waits.0, ground (arith, right_waits.1));
    left_holds = ground arith;
    right_holds = ground arith;
  }
  resume-Embrace body k (at (rest m ∷ r)) lt q h = record {
    left_waits = (left_waits.0, ground (arith, left_waits.1));
    right_waits = (right_waits.0, ground (arith, right_waits.1));
    left_holds = ground arith;
    right_holds = ground arith;
  }
  resume-Embrace body k (at (say ∷ r)) lt q h = record {
    left_waits = (left_waits.0, ground (arith, left_waits.1));
    right_waits = (right_waits.0, ground (arith, right_waits.1));
    left_holds = ground arith;
    right_holds = ground arith;
  }
  resume-Embrace body k done lt q h = cc

module _ {n : ℕ} {start : ℕ → List Instr} (bodies : AllBodies n start) {i j a b : ℕ} {s : State}
    (r : Reach n start s) (e : Embrace i j a b s) where
  append_steps : {t : State} → Steps n start s t → Reach n start t
  append_steps here = r
  append_steps (later q st) = later (append_steps q) st

  Steps-Embrace : {t : State} → Steps n start s t → Embrace i j a b t
  unfolding turn
  Steps-Embrace here = e
  Steps-Embrace (later {t = t} q (chef k lt h)) =
      resume-Embrace (Reach-Inv bodies (append_steps q)) (Steps-Embrace q) (start k) k (t.pc k) lt
        refl h
  Steps-Embrace (later q stop) =
      let e' = Steps-Embrace q in
      record {
        left_waits = e'.left_waits;
        right_waits = e'.right_waits;
        left_holds = e'.left_holds;
        right_holds = e'.right_holds;
      }

  -- From then on neither ever moves, and neither returns.
  pub embrace_lasts :
      {t : State}
      → Steps n start s t
      → (turn (start i) i t ≡ none)
        × (turn (start j) j t ≡ none)
        × (t.pc i ≢ done)
        × (t.pc j ≢ done)
  unfolding turn resume call
  embrace_lasts {t} q =
      let e' = Steps-Embrace q in
      (
        ground (arith, e'.left_waits.1, e'.right_holds),
        ground (arith, e'.right_waits.1, e'.left_holds),
        ground (arith, e'.left_waits.1),
        ground (arith, e'.right_waits.1),
      )
