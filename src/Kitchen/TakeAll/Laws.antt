-- ===== src/Kitchen/TakeAll/Laws.antt =====
-- What holds of the kitchen of assignments/hw5/takeAll.c.
use os_coursework.Prelude.{ℕ, ◌<◌, ◌≡◌, ◌≢◌, ◌⊎◌, inl, inr, refl, true, some, List, elem, arith}
use os_coursework.Kitchen.TakeAll.{
  Stage, head, asking, waiting, cooking, releasing, resting, done, State, resume, turn, Reach,
}
use os_coursework.Kitchen.TakeAll.Invariant.{has_taken, Reach-Inv}

-- Two chefs who have taken their appliances share none.
pub take_all_apart :
    {n : ℕ} {needed : ℕ → List ℕ} {s : State}
    → Reach n needed s
    → (m i j : ℕ) → i < n
    → j < n
    → has_taken (s.stage i) ≡ true
    → has_taken (s.stage j) ≡ true
    → elem m (needed i) ≡ true
    → elem m (needed j) ≡ true
    → i ≡ j
take_all_apart r = (Reach-Inv r).apart

-- No wakening is lost: of a chef who waits, another who will release it has a needed appliance.
waits_for_holder :
    {n : ℕ} {needed : ℕ → List ℕ} {s : State}
    → Reach n needed s
    → (i : ℕ) → i < n
    → s.stage i ≡ waiting
    → (j : ℕ) × (m : ℕ) × (j < n)
      × (has_taken (s.stage j) ≡ true)
      × (elem m (needed i) ≡ true)
      × (elem m (needed j) ≡ true)
waits_for_holder r i lt w =
    let inv = Reach-Inv r in
    let (m, e, u) = inv.blocked i lt w in
    let (j, ltj, taken, e') = inv.used m u in (j, m, ltj, taken, e, e')

stage_moves :
    (list : List ℕ) (p : Stage) (i : ℕ) (s : State)
    → p ≢ waiting
    → p ≢ done
    → (t : State) × (resume list p i s ≡ some t)
unfolding resume
stage_moves list head i s nw nd = (_, refl)
stage_moves list asking i s nw nd = (_, refl)
stage_moves list waiting i s nw nd = absurd (nw refl)
stage_moves list cooking i s nw nd = (_, refl)
stage_moves list releasing i s nw nd = (_, refl)
stage_moves list resting i s nw nd = (_, refl)
stage_moves list done i s nw nd = absurd (nd refl)

waiting? : (p : Stage) → (p ≡ waiting) ⊎ (p ≢ waiting)
waiting? waiting = inl refl
waiting? head = inr (λ e. cc)
waiting? asking = inr (λ e. cc)
waiting? cooking = inr (λ e. cc)
waiting? releasing = inr (λ e. cc)
waiting? resting = inr (λ e. cc)
waiting? done = inr (λ e. cc)

-- No deadlock: while a chef has not returned, some chef can make a move.
pub take_all_no_deadlock :
    {n : ℕ} {needed : ℕ → List ℕ} {s : State}
    → Reach n needed s
    → (i : ℕ) → i < n
    → s.stage i ≢ done
    → (j : ℕ) × (t : State) × (j < n) × (turn (needed j) j s ≡ some t)
unfolding turn
take_all_no_deadlock {needed} {s} r i lt nd = elim (waiting? (s.stage i)) [
  | inr free ↦ let (t, h) = stage_moves (needed i) (s.stage i) i s free nd in (i, t, lt, h)
  | inl w ↦
      let (j, m, ltj, taken, e, e') = waits_for_holder r i lt w in
      let (t, h) = stage_moves (needed j) (s.stage j) j s (λ q. ground arith) (λ q. ground arith) in
      (j, t, ltj, h)
]
