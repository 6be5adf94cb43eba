-- ===== src/Kitchen/Finish.antt =====
-- What happens once `main` has set `running` to false, and what `main` adds up.
use os_coursework.Prelude.{
  ℕ, suc, ◌+◌, ◌≤◌, ◌<◌, ◌≡◌, ◌∙◌, refl, Bool, true, false, some, List, [], ◌∷◌, update, inl, inr,
  if◌then◌else◌, arith, fun_ext, length, sum_below, sum_below-update, find_below, sum_below-zero,
}
use os_coursework.Kitchen.Threads.{
  Instr, lock, unlock, cook, rest, say, Pc, at, done, State, init, call, resume, turn, chef, stop,
  Reach, Steps, here, later, total_dishes,
}
use os_coursework.Kitchen.Held.{AllBodies}
use os_coursework.Kitchen.Tails.{call-pc}
use os_coursework.Kitchen.Progress.{AllClimb, CanMove, no_deadlock}

-- Moves that a thread still makes before it returns.
abbrev pub left : Pc → ℕ
left (at r) = length r + 1
left done = 0

abbrev pub work : ℕ → State → ℕ
work n s = sum_below n (λ i. left (s.pc i))

-- A run of `k` moves of the threads.
pub data Moves (n : ℕ) (start : ℕ → List Instr) (s : State) : ℕ → State → Type 0 where
  none_yet : Moves n start s 0 s
  one_more :
      {k : ℕ} {t u : State} (i : ℕ)
      → Moves n start s k t
      → i < n
      → turn (start i) i t ≡ some u
      → Moves n start s (suc k) u

left-update :
    (pc : ℕ → Pc) (i : ℕ) (p : Pc) (j : ℕ)
    → left (update pc i p j) ≡ update (λ h. left (pc h)) i (left p) j
left-update pc i p j = ground arith

work-update :
    (n i : ℕ) (s : State) (p : Pc)
    → i < n
    → sum_below n (λ j. left (update s.pc i p j)) + left (s.pc i) ≡ work n s + left p
work-update n i s p lt = rw (fun_ext (left-update s.pc i p)) (sum_below-update n _ i (left p) lt)

-- After `running` is false every move uses up one.
resume-work :
    (n i : ℕ) (body : List Instr) (s : State) (p : Pc) {t : State}
    → i < n
    → s.running ≡ false
    → s.pc i ≡ p
    → resume body p i s ≡ some t
    → (t.running ≡ false) × (work n t + 1 ≡ work n s)
unfolding resume
resume-work n i body s (at []) lt off e h = ground (arith, work-update n i s done lt)
resume-work n i body s (at (c ∷ r)) {t} lt off e h =
    let (same, flag) = call-pc c r i s h in
    (flag ∙ off, rw same (ground (arith, work-update n i s (at r) lt)))
resume-work n i body s done lt off e h = cc

pub Moves-work :
    {n : ℕ} {start : ℕ → List Instr} {s : State} {k : ℕ} {t : State}
    → s.running ≡ false
    → Moves n start s k t
    → (t.running ≡ false) × (k + work n t ≡ work n s)
unfolding turn
Moves-work off none_yet = (off, omega arith)
Moves-work {n} {start} off (one_more {k} {t} i run lt h) =
    let (quiet, spent) = Moves-work off run in
    let (quiet', less) = resume-work n i (start i) t (t.pc i) lt quiet refl h in
    (quiet', omega arith)

pub Moves-Reach :
    {n : ℕ} {start : ℕ → List Instr} {s : State} {k : ℕ} {t : State}
    → Reach n start s
    → Moves n start s k t
    → Reach n start t
Moves-Reach r none_yet = r
Moves-Reach r (one_more i run lt h) = later (Moves-Reach r run) (chef i lt h)

pub AllDone : ℕ → State → Type 0
AllDone n s = (i : ℕ) → i < n → s.pc i ≡ done

left-eq-zero : (p : Pc) → left p ≡ 0 → p ≡ done
left-eq-zero (at r) h = absurd (omega arith)
left-eq-zero done h = refl

-- Once `running` is false, every run of a kitchen with ascending locks ends after exactly the moves
-- that were left, with every thread returned, and before that some thread can move.
pub finishes :
    (limit n : ℕ) (start : ℕ → List Instr)
    → AllBodies n start
    → AllClimb limit n start
    → {s t : State} {k : ℕ} → Reach n start s
    → s.running ≡ false
    → Moves n start s k t
    → (k ≤ work n s) × (k ≡ work n s → AllDone n t) × (k < work n s → CanMove n start t)
unfolding AllDone
finishes limit n start bodies climb {s} {t} {k} r off run =
    elim (find_below n (λ i. left (t.pc i))) [
      | inl (all, zero_left) ↦ (
        omega (arith, spent),
        λ e i lt. left-eq-zero (t.pc i) (all i lt),
        λ lt. absurd (omega (arith, spent)),
      )
      | inr (i, lt, busy, some_left) ↦ (
        omega (arith, spent),
        λ e. absurd (omega (arith, spent)),
        λ below.
            no_deadlock limit n start climb bodies (Moves-Reach r run) i lt
              (λ gone. ground (arith, gone)),
      )
    ]
  where
    spent : k + work n t ≡ work n s
    spent = (Moves-work off run).1

abbrev pub is_cooking : Pc → Bool
is_cooking (at (cook _ ∷ _)) = true
is_cooking _ = false

-- The calls of `cook` in a run.
abbrev pub cooks : {n : ℕ} {start : ℕ → List Instr} {s t : State} → Steps n start s t → ℕ
cooks here = 0
cooks (later {t = s} r (chef i lt h)) = cooks r + (if is_cooking (s.pc i) then 1 else 0)
cooks (later r stop) = cooks r

resume-dishes :
    (n i : ℕ) (body : List Instr) (s : State) (p : Pc) {t : State}
    → i < n
    → resume body p i s ≡ some t
    → total_dishes n t ≡ total_dishes n s + (if is_cooking p then 1 else 0)
unfolding resume call total_dishes
resume-dishes n i body s (at []) lt h = ground arith
resume-dishes n i body s (at (lock m ∷ r)) lt h = ground arith
resume-dishes n i body s (at (unlock m ∷ r)) lt h = ground arith
resume-dishes n i body s (at (cook d ∷ r)) lt h =
    ground (arith, sum_below-update n s.dishes i (s.dishes i + 1) lt)
resume-dishes n i body s (at (rest m ∷ r)) lt h = ground arith
resume-dishes n i body s (at (say ∷ r)) lt h = ground arith
resume-dishes n i body s done lt h = cc

init-dishes : (n : ℕ) → total_dishes n init ≡ 0
unfolding total_dishes
init-dishes n = sum_below-zero n

-- What `main` adds up is the number of calls of `cook`: no dish is lost or counted twice.
total_dishes-eq-cooks :
    {n : ℕ} {start : ℕ → List Instr} {s : State} (r : Reach n start s) → total_dishes n s ≡ cooks r
unfolding turn total_dishes
total_dishes-eq-cooks {n} here = init-dishes n
total_dishes-eq-cooks {n} {start} (later {t = s} r (chef i lt h)) =
    omega (arith, resume-dishes n i (start i) s (s.pc i) lt h, total_dishes-eq-cooks r)
total_dishes-eq-cooks (later r stop) = total_dishes-eq-cooks r
