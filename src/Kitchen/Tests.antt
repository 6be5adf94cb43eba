-- ===== src/Kitchen/Tests.antt =====
-- Runs of the kitchens of assignments/hw5, and the theorems at them.
use os_coursework.Prelude.{
  ℕ, zero, suc, sum_below, ◌≤◌, ◌<◌, ◌≡◌, refl, true, false, some, List, [], ◌∷◌, arith, All,
}
use os_coursework.Kitchen.Threads.{
  Instr, State, init, call, resume, turn, stop, here, later, total_dishes,
}
use os_coursework.Kitchen.Progress.{CanMove}
use os_coursework.Kitchen.Finish.{is_cooking, none_yet, work, AllDone}
use os_coursework.Kitchen.Schedule.{run, run-Steps}
use os_coursework.Kitchen.Original
use os_coursework.Kitchen.Ordered
use os_coursework.Kitchen.Ordered.{chef_body, sort_appliances}
use os_coursework.Kitchen.Ordered.Sort.{Distinct}
use os_coursework.Kitchen.Ordered.Laws.{ordered_no_deadlock, ordered_finishes}
use os_coursework.Kitchen.Global

-- A run whose last state has thread 0 in the call of `cook`.
abbrev Cooks : ℕ → (ℕ → List Instr) → List ℕ → Type 0
Cooks n start is = (s : State) × (run n start is init ≡ some s) × (is_cooking (s.pc 0) ≡ true)

tad_cooks : Cooks Original.count Original.start (0 ∷ 0 ∷ 0 ∷ 0 ∷ [])
unfolding run turn resume call Original.start Original.chef_list Original.tad
tad_cooks = (_, refl, refl)

sorted_needs : sort_appliances (4 ∷ 6 ∷ 0 ∷ []) ≡ 0 ∷ 4 ∷ 6 ∷ []
unfolding sort_appliances Ordered.inner
sorted_needs = refl

-- Two chefs with the appliances of Lyn and Sammy.
abbrev two_needs : ℕ → List ℕ
two_needs i = elim i [ zero ↦ 1 ∷ 2 ∷ [] | suc _ ↦ 3 ∷ 2 ∷ [] ]

two_needs-Distinct : (i : ℕ) → i < 2 → Distinct (two_needs i)
two_needs-Distinct i lt = ground arith

two_needs_small :
    (i : ℕ) → i < 2 → Distinct (two_needs i) × All (λ a. a < Ordered.num_appliances) (two_needs i)
two_needs_small i lt = ground arith

abbrev two_bodies : ℕ → List Instr
two_bodies i = chef_body (two_needs i) 75

lyn_cooks : Cooks 2 two_bodies (0 ∷ 1 ∷ 0 ∷ 0 ∷ [])
unfolding run turn resume call chef_body Ordered.lock_appliances Ordered.unlock_appliances
    sort_appliances Ordered.inner
lyn_cooks = (_, refl, refl)

ordered_no_deadlock_example : CanMove 2 two_bodies lyn_cooks.0
ordered_no_deadlock_example =
    ordered_no_deadlock 2 two_needs (λ _. 75) two_needs_small
      (run-Steps 2 two_bodies (0 ∷ 1 ∷ 0 ∷ 0 ∷ []) here lyn_cooks.1) 0 (omega arith)
      (λ gone. ground (arith, gone, lyn_cooks.2))

abbrev stopped : State
stopped = record init { running = false }

ordered_finishes_example :
    (0 ≤ work Ordered.count stopped)
    × (0 ≡ work Ordered.count stopped → AllDone Ordered.count stopped)
    × (0 < work Ordered.count stopped → CanMove Ordered.count Ordered.start stopped)
ordered_finishes_example = ordered_finishes (later here stop) refl none_yet

lyn_cooks_globally : Cooks Global.count Global.start (0 ∷ 0 ∷ [])
unfolding run turn resume call Global.start Global.chef_list Global.tad
lyn_cooks_globally = (_, refl, refl)

abbrev one_body : ℕ → List Instr
one_body _ = Instr.cook 5 ∷ []

-- A chef that has just cooked.
cooked : (s : State) × (run 1 one_body (0 ∷ 0 ∷ []) init ≡ some s) × (total_dishes 1 s ≡ 1)
unfolding run turn resume call total_dishes sum_below
cooked = (_, refl, refl)
