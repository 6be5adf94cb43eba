-- ===== src/Kitchen/TakeAll/Tests.antt =====
-- Two chefs of takeAll.c that need the griddle, and the theorems at a run of theirs.
use os_coursework.Prelude.{ℕ, ◌<◌, ◌≡◌, refl, some, arith}
use os_coursework.Kitchen.TakeAll.{
  waiting, cooking, State, all_available, set_all, wait_and_acquire_appliances, resume, turn, chef,
  Reach, here, later, griddle, charles, lyn, chef_list, needs, count,
}
use os_coursework.Kitchen.TakeAll.Laws.{take_all_apart, take_all_no_deadlock}

-- Charles has taken the griddle and Lyn waits for it.
lyn_waits : (s : State) × Reach count needs s × (s.stage 2 ≡ cooking) × (s.stage 4 ≡ waiting)
unfolding resume turn wait_and_acquire_appliances all_available set_all needs chef_list charles lyn
lyn_waits = (
  _,
  later
      (later (later (later here (chef 2 (omega arith) refl)) (chef 4 (omega arith) refl))
        (chef 2 (omega arith) refl))
      (chef 4 (omega arith) refl),
  refl,
  refl,
)

take_all_apart_example : ◌≡◌ {A = ℕ} 2 2
unfolding needs chef_list charles
take_all_apart_example =
    take_all_apart lyn_waits.1 griddle 2 2 (omega arith) (omega arith) (ground (arith, lyn_waits.2))
      (ground (arith, lyn_waits.2)) refl refl

take_all_no_deadlock_example :
    (j : ℕ) × (t : State) × (j < count) × (turn (needs j) j lyn_waits.0 ≡ some t)
take_all_no_deadlock_example =
    take_all_no_deadlock lyn_waits.1 4 (omega arith) (λ e. ground (arith, e, lyn_waits.3))
