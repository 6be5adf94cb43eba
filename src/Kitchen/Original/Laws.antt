-- ===== src/Kitchen/Original/Laws.antt =====
-- What holds of the kitchen of assignments/hw5/kitchen.c, and how it gets stuck.
use os_coursework.Prelude.{
  ℕ, ◌<◌, ◌≡◌, ◌≢◌, refl, some, none, true, List, [], ◌∷◌, arith, All, All-get_or, elem,
}
use os_coursework.Kitchen.Threads.{
  Instr, lock, done, State, init, turn, Steps, here, Reach, resume, call,
}
use os_coursework.Kitchen.Held.{IsBody, AllBodies}
use os_coursework.Kitchen.Finish.{is_cooking}
use os_coursework.Kitchen.Exclusive.{Equipped, cooking_apart}
use os_coursework.Kitchen.Schedule.{run, run-Steps, Embrace, embrace_lasts}
use os_coursework.Kitchen.Original.{
  mixer, blender, tad, merry, charles, merlin, lyn, marian, summer, sammy, lura, ginny, chef_list,
  nobody, start, count,
}

chefs-IsBody : All (λ c. IsBody c.start) chef_list
unfolding chef_list tad merry charles merlin lyn marian summer sammy lura ginny
chefs-IsBody = ground arith

pub start-IsBody : AllBodies count start
unfolding start chef_list
start-IsBody i lt = All-get_or (λ c. IsBody c.start) chef_list nobody chefs-IsBody i lt

-- The appliances that the chef at index `i` needs: those that the loop body locks.
abbrev pub locked : List Instr → List ℕ
locked [] = []
locked (lock m ∷ r) = m ∷ locked r
locked (_ ∷ r) = locked r

chefs-Equipped : All (λ c. Equipped (locked c.start) c.start) chef_list
unfolding chef_list tad merry charles merlin lyn marian summer sammy lura ginny
chefs-Equipped = ground arith

-- Two chefs who cook at the same time share no appliance.
original_apart :
    {s : State}
    → Reach count start s
    → (m i j : ℕ) → i < count
    → j < count
    → is_cooking (s.pc i) ≡ true
    → is_cooking (s.pc j) ≡ true
    → elem m (locked (start i)) ≡ true
    → elem m (locked (start j)) ≡ true
    → i ≡ j
unfolding start chef_list
original_apart =
    cooking_apart count start (λ i. locked (start i)) start-IsBody
      (All-get_or (λ c. Equipped (locked c.start) c.start) chef_list nobody chefs-Equipped)

-- Merry takes the mixer and the oven, and Merlin the blender.
abbrev to_embrace : List ℕ
to_embrace = 1 ∷ 1 ∷ 1 ∷ 3 ∷ 3 ∷ []

stuck_state : (s : State) × (run count start to_embrace init ≡ some s) × Embrace 1 3 mixer blender s
unfolding run start chef_list merry merlin turn resume call
stuck_state = (
  _,
  refl,
  record { left_waits = (_, refl); right_waits = (_, refl); left_holds = refl; right_holds = refl },
)

-- Some run of the kitchen leads to a state from which, whatever happens, Merry and Merlin never
-- move again and never return.
pub original_deadlock :
    (s : State) × Reach count start s
    × ((t : State)
        → Steps count start s t
        → (turn (start 1) 1 t ≡ none)
          × (turn (start 3) 3 t ≡ none)
          × (t.pc 1 ≢ done)
          × (t.pc 3 ≢ done))
original_deadlock =
    let (s, runs, e) = stuck_state in
    let reached = run-Steps count start to_embrace here runs in
    (s, reached, λ t q. embrace_lasts start-IsBody reached e q)
