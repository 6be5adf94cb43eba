-- ===== src/Kitchen/Global/Laws.antt =====
-- What holds of the kitchen of assignments/hw5/global.c: one chef cooks at a time, and all finish.
use os_coursework.Prelude.{
  ℕ, ◌≤◌, ◌<◌, ◌≡◌, true, false, [], ◌∷◌, arith, All, All-get_or, refl, get_or,
}
use os_coursework.Kitchen.Threads.{State, Reach, ChefRec}
use os_coursework.Kitchen.Held.{IsBody}
use os_coursework.Kitchen.Progress.{Climbs, CanMove}
use os_coursework.Kitchen.Exclusive.{Equipped, cooking_apart}
use os_coursework.Kitchen.Finish.{work, Moves, AllDone, finishes, is_cooking}
use os_coursework.Kitchen.Global.{
  kitchen_lock, tad, merry, charles, merlin, lyn, marian, summer, sammy, lura, ginny, chef_list,
  nobody, start, count,
}

record IsGood (c : ChefRec) : Type 0 where
  body : IsBody c.start
  climbs : Climbs 1 c.start
  equipped : Equipped (kitchen_lock ∷ []) c.start

chefs-IsGood : All IsGood chef_list
unfolding chef_list tad merry charles merlin lyn marian summer sammy lura ginny
chefs-IsGood = ground arith

start-IsGood : (i : ℕ) → i < count → IsGood (get_or chef_list i nobody)
unfolding chef_list
start-IsGood i lt = All-get_or IsGood chef_list nobody chefs-IsGood i lt

-- One chef cooks at a time.
one_cooks :
    {s : State}
    → Reach count start s
    → (i j : ℕ) → i < count
    → j < count
    → is_cooking (s.pc i) ≡ true
    → is_cooking (s.pc j) ≡ true
    → i ≡ j
unfolding start
one_cooks r i j lt lt' c c' =
    cooking_apart count start (λ _. kitchen_lock ∷ []) (λ k h. (start-IsGood k h).body)
      (λ k h. (start-IsGood k h).equipped) r kitchen_lock i j lt lt' c c' refl refl

-- Once `main` has set `running` to false, a run of the chefs' moves is at most as long as the moves
-- left; one that long has every chef returned, and after a shorter one some chef can move.
global_finishes :
    {s t : State} {k : ℕ}
    → Reach count start s
    → s.running ≡ false
    → Moves count start s k t
    → (k ≤ work count s)
      × (k ≡ work count s → AllDone count t)
      × (k < work count s → CanMove count start t)
unfolding start
global_finishes =
    finishes 1 count start (λ k h. (start-IsGood k h).body) (λ k h. (start-IsGood k h).climbs)
