-- ===== src/Kitchen/Ordered/Laws.antt =====
-- What holds of the kitchen of assignments/hw5/ordered.c: it never gets stuck.
use os_coursework.Prelude.{ℕ, ◌≤◌, ◌<◌, ◌≡◌, ◌≢◌, true, false, List, arith, All, All-get_or, elem}
use os_coursework.Kitchen.Threads.{done, State, Reach, ChefRec}
use os_coursework.Kitchen.Held.{IsBody}
use os_coursework.Kitchen.Progress.{Climbs, CanMove, no_deadlock}
use os_coursework.Kitchen.Exclusive.{cooking_apart}
use os_coursework.Kitchen.Finish.{work, Moves, AllDone, finishes, is_cooking}
use os_coursework.Kitchen.Ordered.{
  num_appliances, tad, merry, charles, merlin, lyn, marian, summer, sammy, lura, ginny, chef_list,
  nobody, start, count, chef_body,
}
use os_coursework.Kitchen.Ordered.Sort.{Distinct}
use os_coursework.Kitchen.Ordered.Bodies.{chef_body-IsBody, chef_body-Climbs, chef_body-Equipped}

-- Whatever different appliances the chefs need, while a chef has not returned some chef can move.
pub ordered_no_deadlock :
    (n : ℕ) (needed : ℕ → List ℕ) (duration : ℕ → ℕ)
    → ((i : ℕ) → i < n → Distinct (needed i) × All (λ a. a < num_appliances) (needed i))
    → {s : State} → Reach n (λ i. chef_body (needed i) (duration i)) s
    → (i : ℕ) → i < n
    → s.pc i ≢ done
    → CanMove n (λ i. chef_body (needed i) (duration i)) s
ordered_no_deadlock n needed duration good =
    no_deadlock num_appliances n (λ i. chef_body (needed i) (duration i))
      (λ i lt. chef_body-Climbs (needed i) (duration i) (good i lt).0 num_appliances (good i lt).1)
      (λ i lt. chef_body-IsBody (needed i) (duration i) (good i lt).0)

abbrev IsGood : ChefRec → Type 0
IsGood c = IsBody c.start × Climbs num_appliances c.start

chefs-IsGood : All IsGood chef_list
unfolding chef_list tad merry charles merlin lyn marian summer sammy lura ginny
chefs-IsGood = search (chef_body-IsBody, chef_body-Climbs, arith)

-- Two chefs who cook at the same time need no appliance in common.
ordered_apart :
    (n : ℕ) (needed : ℕ → List ℕ) (duration : ℕ → ℕ)
    → ((i : ℕ) → i < n → Distinct (needed i))
    → {s : State} → Reach n (λ i. chef_body (needed i) (duration i)) s
    → (m i j : ℕ) → i < n
    → j < n
    → is_cooking (s.pc i) ≡ true
    → is_cooking (s.pc j) ≡ true
    → elem m (needed i) ≡ true
    → elem m (needed j) ≡ true
    → i ≡ j
ordered_apart n needed duration good =
    cooking_apart n (λ i. chef_body (needed i) (duration i)) needed
      (λ i lt. chef_body-IsBody (needed i) (duration i) (good i lt))
      (λ i lt. chef_body-Equipped (needed i) (duration i) (good i lt))

start-IsGood : (i : ℕ) → i < count → IsBody (start i) × Climbs num_appliances (start i)
unfolding start chef_list
start-IsGood i lt = All-get_or IsGood chef_list nobody chefs-IsGood i lt

-- The ten chefs of the program: once `main` has set `running` to false, a run of their moves is at
-- most as long as the moves left; one that long has every chef returned, and after a shorter one
-- some chef can move.
pub ordered_finishes :
    {s t : State} {k : ℕ}
    → Reach count start s
    → s.running ≡ false
    → Moves count start s k t
    → (k ≤ work count s)
      × (k ≡ work count s → AllDone count t)
      × (k < work count s → CanMove count start t)
ordered_finishes =
    finishes num_appliances count start (λ i lt. (start-IsGood i lt).0)
      (λ i lt. (start-IsGood i lt).1)
