-- ===== src/Deadlock/Laws.antt =====
-- The threads of exercises/ex09/deadlock.c wait for their semaphores in one order, so none is stuck.
use os_coursework.Prelude.{ℕ, ◌≤◌, ◌<◌, ◌≡◌, ◌≢◌, true, false, List, [], arith, All, All-get_or}
use os_coursework.Kitchen.Threads.{Instr, State, done, Reach}
use os_coursework.Kitchen.Held.{IsBody, holds, held_once}
use os_coursework.Kitchen.Progress.{Climbs, CanMove, no_deadlock}
use os_coursework.Kitchen.Finish.{work, Moves, AllDone, finishes}
use os_coursework.Deadlock.{
  tamara, adolfo, terrie, dollie, alesha, benita, laverne, grady, arnold, gladys, threads, start,
  count,
}

abbrev IsGood : List Instr → Type 0
IsGood body = IsBody body × Climbs 9 body

threads-IsGood : All IsGood threads
unfolding threads tamara adolfo terrie dollie alesha benita laverne grady arnold gladys
threads-IsGood = ground arith

start-IsGood : (i : ℕ) → i < count → IsGood (start i)
unfolding start threads
start-IsGood i lt = All-get_or IsGood threads [] threads-IsGood i lt

-- In every reachable state a semaphore is held by one thread at most.
deadlock_exclusive :
    {s : State}
    → Reach count start s
    → (m i j : ℕ) → i < count
    → j < count
    → holds m (s.pc i) ≡ true
    → holds m (s.pc j) ≡ true
    → i ≡ j
deadlock_exclusive r m i j lt lt' = held_once (λ k h. (start-IsGood k h).0) r m i j lt lt'

-- In every reachable state in which some thread has not returned, some thread can make a move.
pub deadlock_free :
    {s : State} → Reach count start s → (i : ℕ) → i < count → s.pc i ≢ done → CanMove count start s
deadlock_free =
    no_deadlock 9 count start (λ k h. (start-IsGood k h).1) (λ k h. (start-IsGood k h).0)

-- Once `main` has set `running` to 0, a run of the threads' moves is at most as long as the moves
-- left; one that long has every thread returned, and after a shorter one some thread can move.
deadlock_finishes :
    {s t : State} {k : ℕ}
    → Reach count start s
    → s.running ≡ false
    → Moves count start s k t
    → (k ≤ work count s)
      × (k ≡ work count s → AllDone count t)
      × (k < work count s → CanMove count start t)
deadlock_finishes =
    finishes 9 count start (λ k h. (start-IsGood k h).0) (λ k h. (start-IsGood k h).1)
