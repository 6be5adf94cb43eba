-- ===== src/Deadlock/Tests.antt =====
-- A run of exercises/ex09/deadlock.c, and the theorems at it.
use os_coursework.Prelude.{◌≡◌, refl, true, false, some, [], ◌∷◌, arith}
use os_coursework.Kitchen.Threads.{State, init, call, resume, turn, here}
use os_coursework.Kitchen.Held.{holds}
use os_coursework.Kitchen.Progress.{CanMove}
use os_coursework.Kitchen.Schedule.{run, run-Steps}
use os_coursework.Deadlock.{bookmark, tamara, threads, start, count}
use os_coursework.Deadlock.Laws.{deadlock_free}

-- Tamara has the bookmark.
tamara_waits :
    (s : State) × (run count start (0 ∷ 0 ∷ []) init ≡ some s) × (holds bookmark (s.pc 0) ≡ true)
unfolding run turn resume call start threads tamara
tamara_waits = (_, refl, refl)

deadlock_free_example : CanMove count start tamara_waits.0
deadlock_free_example =
    deadlock_free (run-Steps count start (0 ∷ 0 ∷ []) here tamara_waits.1) 0 (omega arith)
      (λ gone. ground (arith, gone, tamara_waits.2))

abbrev stopped : State
stopped = record init { running = false }
