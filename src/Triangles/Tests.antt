-- ===== src/Triangles/Tests.antt =====
-- Examples for the theorems about the triangle counters.
use os_coursework.Prelude.{ℕ, ◌≤◌, ◌<◌, ◌≡◌, refl, ◌⊎◌, List, [], ◌∷◌, arith, sum_below}
use os_coursework.Triangles.{
  main, check_triangle, for_sum, found, found_third, found_second, strided, find_triangles,
}
use os_coursework.Triangles.Sem.{
  returned, State, init, advance, post, Step, work, main_post, Steps, here, later,
}
use os_coursework.Triangles.Count.{triangles}
use os_coursework.Triangles.Strided.{main-triangles}
use os_coursework.Triangles.Measure.{steps_count}
use os_coursework.Triangles.Laws.{sem_finishes}

abbrev sides : List ℕ
sides = 3 ∷ 4 ∷ 5 ∷ 8 ∷ []

main-triangles_example : main sides 3 ≡ triangles sides
main-triangles_example = main-triangles sides 3 (omega arith)

-- 3, 4, 5 and 4, 5, 8.
sides_count : main sides 3 ≡ 2
unfolding main find_triangles strided found_second found_third for_sum found check_triangle
    sum_below
sides_count = refl

-- `main` posts, and a worker takes the first index.
some_steps : (s : State) × Steps sides 2 (init 2) s
unfolding advance post
some_steps = (
  _,
  later
      (later (later (later here (main_post refl)) (work 0 (omega arith) refl))
        (work 0 (omega arith) refl))
      (work 0 (omega arith) refl),
)

sem_finishes_example :
    (steps_count some_steps.1 ≤ 32)
    × (((t : State) × Step sides 2 some_steps.0 t)
        ⊎ (((i : ℕ) → i < 2 → some_steps.0.stage i ≡ returned)
            × (some_steps.0.global_count ≡ triangles sides)))
sem_finishes_example = sem_finishes (omega arith) (omega arith) some_steps.1
