-- ===== src/PingPong/Tests.antt =====
-- Examples for exercises/ex06/pingpong.c and exercises/ex07/pingpong.c.
use os_coursework.Prelude.{◌≡◌, refl}
use os_coursework.PingPong.{State, iterations, init, Step, ping_wait, ping_post, Steps, here, later}
use os_coursework.PingPong.Spin.{
  SpinState, spin_init, SpinStep, ping_sees, ping_sets, SpinSteps, spin_here, spin_later,
}
use os_coursework.PingPong.Turns.{with_semaphores, turns-Steps}

-- Ping waits and posts.
some_steps : (s : State) × Steps (init iterations) s
some_steps = (_, later (later here (ping_wait 499 0 refl refl)) (ping_post 499 refl))

-- It is pong's turn.
some_turns : (s : SpinState) × SpinSteps (spin_init 3) s
some_turns = (_, spin_later (spin_later spin_here (ping_sees 2 refl refl)) (ping_sets 2 refl))

turns-Steps_example :
    Steps (init 3) (with_semaphores some_turns.0)
    × ((t : State)
        → Step (with_semaphores some_turns.0) t
        → (u : SpinState) × SpinStep some_turns.0 u × (with_semaphores u ≡ t))
turns-Steps_example = turns-Steps some_turns.1
