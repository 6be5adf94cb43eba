-- ===== src/PingPong/Turns.antt =====
-- exercises/ex06/pingpong.c does what exercises/ex07/pingpong.c does.
use os_coursework.Prelude.{ℕ, ◌+◌, ◌-◌, ◌≤◌, ◌≡◌, refl, ap, subst, arith}
use os_coursework.PingPong.{
  Stage, waits, posts, State, init, Step, ping_wait, ping_post, pong_wait, pong_post, Steps, here,
  later,
}
use os_coursework.PingPong.Spin.{
  SpinState, spin_init, SpinStep, ping_sees, ping_sets, pong_sees, pong_sets, SpinSteps, spin_here,
  spin_later,
}
use os_coursework.PingPong.Laws.{inside}

-- The semaphores that say the same as `nextTurn`.
abbrev pub with_semaphores : SpinState → State
with_semaphores s = record {
  ping_next = 1 - s.next_turn - inside s.ping;
  pong_next = s.next_turn - inside s.pong;
  ping = s.ping;
  pong = s.pong;
}

-- Only the thread whose turn it is gets out of its loop.
record HasTurn (s : SpinState) : Type 0 where
  turn : s.next_turn ≤ 1
  ping_turn : inside s.ping + s.next_turn ≤ 1
  pong_turn : inside s.pong ≤ s.next_turn

abbrev semaphores : ℕ → ℕ → Stage → Stage → State
semaphores ping_next pong_next ping pong = record {
  ping_next = ping_next;
  pong_next = pong_next;
  ping = ping;
  pong = pong;
}

same_semaphores :
    {a b c d : ℕ} {ping pong : Stage}
    → a ≡ b
    → c ≡ d
    → semaphores a c ping pong ≡ semaphores b d ping pong
same_semaphores e e' = cc (e, e')

step_to :
    {s : State} {a b c d : ℕ} {ping pong : Stage}
    → a ≡ b
    → c ≡ d
    → Step s (semaphores a c ping pong)
    → Step s (semaphores b d ping pong)
step_to {s = s} {ping = ping} {pong = pong} e e' = subst (λ t. Step s t) (same_semaphores e e')

SpinStep-HasTurn : {s t : SpinState} → SpinStep s t → HasTurn s → HasTurn t
SpinStep-HasTurn (ping_sees n at_wait turn) h = record {
  turn = h.turn;
  ping_turn = omega (arith, turn);
  pong_turn = h.pong_turn;
}
SpinStep-HasTurn (ping_sets n at_post) h = record {
  turn = omega arith;
  ping_turn = omega arith;
  pong_turn = omega (arith, h.pong_turn, h.turn);
}
SpinStep-HasTurn (pong_sees n at_wait turn) h = record {
  turn = h.turn;
  ping_turn = h.ping_turn;
  pong_turn = omega (arith, turn);
}
SpinStep-HasTurn (pong_sets n at_post) h = record {
  turn = omega arith;
  ping_turn = omega (arith, h.ping_turn);
  pong_turn = omega arith;
}

-- A step is the step of the other program on the semaphores.
SpinStep-Step :
    {s t : SpinState} → SpinStep s t → HasTurn s → Step (with_semaphores s) (with_semaphores t)
SpinStep-Step {s} (ping_sees n at_wait turn) h =
    step_to (omega (arith, turn)) refl
      (ping_wait n 0 at_wait (omega (arith, turn, ap inside at_wait)))
SpinStep-Step {s} (ping_sets n at_post) h =
    step_to (omega (arith, h.ping_turn, ap inside at_post))
      (omega (arith, h.ping_turn, h.pong_turn, ap inside at_post)) (ping_post n at_post)
SpinStep-Step {s} (pong_sees n at_wait turn) h =
    step_to refl (omega (arith, turn))
      (pong_wait n 0 at_wait (omega (arith, turn, ap inside at_wait)))
SpinStep-Step {s} (pong_sets n at_post) h =
    step_to (omega (arith, h.ping_turn, h.pong_turn, ap inside at_post))
      (omega (arith, h.turn, ap inside at_post)) (pong_post n at_post)

SpinSteps-HasTurn : {n : ℕ} {s : SpinState} → SpinSteps (spin_init n) s → HasTurn s
SpinSteps-HasTurn spin_here = record {
  turn = omega arith;
  ping_turn = omega arith;
  pong_turn = omega arith;
}
SpinSteps-HasTurn (spin_later steps step) = SpinStep-HasTurn step (SpinSteps-HasTurn steps)

SpinSteps-Steps :
    {n : ℕ} {s : SpinState} → SpinSteps (spin_init n) s → Steps (init n) (with_semaphores s)
SpinSteps-Steps spin_here = here
SpinSteps-Steps (spin_later steps step) =
    later (SpinSteps-Steps steps) (SpinStep-Step step (SpinSteps-HasTurn steps))

-- And a step of the other program is a step of this one.
Step-SpinStep :
    {s : SpinState} {t : State}
    → HasTurn s
    → Step (with_semaphores s) t
    → (u : SpinState) × SpinStep s u × (with_semaphores u ≡ t)
Step-SpinStep {s} h (ping_wait n k at_wait token) = (
  record s { ping = posts n },
  ping_sees n at_wait (omega (arith, token)),
  same_semaphores (omega (arith, token, ap inside at_wait)) refl,
)
Step-SpinStep {s} h (ping_post n at_post) = (
  record s { ping = waits n; next_turn = 1 },
  ping_sets n at_post,
  same_semaphores (omega (arith, h.ping_turn, ap inside at_post))
      (omega (arith, h.ping_turn, h.pong_turn, ap inside at_post)),
)
Step-SpinStep {s} h (pong_wait n k at_wait token) = (
  record s { pong = posts n },
  pong_sees n at_wait (omega (arith, h.turn, token)),
  same_semaphores refl (omega (arith, token, ap inside at_wait)),
)
Step-SpinStep {s} h (pong_post n at_post) = (
  record s { pong = waits n; next_turn = 0 },
  pong_sets n at_post,
  same_semaphores (omega (arith, h.ping_turn, h.pong_turn, ap inside at_post))
      (omega (arith, h.turn, h.pong_turn, ap inside at_post)),
)

-- What `nextTurn` and the two threads have come to in the program with the loops is, with semaphores
-- for `nextTurn`, a state that the program with semaphores comes to, and each step that the latter can
-- make there is a step of the former.
pub turns-Steps :
    {n : ℕ} {s : SpinState}
    → SpinSteps (spin_init n) s
    → Steps (init n) (with_semaphores s)
      × ((t : State)
          → Step (with_semaphores s) t
          → (u : SpinState) × SpinStep s u × (with_semaphores u ≡ t))
turns-Steps steps = (SpinSteps-Steps steps, λ t step. Step-SpinStep (SpinSteps-HasTurn steps) step)
