-- ===== src/PingPong/Spin.antt =====
-- exercises/ex06/pingpong.c: two threads that wait in a loop until `nextTurn` is theirs. A round of
-- that loop that finds it is not changes nothing.
use os_coursework.Prelude.{ℕ, suc, ◌≡◌}
use os_coursework.PingPong.{Stage, waits, posts}

-- A thread `waits` before the check that ends its loop, and `posts` before it sets `nextTurn`.
pub record SpinState : Type 0 where
  pub next_turn : ℕ
  pub ping : Stage
  pub pong : Stage

abbrev pub spin_init : ℕ → SpinState
spin_init n = record { next_turn = 0; ping = waits n; pong = waits n }

pub data SpinStep (s : SpinState) : SpinState → Type 0 where
  ping_sees :
      (n : ℕ) → s.ping ≡ waits (suc n) → s.next_turn ≡ 0 → SpinStep s (record s { ping = posts n })
  ping_sets : (n : ℕ) → s.ping ≡ posts n → SpinStep s (record s { ping = waits n; next_turn = 1 })
  pong_sees :
      (n : ℕ) → s.pong ≡ waits (suc n) → s.next_turn ≡ 1 → SpinStep s (record s { pong = posts n })
  pong_sets : (n : ℕ) → s.pong ≡ posts n → SpinStep s (record s { pong = waits n; next_turn = 0 })

pub data SpinSteps (s : SpinState) : SpinState → Type 0 where
  spin_here : SpinSteps s s
  spin_later : {t u : SpinState} → SpinSteps s t → SpinStep t u → SpinSteps s u
