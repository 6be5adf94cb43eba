-- ===== src/PingPong.antt =====
-- exercises/ex07/pingpong.c: two threads that let each other go on by two semaphores. Spin.antt is
-- exercises/ex06/pingpong.c, where they wait in a loop for their turn.
pub mod Spin
mod Laws
mod Turns
mod Tests
use os_coursework.Prelude.{ℕ, zero, suc, ◌+◌, ◌≡◌}

abbrev pub iterations : ℕ
iterations = 500

-- A thread before `sem_wait`, with the iterations that it has left, or before `sem_post`, with those
-- that are left behind it. It has returned when it waits with none left.
pub data Stage : Type 0 where
  waits : ℕ → Stage
  posts : ℕ → Stage

pub record State : Type 0 where
  pub ping_next : ℕ
  pub pong_next : ℕ
  pub ping : Stage
  pub pong : Stage

-- `main`, with the number of iterations.
abbrev pub init : ℕ → State
init n = record { ping_next = 1; pong_next = 0; ping = waits n; pong = waits n }

-- One call of `pingRoutine` or of `pongRoutine`.
pub data Step (s : State) : State → Type 0 where
  ping_wait :
      (n k : ℕ)
      → s.ping ≡ waits (suc n)
      → s.ping_next ≡ suc k
      → Step s (record s { ping = posts n; ping_next = k })
  ping_post :
      (n : ℕ) → s.ping ≡ posts n → Step s (record s { ping = waits n; pong_next = s.pong_next + 1 })
  pong_wait :
      (n k : ℕ)
      → s.pong ≡ waits (suc n)
      → s.pong_next ≡ suc k
      → Step s (record s { pong = posts n; pong_next = k })
  pong_post :
      (n : ℕ) → s.pong ≡ posts n → Step s (record s { pong = waits n; ping_next = s.ping_next + 1 })

-- Any number of steps.
pub data Steps (s : State) : State → Type 0 where
  here : Steps s s
  later : {t u : State} → Steps s t → Step t u → Steps s u
