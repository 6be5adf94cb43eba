-- ===== src/PingPong/Laws.antt =====
-- exercises/ex07/pingpong.c: the threads take turns and come to an end.
use os_coursework.Prelude.{
  ℕ, zero, suc, ◌+◌, ◌*◌, ◌≤◌, ◌≡◌, refl, ap, ◌∙◌, zero_or, ◌⊎◌, inl, inr, arith,
}
use os_coursework.PingPong.{
  Stage, waits, posts, State, init, Step, ping_wait, ping_post, pong_wait, pong_post, Steps, here,
  later,
}

-- The iterations that a thread has not finished.
abbrev pub left : Stage → ℕ
left (waits n) = n
left (posts n) = suc n

abbrev pub inside : Stage → ℕ
inside (waits n) = 0
inside (posts n) = 1

-- There is one token, and it tells which thread is behind.
record InTurn (s : State) : Type 0 where
  token : s.ping_next + s.pong_next + inside s.ping + inside s.pong ≡ 1
  behind : left s.pong ≡ left s.ping + (s.pong_next + inside s.pong)

init-InTurn : (n : ℕ) → InTurn (init n)
init-InTurn n = record { token = refl; behind = omega arith }

Step-InTurn : {s t : State} → Step s t → InTurn s → InTurn t
Step-InTurn (ping_wait n k at_wait token) q = record {
  token = omega (arith, q.token, token, ap inside at_wait);
  behind = omega (arith, q.behind, ap left at_wait);
}
Step-InTurn (ping_post n at_post) q = record {
  token = omega (arith, q.token, ap inside at_post);
  behind = omega (arith, q.behind, q.token, ap left at_post, ap inside at_post);
}
Step-InTurn (pong_wait n k at_wait token) q = record {
  token = omega (arith, q.token, token, ap inside at_wait);
  behind = omega (arith, q.behind, token, ap left at_wait, ap inside at_wait);
}
Step-InTurn (pong_post n at_post) q = record {
  token = omega (arith, q.token, ap inside at_post);
  behind = omega (arith, q.behind, q.token, ap left at_post, ap inside at_post);
}

Steps-InTurn : {s t : State} → Steps s t → InTurn s → InTurn t
Steps-InTurn here q = q
Steps-InTurn (later steps step) q = Step-InTurn step (Steps-InTurn steps q)

abbrev steps_count : {s t : State} → Steps s t → ℕ
steps_count here = 0
steps_count (later steps step) = suc (steps_count steps)

-- Twice the iterations, less one inside an iteration.
abbrev calls_left : Stage → ℕ
calls_left (waits n) = 2 * n
calls_left (posts n) = suc (2 * n)

Step-calls_left :
    {s t : State}
    → Step s t
    → suc (calls_left t.ping + calls_left t.pong) ≡ calls_left s.ping + calls_left s.pong
Step-calls_left (ping_wait n k at_wait token) = omega (arith, ap calls_left at_wait)
Step-calls_left (ping_post n at_post) = omega (arith, ap calls_left at_post)
Step-calls_left (pong_wait n k at_wait token) = omega (arith, ap calls_left at_wait)
Step-calls_left (pong_post n at_post) = omega (arith, ap calls_left at_post)

Steps-calls_left :
    {s t : State} (steps : Steps s t)
    → steps_count steps + (calls_left t.ping + calls_left t.pong)
      ≡ calls_left s.ping + calls_left s.pong
Steps-calls_left here = omega arith
Steps-calls_left (later steps step) = omega (arith, Steps-calls_left steps, Step-calls_left step)

-- Somebody goes on, or both have returned.
progress :
    (s : State) (ping pong : Stage)
    → s.ping ≡ ping
    → s.pong ≡ pong
    → InTurn s
    → ((t : State) × Step s t) ⊎ ((s.ping ≡ waits 0) × (s.pong ≡ waits 0))
progress s (posts n) pong e e' q =
    inl (record s { ping = waits n; pong_next = s.pong_next + 1 }, ping_post n e)
progress s (waits n) (posts m) e e' q =
    inl (record s { pong = waits m; ping_next = s.ping_next + 1 }, pong_post m e')
progress s (waits zero) (waits zero) e e' q = inr (e, e')
progress s (waits (suc n)) (waits zero) e e' q =
    absurd (omega (arith, q.behind, ap left e, ap left e'))
progress s (waits n) (waits (suc m)) e e' q = elim (zero_or s.pong_next) [
  | inr (k, token) ↦ inl (record s { pong = posts m; pong_next = k }, pong_wait m k e' token)
  | inl none_left ↦
      let same : n ≡ suc m =
        omega (arith, q.behind, none_left, ap left e, ap left e', ap inside e') in
      let token : s.ping_next ≡ 1 = omega (arith, q.token, none_left, ap inside e, ap inside e') in
      inl (record s { ping = posts m; ping_next = 0 }, ping_wait m 0 (e ∙ ap waits same) token)
]

-- In every interleaving pong has as many iterations left as ping or one more, some thread can go on
-- until both have returned, and that is after four calls for each iteration at most.
alternates :
    {n : ℕ} {s : State} (steps : Steps (init n) s)
    → (left s.ping ≤ left s.pong)
      × (left s.pong ≤ suc (left s.ping))
      × (steps_count steps ≤ 4 * n)
      × (((t : State) × Step s t) ⊎ ((s.ping ≡ waits 0) × (s.pong ≡ waits 0)))
alternates {n} {s} steps =
    let q = Steps-InTurn steps (init-InTurn n) in
    (
      omega (arith, q.behind),
      omega (arith, q.behind, q.token),
      omega (arith, Steps-calls_left steps),
      progress s s.ping s.pong refl refl q,
    )
