-- ===== src/Triangles/Laws.antt =====
-- assignments/hw4/triangles-sem.c: the count, and that some step can be made until all have returned.
use os_coursework.Prelude.{
  ℕ, zero, suc, ◌+◌, ◌*◌, ◌≤◌, ◌<◌, ◌≡◌, refl, sym, ap, ◌∙◌, inl, inr, ◌⊎◌, lt→ltb, some, List,
  length, zero_or, sum_below, find_below, arith,
}
use os_coursework.Triangles.Sem.{
  Stage, waiting, woken, checked, working, returned, State, init, found_below, at_stage, advance,
  post, max_values, Step, work, main_post, Steps,
}
use os_coursework.Triangles.Sums.{sum_below-cong, sum_below-none, sum_below_add}
use os_coursework.Triangles.Count.{triangles, below-triangles}
use os_coursework.Triangles.Queue.{
  held-near, pending, holding, total, IsQueue, init-IsQueue, Steps-IsQueue,
}
use os_coursework.Triangles.Measure.{steps_count, Steps-measure, threes}

all_returned :
    {v : List ℕ} {workers : ℕ} {s : State}
    → IsQueue v workers s
    → 1 ≤ workers
    → ((i : ℕ) → i < workers → s.stage i ≡ returned)
    → s.global_count ≡ triangles v
all_returned {v} {workers} {s} q pos done = omega (
  arith,
  q.counted,
  sum_below-none workers (λ i. pending v (s.stage i)) (λ i lt. ap (pending v) (done i lt)),
  below-triangles v s.next_work_index (q.over 0 pos (done 0 pos)),
)

abbrev is_waiting : Stage → ℕ
is_waiting waiting = 1
is_waiting woken = 0
is_waiting checked = 0
is_waiting (working index) = 0
is_waiting returned = 0

abbrev is_active : Stage → ℕ
is_active waiting = 0
is_active woken = 1
is_active checked = 1
is_active (working index) = 1
is_active returned = 0

ones : (n : ℕ) → sum_below n (λ i. 1) ≡ n
unfolding sum_below
ones zero = refl
ones (suc n) = omega (arith, ones n)

wait_or_hold : (t : Stage) → is_waiting t + holding t ≡ 1
wait_or_hold waiting = refl
wait_or_hold woken = refl
wait_or_hold checked = refl
wait_or_hold (working index) = refl
wait_or_hold returned = refl

waiting-tokens :
    (workers : ℕ) (s : State) → total workers is_waiting s + total workers holding s ≡ workers
waiting-tokens workers s =
    sym (sum_below_add workers (λ i. is_waiting (s.stage i)) (λ i. holding (s.stage i)))
    ∙ (sum_below-cong workers _ (λ i. 1) (λ i lt. wait_or_hold (s.stage i)) ∙ ones workers)

active-advance :
    (v : List ℕ) (i : ℕ) (stage : Stage) (s : State)
    → 0 < is_active stage
    → ((index : ℕ) → stage ≡ working index → index < max_values)
    → (t : State) × (advance v i stage s ≡ some t)
unfolding advance
active-advance v i woken s h k = (_, refl)
active-advance v i checked s h k = (_, refl)
active-advance v i (working index) s h k =
    let inside = lt→ltb index max_values (k index refl) in
    (
      record (at_stage s i waiting) {
        global_count = s.global_count + found_below v index;
        available = s.available + 1;
      },
      rw inside refl,
    )
active-advance v i waiting s h k = absurd (omega (arith, h))
active-advance v i returned s h k = absurd (omega (arith, h))

waiting-advance :
    (v : List ℕ) (i : ℕ) (stage : Stage) (s : State) (n : ℕ)
    → 0 < is_waiting stage
    → s.available ≡ suc n
    → (t : State) × (advance v i stage s ≡ some t)
unfolding advance
waiting-advance v i waiting s n h e = (record (at_stage s i woken) { available = n }, rw e refl)
waiting-advance v i woken s n h e = absurd (omega (arith, h))
waiting-advance v i checked s n h e = absurd (omega (arith, h))
waiting-advance v i (working index) s n h e = absurd (omega (arith, h))
waiting-advance v i returned s n h e = absurd (omega (arith, h))

neither-returned : (t : Stage) → is_waiting t ≡ 0 → is_active t ≡ 0 → t ≡ returned
neither-returned waiting h k = absurd (omega (arith, h))
neither-returned woken h k = absurd (omega (arith, k))
neither-returned checked h k = absurd (omega (arith, k))
neither-returned (working index) h k = absurd (omega (arith, k))
neither-returned returned h k = refl

-- Somebody can go on, or all workers have returned.
progress :
    {v : List ℕ} {workers : ℕ} {s : State}
    → length v + workers ≤ max_values
    → IsQueue v workers s
    → ((t : State) × Step v workers s t) ⊎ ((i : ℕ) → i < workers → s.stage i ≡ returned)
unfolding post
progress {v} {workers} {s} room q = elim (find_below workers (λ i. is_active (s.stage i))) [
  | inr active ↦
      let (i, lt, pos, more) = active in
      let inside : (index : ℕ) → s.stage i ≡ working index → index < max_values =
        λ index held. omega (arith, room, held-near i index q lt held) in
      let (t, e) = active-advance v i (s.stage i) s pos inside in inl (t, work i lt e)
  | inl idle ↦ elim (find_below workers (λ i. is_waiting (s.stage i))) [
    | inl none_waits ↦ inr (λ i lt. neither-returned (s.stage i) (none_waits.0 i lt) (idle.0 i lt))
    | inr waits ↦
        let (i, lt, pos, more) = waits in
        elim (zero_or s.available) [
          | inr (n, token) ↦
              let (t, e) = waiting-advance v i (s.stage i) s n pos token in inl (t, work i lt e)
          | inl no_token ↦ elim (zero_or s.to_post) [
            | inr (n, left) ↦
                inl
                  (record s { to_post = n; available = s.available + 1 }, main_post (rw left refl))
            | inl posted ↦
                absurd (omega (arith, q.tokens, waiting-tokens workers s, more, no_token, posted))
          ]
        ]
  ]
]

-- While the list and the workers together are no more than the 10000 places of `vList`, in every
-- interleaving of at least one worker and `main` there are at most four steps for each value and eight
-- for each worker, and until all workers have returned some step can be made, none of them a read
-- behind the array. When they have returned, the total count is the number of triangles of the list,
-- although the check of `nextWorkIndex` without the lock may hand out indices behind the list.
pub sem_finishes :
    {v : List ℕ} {workers : ℕ} {s : State}
    → 1 ≤ workers
    → length v + workers ≤ max_values
    → (steps : Steps v workers (init workers) s)
    → (steps_count steps ≤ 4 * length v + 8 * workers)
      × (((t : State) × Step v workers s t)
          ⊎ (((i : ℕ) → i < workers → s.stage i ≡ returned) × (s.global_count ≡ triangles v)))
sem_finishes {v} {workers} {s} pos room steps =
    let q = Steps-IsQueue steps (init-IsQueue v workers) in
    let short = Steps-measure (init-IsQueue v workers) steps in
    (
      omega (arith, short, threes workers),
      elim (progress room q) [ inl step ↦ inl step | inr all ↦ inr (all, all_returned q pos all) ],
    )
