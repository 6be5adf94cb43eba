-- ===== src/Triangles/Queue.antt =====
-- assignments/hw4/triangles-sem.c: what every state of the workers and their queue satisfies.
use os_coursework.Prelude.{
  ℕ, zero, suc, ◌+◌, ◌≤◌, ◌<◌, ◌≡◌, refl, ap, subst, inl, inr, ◌⊎◌, Bool-cases, some, List, length,
  leb, ltb, leb→le, ◌==◌, zero_or, some_inj, update, update-all, sum_below, sum_below-zero,
  sum_below-update, arith,
}
use os_coursework.Triangles.Sem.{
  Stage, waiting, woken, checked, working, returned, State, init, found_below, at_stage, advance,
  post, Step, work, main_post, Steps, here, later, max_values,
}
use os_coursework.Triangles.Sums.{sum_below-cong}

-- What a worker has taken and not yet counted.
abbrev pub pending : List ℕ → Stage → ℕ
pending v waiting = 0
pending v woken = 0
pending v checked = 0
pending v (working index) = found_below v index
pending v returned = 0

-- Whether a worker has passed `sem_wait(&workAvailable)` more often than it posted.
abbrev pub holding : Stage → ℕ
holding waiting = 0
holding woken = 1
holding checked = 1
holding (working index) = 1
holding returned = 1

abbrev pub about_to_take : Stage → ℕ
about_to_take waiting = 0
about_to_take woken = 0
about_to_take checked = 1
about_to_take (working index) = 0
about_to_take returned = 0

abbrev pub total : ℕ → (Stage → ℕ) → State → ℕ
total workers f s = sum_below workers (λ i. f (s.stage i))

-- All indices that a worker holds are below this.
abbrev pub taken_below : Stage → ℕ
taken_below waiting = 0
taken_below woken = 0
taken_below checked = 0
taken_below (working index) = suc index
taken_below returned = 0

pub record IsQueue (v : List ℕ) (workers : ℕ) (s : State) : Type 0 where
  pub counted :
      s.global_count + total workers (pending v) s ≡ sum_below s.next_work_index (found_below v)
  pub tokens : s.available + s.to_post + total workers holding s ≡ workers
  pub near : s.next_work_index + total workers about_to_take s ≤ length v + workers
  pub taken : (i : ℕ) → i < workers → taken_below (s.stage i) ≤ s.next_work_index
  pub over : (i : ℕ) → i < workers → s.stage i ≡ returned → length v ≤ s.next_work_index

sum_below-le : (n : ℕ) (f g : ℕ → ℕ) → ((i : ℕ) → f i ≤ g i) → sum_below n f ≤ sum_below n g
unfolding sum_below
sum_below-le zero f g h = omega arith
sum_below-le (suc n) f g h = omega (arith, sum_below-le n f g h, h n)

pub total-update :
    (workers : ℕ) (f : Stage → ℕ) (stage : ℕ → Stage) (i : ℕ) (t : Stage)
    → i < workers
    → sum_below workers (λ j. f (update stage i t j)) + f (stage i)
      ≡ sum_below workers (λ j. f (stage j)) + f t
total-update workers f stage i t lt = omega (
  arith,
  sum_below-cong workers (λ j. f (update stage i t j)) (update (λ j. f (stage j)) i (f t))
      (λ j jn. moved j),
  sum_below-update workers (λ j. f (stage j)) i (f t) lt,
)
  where
    moved : (j : ℕ) → f (update stage i t j) ≡ update (λ k. f (stage k)) i (f t) j
    moved j = elim (Bool-cases (i == j)) [ inl e ↦ rw e refl | inr e ↦ rw e refl ]

taking_holding : (t : Stage) → about_to_take t ≤ holding t
taking_holding waiting = omega arith
taking_holding woken = omega arith
taking_holding checked = omega arith
taking_holding (working index) = omega arith
taking_holding returned = omega arith

pub init-IsQueue : (v : List ℕ) (workers : ℕ) → IsQueue v workers (init workers)
unfolding sum_below
init-IsQueue v workers =
    let nothing = sum_below-zero workers in
    record {
      counted = omega (arith, nothing);
      tokens = omega (arith, nothing);
      near = omega (arith, nothing);
      taken = λ i lt. omega arith;
      over = λ i lt e. absurd (cc (e));
    }

-- A worker that moves on, with what it changes.
moved-IsQueue :
    {v : List ℕ} {workers : ℕ} {s : State}
    → IsQueue v workers s
    → (i : ℕ) (t : Stage) (available next count : ℕ) → i < workers
    → count + pending v t + sum_below s.next_work_index (found_below v)
      ≡ s.global_count + pending v (s.stage i) + sum_below next (found_below v)
    → available + holding t ≡ s.available + holding (s.stage i)
    → (next + about_to_take t ≤ s.next_work_index + about_to_take (s.stage i)) ⊎ (next < length v)
    → s.next_work_index ≤ next
    → taken_below t ≤ next
    → (t ≡ returned → length v ≤ next)
    → IsQueue v workers (record (at_stage s i t) {
      available = available;
      next_work_index = next;
      global_count = count;
    })
moved-IsQueue {v} {workers} {s} q i t available next count lt counts posts takes grows below ends =
    let held = total-update workers holding s.stage i t lt in
    let taking = total-update workers about_to_take s.stage i t lt in
    let few =
      sum_below-le workers (λ j. about_to_take (update s.stage i t j))
        (λ j. holding (update s.stage i t j)) (λ j. taking_holding (update s.stage i t j)) in
    record {
      counted = omega (arith, q.counted, counts, total-update workers (pending v) s.stage i t lt);
      tokens = omega (arith, q.tokens, posts, held);
      near = elim takes [
        | inl le ↦ omega (arith, q.near, taking)
        | inr within ↦ omega (arith, q.tokens, posts, held, few)
      ];
      taken =
          update-all (λ j stage. taken_below stage ≤ next) s.stage i t workers
            (λ j jn. omega (arith, q.taken j jn)) below;
      over =
          update-all (λ j stage. stage ≡ returned → length v ≤ next) s.stage i t workers
            (λ j jn e. omega (arith, q.over j jn e)) ends;
    }

sum_next : (f : ℕ → ℕ) (n : ℕ) → sum_below (n + 1) f ≡ sum_below n f + f n
unfolding sum_below
sum_next f n = ap (λ m. sum_below m f) {y = suc n} (omega arith)

-- What a worker does next, with the state after it.
advance-IsQueue :
    {v : List ℕ} {workers : ℕ} {s t : State} (i : ℕ) (stage : Stage)
    → i < workers
    → s.stage i ≡ stage
    → advance v i stage s ≡ some t
    → IsQueue v workers s
    → IsQueue v workers t
unfolding advance
advance-IsQueue {v} {workers} {s} i waiting lt at_i e q = elim (zero_or s.available) [
  | inl none_left ↦ absurd (cc (rw none_left at e))
  | inr (n, some_left) ↦ subst (IsQueue v workers) (some_inj (rw some_left at e)) (
      moved-IsQueue q i woken n s.next_work_index s.global_count lt (rw at_i refl)
        (rw at_i (omega (arith, some_left))) (inl (rw at_i (omega arith))) (omega arith)
        (omega arith) (λ r. absurd (cc (r))))
]
advance-IsQueue {v} {workers} {s} i woken lt at_i e q =
    elim (Bool-cases (leb (length v) s.next_work_index)) [
      | inl over ↦ subst (IsQueue v workers) (some_inj (rw over at e)) (
          moved-IsQueue q i returned s.available s.next_work_index s.global_count lt (rw at_i refl)
            (rw at_i refl) (inl (rw at_i (omega arith))) (omega arith) (omega arith)
            (λ r. leb→le _ _ over))
      | inr more ↦ subst (IsQueue v workers) (some_inj (rw more at e)) (
          moved-IsQueue q i checked s.available s.next_work_index s.global_count lt (rw at_i refl)
            (rw at_i refl) (inr (ground (arith, more))) (omega arith) (omega arith)
            (λ r. absurd (cc (r))))
    ]
advance-IsQueue {v} {workers} {s} i checked lt at_i e q = subst (IsQueue v workers) (some_inj e) (
    moved-IsQueue q i (working s.next_work_index) s.available (s.next_work_index + 1) s.global_count
      lt (rw at_i (omega (arith, sum_next (found_below v) s.next_work_index))) (rw at_i refl)
      (inl (rw at_i (omega arith))) (omega arith) (omega arith) (λ r. absurd (cc (r))))
advance-IsQueue {v} {workers} {s} i (working index) lt at_i e q =
    elim (Bool-cases (ltb index max_values)) [
      | inl inside ↦ subst (IsQueue v workers) (some_inj (rw inside at e)) (
          moved-IsQueue q i waiting (s.available + 1) s.next_work_index
            (s.global_count + found_below v index) lt (rw at_i (omega arith))
            (rw at_i (omega arith)) (inl (rw at_i (omega arith))) (omega arith) (omega arith)
            (λ r. absurd (cc (r))))
      | inr behind ↦ absurd (cc (rw behind at e))
    ]
advance-IsQueue i returned lt at_i e q = absurd (cc (e))

post-IsQueue :
    {v : List ℕ} {workers : ℕ} {s t : State}
    → post s ≡ some t
    → IsQueue v workers s
    → IsQueue v workers t
unfolding post
post-IsQueue {v} {workers} {s} e q = elim (zero_or s.to_post) [
  | inl none_left ↦ absurd (cc (rw none_left at e))
  | inr (n, some_left) ↦ subst (IsQueue v workers) (some_inj (rw some_left at e)) (record {
    counted = q.counted;
    tokens = omega (arith, q.tokens, some_left);
    near = q.near;
    taken = q.taken;
    over = q.over;
  })
]

pub Step-IsQueue :
    {v : List ℕ} {workers : ℕ} {s t : State}
    → Step v workers s t
    → IsQueue v workers s
    → IsQueue v workers t
Step-IsQueue {s = s} (work i lt e) q = advance-IsQueue i (s.stage i) lt refl e q
Step-IsQueue (main_post e) q = post-IsQueue e q

pub Steps-IsQueue :
    {v : List ℕ} {workers : ℕ} {s t : State}
    → Steps v workers s t
    → IsQueue v workers s
    → IsQueue v workers t
Steps-IsQueue here q = q
Steps-IsQueue (later steps step) q = Step-IsQueue step (Steps-IsQueue steps q)

-- No worker holds an index that lies further behind the list than there are workers.
pub held-near :
    {v : List ℕ} {workers : ℕ} {s : State} (i index : ℕ)
    → IsQueue v workers s
    → i < workers
    → s.stage i ≡ working index
    → index < length v + workers
held-near i index q lt e = omega (arith, q.near, q.taken i lt, ap taken_below e)
