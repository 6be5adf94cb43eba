-- ===== src/Triangles/Measure.antt =====
-- assignments/hw4/triangles-sem.c: a number that every step makes smaller.
use os_coursework.Prelude.{
  ℕ, zero, suc, ◌+◌, ◌-◌, ◌*◌, ◌≤◌, ◌<◌, ◌≡◌, refl, ap, subst, inl, inr, Bool-cases, ltb, some,
  some_inj, List, length, leb, zero_or, sum_below, arith,
}
use os_coursework.Triangles.Sem.{
  Stage, waiting, woken, checked, working, returned, State, found_below, at_stage, advance, post,
  max_values, Step, work, main_post, Steps, here, later,
}
use os_coursework.Triangles.Queue.{about_to_take, total, IsQueue, Steps-IsQueue, total-update}

abbrev weight : Stage → ℕ
weight waiting = 3
weight woken = 2
weight checked = 1
weight (working index) = 4
weight returned = 0

-- A number that every step makes smaller.
abbrev pub measure : List ℕ → ℕ → State → ℕ
measure v workers s =
    s.to_post + 4 * (length v + workers - s.next_work_index) + total workers weight s

moved-measure :
    (v : List ℕ) (workers : ℕ) (s : State) (i : ℕ) (t : Stage) (available next count : ℕ)
    → i < workers
    → 4 * (length v + workers - next) + weight t
      < 4 * (length v + workers - s.next_work_index) + weight (s.stage i)
    → measure v workers (record (at_stage s i t) {
      available = available;
      next_work_index = next;
      global_count = count;
    })
      < measure v workers s
moved-measure v workers s i t available next count lt less =
    omega (arith, total-update workers weight s.stage i t lt, less)

taking_some :
    (v : List ℕ) (workers : ℕ) (s : State) (i : ℕ)
    → IsQueue v workers s
    → i < workers
    → s.stage i ≡ checked
    → s.next_work_index < length v + workers
taking_some v workers s i q lt e =
    let other = total-update workers about_to_take s.stage i waiting lt in
    let one = ap about_to_take e in omega (arith, q.near, other, one)

advance-measure :
    {v : List ℕ} {workers : ℕ} {s t : State} (i : ℕ) (stage : Stage)
    → i < workers
    → s.stage i ≡ stage
    → advance v i stage s ≡ some t
    → IsQueue v workers s
    → measure v workers t < measure v workers s
unfolding advance
advance-measure {v} {workers} {s} i waiting lt at_i e q = elim (zero_or s.available) [
  | inl none_left ↦ absurd (cc (rw none_left at e))
  | inr (n, some_left) ↦
      subst (λ t. measure v workers t < measure v workers s) (some_inj (rw some_left at e))
        (moved-measure v workers s i woken n s.next_work_index s.global_count lt
          (omega (arith, ap weight at_i)))
]
advance-measure {v} {workers} {s} i woken lt at_i e q =
    elim (Bool-cases (leb (length v) s.next_work_index)) [
      | inl over ↦
          subst (λ t. measure v workers t < measure v workers s) (some_inj (rw over at e))
            (moved-measure v workers s i returned s.available s.next_work_index s.global_count lt
              (omega (arith, ap weight at_i)))
      | inr more ↦
          subst (λ t. measure v workers t < measure v workers s) (some_inj (rw more at e))
            (moved-measure v workers s i checked s.available s.next_work_index s.global_count lt
              (omega (arith, ap weight at_i)))
    ]
advance-measure {v} {workers} {s} i checked lt at_i e q =
    let room = taking_some v workers s i q lt at_i in
    subst (λ t. measure v workers t < measure v workers s) (some_inj e)
      (moved-measure v workers s i (working s.next_work_index) s.available (s.next_work_index + 1)
        s.global_count lt (omega (arith, ap weight at_i, room)))
advance-measure {v} {workers} {s} i (working index) lt at_i e q =
    elim (Bool-cases (ltb index max_values)) [
      | inl inside ↦
          subst (λ t. measure v workers t < measure v workers s) (some_inj (rw inside at e))
            (moved-measure v workers s i waiting (s.available + 1) s.next_work_index
              (s.global_count + found_below v index) lt (omega (arith, ap weight at_i)))
      | inr behind ↦ absurd (cc (rw behind at e))
    ]
advance-measure i returned lt at_i e q = absurd (cc (e))

post-measure :
    (v : List ℕ) (workers : ℕ) (s : State) {t : State}
    → post s ≡ some t
    → measure v workers t < measure v workers s
unfolding post
post-measure v workers s e = elim (zero_or s.to_post) [
  | inl none_left ↦ absurd (cc (rw none_left at e))
  | inr (n, some_left) ↦
      subst (λ t. measure v workers t < measure v workers s) (some_inj (rw some_left at e))
        (omega (arith, some_left))
]

Step-measure :
    {v : List ℕ} {workers : ℕ} {s t : State}
    → IsQueue v workers s
    → Step v workers s t
    → measure v workers t < measure v workers s
Step-measure {s = s} q (work i lt e) = advance-measure i (s.stage i) lt refl e q
Step-measure {v} {workers} {s} q (main_post e) = post-measure v workers s e

abbrev pub steps_count : {v : List ℕ} {workers : ℕ} {s t : State} → Steps v workers s t → ℕ
steps_count here = 0
steps_count (later steps step) = suc (steps_count steps)

pub Steps-measure :
    {v : List ℕ} {workers : ℕ} {s t : State}
    → IsQueue v workers s
    → (steps : Steps v workers s t) → steps_count steps + measure v workers t ≤ measure v workers s
Steps-measure q here = omega arith
Steps-measure q (later steps step) =
    omega (arith, Steps-measure q steps, Step-measure (Steps-IsQueue steps q) step)

pub threes : (n : ℕ) → sum_below n (λ i. 3) ≡ 3 * n
unfolding sum_below
threes zero = refl
threes (suc n) = omega (arith, threes n)
