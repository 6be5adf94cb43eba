-- ===== src/Triangles/Count.antt =====
-- The loops of the triangle counters against the number of triangles of a list.
use os_coursework.Prelude.{
  ℕ, zero, suc, ◌+◌, ◌-◌, ◌≤◌, ◌<◌, ◌≡◌, refl, sym, ap, ◌∙◌, Bool, true, false, ◌&&◌, inl, inr,
  Bool-cases, List, [], ◌∷◌, length, get_or, if◌then◌else◌, ltb, ltb→lt, sum_below, arith,
}
use os_coursework.Triangles.{check_triangle, for_sum, found, found_third, found_second}
use os_coursework.Triangles.Sem.{found_below}
use os_coursework.Triangles.Sums.{
  sum_below-cong, sum_below-none, sum_below_swap, sum_below_longer, for_sum-window,
}

-- 1 for a triangle at three places in order.
unfoldable pub ordered : List ℕ → ℕ → ℕ → ℕ → ℕ
ordered v i j k = if ltb i j && ltb j k then found v i j k else 0

-- The number of triangles of a list: of places `i < j < k` whose values form one.
unfoldable pub triangles : List ℕ → ℕ
triangles v =
    let n = length v in sum_below n (λ i. sum_below n (λ j. sum_below n (λ k. ordered v i j k)))

third_term :
    (v : List ℕ) (i j k : ℕ)
    → i < j
    → (if ltb k (j + 1) then 0 else found v i j k) ≡ ordered v i j k
unfolding ordered
third_term v i j k ij = ground arith

found_third-ordered :
    (v : List ℕ) (i j : ℕ)
    → i < j
    → j < length v
    → found_third v i j ≡ sum_below (length v) (λ k. ordered v i j k)
unfolding found_third
found_third-ordered v i j ij lt =
    for_sum-window (length v - (j + 1)) (j + 1) (length v) (found v i j) (omega arith)
    ∙ sum_below-cong (length v) _ _ (λ k kn. third_term v i j k ij)

not_ordered : (v : List ℕ) (i j k : ℕ) → j ≤ i → ordered v i j k ≡ 0
unfolding ordered
not_ordered v i j k le = ground arith

second_term :
    (v : List ℕ) (i j : ℕ)
    → j < length v
    → (if ltb j (i + 1) then 0 else found_third v i j) ≡ sum_below (length v) (λ k. ordered v i j k)
second_term v i j lt = elim (Bool-cases (ltb j (i + 1))) [
  | inl before ↦ rw before (
      sym (
        sum_below-none (length v) _
          (λ k kn. not_ordered v i j k (omega (arith, ltb→lt j (i + 1) before)))))
  | inr behind ↦ rw behind (found_third-ordered v i j (ground (arith, behind)) lt)
]

zero_if : (b : Bool) {x : ℕ} → x ≡ 0 → (if b then 0 else x) ≡ 0
zero_if true e = refl
zero_if false e = e

last_third : (v : List ℕ) (i j : ℕ) → length v ≤ j + 1 → found_third v i j ≡ 0
unfolding found_third for_sum
last_third v i j le = let none_left : length v - (j + 1) ≡ 0 = omega arith in rw none_left refl

last_second : (v : List ℕ) (i : ℕ) → length v - 2 ≤ i → found_second v i ≡ 0
unfolding found_second for_sum
last_second v i le = let none_left : length v - 1 - (i + 1) ≡ 0 = omega arith in rw none_left refl

found_second-ordered :
    (v : List ℕ) (i : ℕ)
    → i < length v
    → found_second v i ≡ sum_below (length v) (λ j. sum_below (length v) (λ k. ordered v i j k))
unfolding found_second
found_second-ordered v i lt = elim (Bool-cases (ltb (i + 1) (length v))) [
  | inl room ↦
      let n1 = length v - 1 in
      let g : ℕ → ℕ = λ j. if ltb j (i + 1) then 0 else found_third v i j in
      let inside = ltb→lt (i + 1) (length v) room in
      for_sum-window (n1 - (i + 1)) (i + 1) n1 (found_third v i) (omega arith)
      ∙ (sym (
            sum_below_longer 1 n1 g
              (λ j le small. zero_if (ltb j (i + 1)) (last_third v i j (omega arith))))
          ∙ (ap (λ m. sum_below m g) {y = length v} (omega arith)
              ∙ sum_below-cong (length v) _ _ (λ j jn. second_term v i j jn)))
  | inr end ↦
      last_second v i (ground (arith, end))
      ∙ sym (
          sum_below-none (length v) _ (λ j jn.
            sum_below-none (length v) _ (λ k kn. not_ordered v i j k (ground (arith, end)))))
]

pub second-triangles : (v : List ℕ) → sum_below (length v - 2) (found_second v) ≡ triangles v
unfolding triangles
second-triangles v =
    sym (
      sum_below_longer (length v - (length v - 2)) (length v - 2) (found_second v)
        (λ i le small. last_second v i le))
    ∙ (ap (λ m. sum_below m (found_second v)) {y = length v} (omega arith)
        ∙ sum_below-cong (length v) _ _ (λ i lt. found_second-ordered v i lt))

-- A value that was not read is 0, and no side of a triangle.
no_side : (a b : ℕ) → check_triangle a b 0 ≡ false
unfolding check_triangle
no_side a b = ground arith

get_or-past : (v : List ℕ) (i : ℕ) → length v ≤ i → get_or v i 0 ≡ 0
get_or-past [] i le = refl
get_or-past (x ∷ v) zero le = absurd (omega arith)
get_or-past (x ∷ v) (suc i) le = get_or-past v i (omega arith)

found-past : (v : List ℕ) (i j k : ℕ) → length v ≤ k → found v i j k ≡ 0
unfolding found
found-past v i j k le = rw (get_or-past v k le, no_side (get_or v i 0) (get_or v j 0)) refl

below_term :
    (v : List ℕ) (j k c : ℕ)
    → k < c
    → (if ltb k (j + 1) then 0 else found v j k c) ≡ ordered v j k c
unfolding ordered
below_term v j k c kc = ground arith

not_below : (v : List ℕ) (j k c : ℕ) → c ≤ k → ordered v j k c ≡ 0
unfolding ordered
not_below v j k c le = ground arith

ordered-past : (v : List ℕ) (j k c : ℕ) → length v ≤ c → ordered v j k c ≡ 0
unfolding ordered
ordered-past v j k c le = ground (arith, found-past v j k c le)

not_above : (v : List ℕ) (j k c : ℕ) → c ≤ j → ordered v j k c ≡ 0
unfolding ordered
not_above v j k c le = ground arith

not_negative : (j x : ℕ) → (if ltb j 0 then 0 else x) ≡ x
not_negative j x = ground arith

found_pair :
    (v : List ℕ) (n c j : ℕ)
    → c ≤ n
    → j < c
    → for_sum (c - (j + 1)) (j + 1) (λ k. found v j k c) ≡ sum_below n (λ k. ordered v j k c)
found_pair v n c j le jc =
    for_sum-window (c - (j + 1)) (j + 1) c (λ k. found v j k c) (omega arith)
    ∙ (sum_below-cong c _ _ (λ k kc. below_term v j k c kc)
        ∙ (sym (sum_below_longer (n - c) c _ (λ k past small. not_below v j k c past))
            ∙ ap (λ m. sum_below m (λ k. ordered v j k c)) {y = n} (omega arith)))

-- The work on an index finds the triangles whose last place it is.
found_below-ordered :
    (v : List ℕ) (n c : ℕ)
    → c ≤ n
    → found_below v c ≡ sum_below n (λ j. sum_below n (λ k. ordered v j k c))
unfolding found_below
found_below-ordered v n c le =
    let inner : ℕ → ℕ = λ j. for_sum (c - (j + 1)) (j + 1) (λ k. found v j k c) in
    for_sum-window c 0 c inner (omega arith)
    ∙ (sum_below-cong c _ _ (λ j jc. not_negative j (inner j) ∙ found_pair v n c j le jc)
        ∙ (sym (
              sum_below_longer (n - c) c _
                (λ j past small. sum_below-none n _ (λ k kn. not_above v j k c past)))
            ∙ ap (λ m. sum_below m (λ j. sum_below n (λ k. ordered v j k c))) {y = n}
                (omega arith)))

found_below-past : (v : List ℕ) (c : ℕ) → length v ≤ c → found_below v c ≡ 0
found_below-past v c le =
    found_below-ordered v c c (omega arith)
    ∙ sum_below-none c _ (λ j jc. sum_below-none c _ (λ k kc. ordered-past v j k c le))

-- The indices of the queue, and any behind them, count all triangles.
pub below-triangles :
    (v : List ℕ) (n : ℕ) → length v ≤ n → sum_below n (found_below v) ≡ triangles v
unfolding triangles
below-triangles v n le =
    let m = length v in
    ap (λ k. sum_below k (found_below v)) {y = m + (n - m)} (omega arith)
    ∙ (sum_below_longer (n - m) m (found_below v) (λ c past small. found_below-past v c past)
        ∙ (sum_below-cong m _ _ (λ c lt. found_below-ordered v m c (omega arith))
            ∙ (sum_below_swap m m (λ c j. sum_below m (λ k. ordered v j k c))
                ∙ sum_below-cong m _ _ (λ j lt. sum_below_swap m m (λ c k. ordered v j k c)))))
