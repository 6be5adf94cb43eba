-- ===== src/Sorts/Partition.antt =====
-- exercises/ex15/array.c: the loop that puts the values below the pivot in front.
use os_coursework.Prelude.{
  ℕ, zero, suc, ◌+◌, ◌≤◌, ◌≡◌, refl, sym, ap, ◌∙◌, inl, inr, Bool-cases, List, [], ◌∷◌, ◌++◌, All,
  ltb, ltb→lt, length, length-append, get_or, set, arith,
}
use mathlib.Core.List.{append_assoc, append-nil}
use os_coursework.Sorts.{swap, partition}
use os_coursework.Sorts.Order.{times, times-append, Same, Same-All, All-append}

pub get_or-middle :
    (k : ℕ) (xs : List ℕ) (a : ℕ) (ys : List ℕ) → k ≡ length xs → get_or (xs ++ a ∷ ys) k 0 ≡ a
get_or-middle zero [] a ys e = refl
get_or-middle zero (x ∷ xs) a ys e = absurd (omega (arith, e))
get_or-middle (suc k) [] a ys e = absurd (omega (arith, e))
get_or-middle (suc k) (x ∷ xs) a ys e = get_or-middle k xs a ys (omega (arith, e))

pub set-middle :
    (k : ℕ) (xs : List ℕ) (a v : ℕ) (ys : List ℕ)
    → k ≡ length xs
    → set (xs ++ a ∷ ys) k v ≡ xs ++ v ∷ ys
set-middle zero [] a v ys e = refl
set-middle zero (x ∷ xs) a v ys e = absurd (omega (arith, e))
set-middle (suc k) [] a v ys e = absurd (omega (arith, e))
set-middle (suc k) (x ∷ xs) a v ys e = ap (λ r. x ∷ r) (set-middle k xs a v ys (omega (arith, e)))

-- The exchange of a value with a later one.
swap-parts :
    (j i : ℕ) (xs hs rest : List ℕ) (h val : ℕ)
    → j ≡ length xs
    → i ≡ length xs + suc (length hs)
    → swap (xs ++ h ∷ (hs ++ val ∷ rest)) j i ≡ xs ++ val ∷ (hs ++ h ∷ rest)
unfolding swap
swap-parts zero zero [] hs rest h val e e' = absurd (omega (arith, e'))
swap-parts zero (suc i) [] hs rest h val e e' =
    let place : i ≡ length hs = omega (arith, e') in
    rw (get_or-middle i hs val rest place, set-middle i hs val h rest place) refl
swap-parts zero i (x ∷ xs) hs rest h val e e' = absurd (omega (arith, e))
swap-parts (suc j) i [] hs rest h val e e' = absurd (omega (arith, e))
swap-parts (suc j) zero (x ∷ xs) hs rest h val e e' = absurd (omega (arith, e'))
swap-parts (suc j) (suc i) (x ∷ xs) hs rest h val e e' =
    ap (λ r. x ∷ r) (swap-parts j i xs hs rest h val (omega (arith, e)) (omega (arith, e')))

-- The exchange of a value with itself.
swap_self :
    (i : ℕ) (xs rest : List ℕ) (val : ℕ)
    → i ≡ length xs
    → swap (xs ++ val ∷ rest) i i ≡ xs ++ val ∷ rest
unfolding swap
swap_self zero [] rest val e = refl
swap_self zero (x ∷ xs) rest val e = absurd (omega (arith, e))
swap_self (suc i) [] rest val e = absurd (omega (arith, e))
swap_self (suc i) (x ∷ xs) rest val e = ap (λ r. x ∷ r) (swap_self i xs rest val (omega (arith, e)))

-- What the partition loop leaves: the values below the pivot, and then the others.
pub record Parts (pivot first : ℕ) (before : List ℕ) (p : ℕ × List ℕ) : Type 0 where
  pub lows : List ℕ
  pub highs : List ℕ
  pub result : p ≡ (length lows, first ∷ (lows ++ highs))
  pub low : All (λ a. a ≤ pivot) lows
  pub high : All (λ b. pivot ≤ b) highs
  pub same : (x : ℕ) → times x lows + times x highs ≡ times x before
  pub size : length lows + length highs ≡ length before

Parts-change :
    {pivot first : ℕ} {before before' : List ℕ} {p : ℕ × List ℕ}
    → Parts pivot first before p
    → ((x : ℕ) → times x before ≡ times x before')
    → length before ≡ length before'
    → Parts pivot first before' p
Parts-change r same size = record {
  lows = r.lows;
  highs = r.highs;
  result = r.result;
  low = r.low;
  high = r.high;
  same = λ x. r.same x ∙ same x;
  size = r.size ∙ size;
}

-- The value that the loop looks at.
at_i :
    (first val : ℕ) (rest lows highs : List ℕ) (i : ℕ)
    → i ≡ suc (length lows + length highs)
    → get_or (first ∷ (lows ++ (highs ++ val ∷ rest))) i 0 ≡ val
at_i first val rest lows highs i ei =
    ap (λ r. get_or (first ∷ r) i 0) (sym (append_assoc lows highs (val ∷ rest)))
    ∙ get_or-middle i (first ∷ (lows ++ highs)) val rest
        (omega (arith, ei, length-append lows highs))

-- The exchange of the first of the greater values with a smaller one behind them.
swap_step :
    (first val : ℕ) (rest lows highs : List ℕ) (i lower : ℕ)
    → i ≡ suc (length lows + length highs)
    → lower ≡ length lows
    → (highs' : List ℕ) × (swap (first ∷ (lows ++ (highs ++ val ∷ rest))) (lower + 1) i
        ≡ first ∷ ((lows ++ val ∷ []) ++ (highs' ++ rest)))
      × Same highs highs'
      × (length highs' ≡ length highs)
swap_step first val rest lows [] i lower ei el =
    let place : lower + 1 ≡ i = omega (arith, ei, el) in
    (
      [],
      ap (λ j. swap (first ∷ (lows ++ val ∷ rest)) j i) place
          ∙ (swap_self i (first ∷ lows) rest val (omega (arith, ei))
              ∙ ap (λ r. first ∷ r) (sym (append_assoc lows (val ∷ []) rest))),
      (λ x. refl),
      refl,
    )
swap_step first val rest lows (h ∷ hs) i lower ei el = (
  hs ++ h ∷ [],
  swap-parts (lower + 1) i (first ∷ lows) hs rest h val (omega (arith, el)) (omega (arith, ei))
      ∙ ap (λ r. first ∷ r)
          (ap (λ r. lows ++ val ∷ r) (sym (append_assoc hs (h ∷ []) rest))
            ∙ sym (append_assoc lows (val ∷ []) ((hs ++ h ∷ []) ++ rest))),
  (λ x. omega (arith, times-append x hs (h ∷ []))),
  omega (arith, length-append hs (h ∷ [])),
)

pub partition-Parts :
    (pivot first : ℕ) (rest lows highs : List ℕ) (n i lower : ℕ)
    → n ≡ length rest
    → i ≡ suc (length lows + length highs)
    → lower ≡ length lows
    → All (λ a. a ≤ pivot) lows
    → All (λ b. pivot ≤ b) highs
    → Parts pivot first
        (lows ++ (highs ++ rest))
        (partition n pivot i lower (first ∷ (lows ++ (highs ++ rest))))
unfolding partition
partition-Parts pivot first [] lows highs zero i lower en ei el low high = record {
  lows = lows;
  highs = highs;
  result = rw (append-nil highs, el) refl;
  low = low;
  high = high;
  same = λ x. omega (arith, times-append x lows (highs ++ []), times-append x highs []);
  size = omega (arith, length-append lows (highs ++ []), length-append highs []);
}
partition-Parts pivot first [] lows highs (suc n) i lower en ei el low high =
    absurd (omega (arith, en))
partition-Parts pivot first (val ∷ rest) lows highs zero i lower en ei el low high =
    absurd (omega (arith, en))
partition-Parts pivot first (val ∷ rest) lows highs (suc n) i lower en ei el low high =
    elim (Bool-cases (ltb val pivot)) [
      | inl less ↦
          let (highs', moved, same, size) = swap_step first val rest lows highs i lower ei el in
          let r =
            partition-Parts pivot first rest (lows ++ val ∷ []) highs' n (i + 1) (lower + 1)
              (omega (arith, en)) (omega (arith, ei, size, length-append lows (val ∷ [])))
              (omega (arith, el, length-append lows (val ∷ [])))
              (All-append (λ a. a ≤ pivot) lows (val ∷ []) low
                (omega (arith, ltb→lt val pivot less), tt))
              (Same-All (λ b. pivot ≤ b) highs highs' same high) in
          rw (partition, at_i first val rest lows highs i ei, less, moved)
            (Parts-change r
              (λ x. omega (
                arith,
                same x,
                times-append x (lows ++ val ∷ []) (highs' ++ rest),
                times-append x lows (val ∷ []),
                times-append x highs' rest,
                times-append x lows (highs ++ val ∷ rest),
                times-append x highs (val ∷ rest),
              ))
              (omega (
                arith,
                size,
                length-append (lows ++ val ∷ []) (highs' ++ rest),
                length-append lows (val ∷ []),
                length-append highs' rest,
                length-append lows (highs ++ val ∷ rest),
                length-append highs (val ∷ rest),
              )))
      | inr not_less ↦
          let r =
            partition-Parts pivot first rest lows (highs ++ val ∷ []) n (i + 1) lower
              (omega (arith, en)) (omega (arith, ei, length-append highs (val ∷ []))) el low
              (All-append (λ b. pivot ≤ b) highs (val ∷ []) high (ground (arith, not_less), tt)) in
          rw (partition, at_i first val rest lows highs i ei, not_less)
            (rw (append_assoc highs (val ∷ []) rest) at r)
    ]
