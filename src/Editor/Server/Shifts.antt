-- ===== src/Editor/Server/Shifts.antt =====
-- assignments/hw2/server.c: the bytes that the loops of an insertion and a deletion move.
use os_coursework.Prelude.{
  ℕ, zero, suc, ◌+◌, ◌≤◌, ◌<◌, ◌≡◌, refl, sym, ap, List, [], ◌∷◌, ◌++◌, length, set, get_or, take,
  drop, arith,
}
use mathlib.Core.List.{append_assoc}
use os_coursework.Editor.{done, ◌>>=◌, store}
use os_coursework.Editor.Text.{length-set}
use os_coursework.Editor.Server.{load, shift_up, shift_down}

take-set : (i j v : ℕ) (s : List ℕ) → i ≤ j → take i (set s j v) ≡ take i s
take-set zero j v s le = refl
take-set (suc i) j v [] le = refl
take-set (suc i) zero v (d ∷ s) le = absurd (omega arith)
take-set (suc i) (suc j) v (d ∷ s) le = ap (λ r. d ∷ r) (take-set i j v s (omega arith))

-- The bytes from an index on are not changed by a write behind or before them.
window-set :
    (i n j v : ℕ) (s : List ℕ) → i + n ≤ j → take n (drop i (set s j v)) ≡ take n (drop i s)
window-set zero n j v s le = take-set n j v s (omega arith)
window-set (suc i) n j v [] le = refl
window-set (suc i) n zero v (d ∷ s) le = absurd (omega arith)
window-set (suc i) n (suc j) v (d ∷ s) le = window-set i n j v s (omega arith)

drop-set : (j i v : ℕ) (s : List ℕ) → i < j → drop j (set s i v) ≡ drop j s
drop-set zero i v s lt = absurd (omega arith)
drop-set (suc j) i v [] lt = refl
drop-set (suc j) zero v (d ∷ s) lt = refl
drop-set (suc j) (suc i) v (d ∷ s) lt = drop-set j i v s (omega arith)

drop-set_same : (j v : ℕ) (s : List ℕ) → j < length s → drop j (set s j v) ≡ v ∷ drop (suc j) s
drop-set_same j v [] lt = absurd (omega arith)
drop-set_same zero v (d ∷ s) lt = refl
drop-set_same (suc j) v (d ∷ s) lt = drop-set_same j v s (omega arith)

window_suc :
    (i n j : ℕ) (s : List ℕ)
    → j ≡ i + n
    → j < length s
    → take (suc n) (drop i s) ≡ take n (drop i s) ++ get_or s j 0 ∷ []
window_suc i n j [] e lt = absurd (omega arith)
window_suc zero zero zero (d ∷ s) e lt = refl
window_suc zero zero (suc j) (d ∷ s) e lt = absurd (omega (arith, e))
window_suc zero (suc n) zero (d ∷ s) e lt = absurd (omega (arith, e))
window_suc zero (suc n) (suc j) (d ∷ s) e lt =
    ap (λ r. d ∷ r) (window_suc zero n j s (omega (arith, e)) (omega arith))
window_suc (suc i) n zero (d ∷ s) e lt = absurd (omega (arith, e))
window_suc (suc i) n (suc j) (d ∷ s) e lt = window_suc i n j s (omega (arith, e)) (omega arith)

set-split : (i c : ℕ) (s : List ℕ) → i < length s → set s i c ≡ take i s ++ c ∷ drop (suc i) s
set-split i c [] lt = absurd (omega arith)
set-split zero c (d ∷ s) lt = refl
set-split (suc i) c (d ∷ s) lt = ap (λ r. d ∷ r) (set-split i c s (omega arith))

take-suc-set : (i v : ℕ) (s : List ℕ) → i < length s → take (suc i) (set s i v) ≡ take i s ++ v ∷ []
take-suc-set i v [] lt = absurd (omega arith)
take-suc-set zero v (d ∷ s) lt = refl
take-suc-set (suc i) v (d ∷ s) lt = ap (λ r. d ∷ r) (take-suc-set i v s (omega arith))

drop-split : (i : ℕ) (s : List ℕ) → i < length s → drop i s ≡ get_or s i 0 ∷ drop (suc i) s
drop-split i [] lt = absurd (omega arith)
drop-split zero (d ∷ s) lt = refl
drop-split (suc i) (d ∷ s) lt = drop-split i s (omega arith)

take-drop : (i : ℕ) (s : List ℕ) → take i s ++ drop i s ≡ s
take-drop zero s = refl
take-drop (suc i) [] = refl
take-drop (suc i) (d ∷ s) = ap (λ r. d ∷ r) (take-drop i s)

load_inside : (i : ℕ) (s : List ℕ) → i < length s → load i s ≡ done (get_or s i 0)
unfolding load
load_inside i s lt = ground arith

store_inside : (i c : ℕ) (s : List ℕ) → i < length s → store i c s ≡ done (set s i c)
unfolding store
store_inside i c s lt = ground arith

-- An insertion puts a byte at the index and loses the byte behind those it moves.
pub store-shift_up :
    (index n c : ℕ) (s : List ℕ)
    → index + n < length s
    → (shift_up index n s >>= λ moved. store index c moved)
      ≡ done (take index s ++ c ∷ (take n (drop index s) ++ drop (suc (index + n)) s))
unfolding shift_up
store-shift_up index zero c s lt =
    let same : index + 0 ≡ index = omega arith in
    rw (store_inside index c s (omega arith), same) (ap done (set-split index c s (omega arith)))
store-shift_up index (suc n) c s lt =
    let v = get_or s (index + n) 0 in
    let top : index + suc n ≡ suc (index + n) = omega arith in
    let moved = set s (suc (index + n)) v in
    let rest = store-shift_up index n c moved (omega (arith, length-set s (suc (index + n)) v)) in
    rw
      (
        load_inside (index + n) s (omega arith),
        top,
        store_inside (suc (index + n)) v s (omega arith),
        window_suc index n (index + n) s refl (omega arith),
        append_assoc (take n (drop index s)) (v ∷ []) (drop (suc (suc (index + n))) s),
      )
      (rw
        (
          take-set index (suc (index + n)) v s (omega arith),
          window-set index n (suc (index + n)) v s (omega arith),
          drop-set_same (suc (index + n)) v s (omega arith),
        )
        at rest)

-- A deletion moves the bytes behind the index down, and leaves a copy of the last one.
pub shift_down_lem :
    (n i : ℕ) (s : List ℕ)
    → i + n < length s
    → shift_down n i s ≡ done (take i s ++ (take n (drop (suc i) s) ++ drop (i + n) s))
unfolding shift_down
shift_down_lem zero i s lt =
    let same : i + 0 ≡ i = omega arith in rw same (ap done (sym (take-drop i s)))
shift_down_lem (suc n) i s lt =
    let v = get_or s (suc i) 0 in
    let next : i + 1 ≡ suc i = omega arith in
    let moved = set s i v in
    let rest = shift_down_lem n (suc i) moved (omega (arith, length-set s i v)) in
    let end : suc i + n ≡ i + suc n = omega arith in
    rw
      (
        next,
        load_inside (suc i) s (omega arith),
        store_inside i v s (omega arith),
        drop-split (suc i) s (omega arith),
      )
      (rw
        (
          take-suc-set i v s (omega arith),
          drop-set (suc (suc i)) i v s (omega arith),
          end,
          drop-set (i + suc n) i v s (omega arith),
          append_assoc (take i s) (v ∷ []) (take n (drop (suc (suc i)) s) ++ drop (i + suc n) s),
        )
        at rest)
