-- ===== src/Kitchen/Exclusive.antt =====
-- Chefs that cook at the same time share no appliance.
use os_coursework.Prelude.{ℕ, ◌<◌, ◌≡◌, true, List, [], ◌∷◌, All, All-mem, elem}
use os_coursework.Kitchen.Threads.{Instr, lock, unlock, cook, rest, say, Pc, at, done, State, Reach}
use os_coursework.Kitchen.Held.{unlocks, holds, AllBodies, held_once}
use os_coursework.Kitchen.Tails.{OnPc, Reach-tail}
use os_coursework.Kitchen.Finish.{is_cooking}

-- All of `needed` is held at every call of `cook`.
abbrev pub Equipped : List ℕ → List Instr → Type 0
Equipped needed [] = Unit
Equipped needed (cook _ ∷ r) = All (λ m. unlocks m r ≡ true) needed × Equipped needed r
Equipped needed (lock _ ∷ r) = Equipped needed r
Equipped needed (unlock _ ∷ r) = Equipped needed r
Equipped needed (rest _ ∷ r) = Equipped needed r
Equipped needed (say ∷ r) = Equipped needed r

Equipped-tail :
    (needed : List ℕ) (c : Instr) (r : List Instr) → Equipped needed (c ∷ r) → Equipped needed r
Equipped-tail needed (lock a) r h = h
Equipped-tail needed (unlock a) r h = h
Equipped-tail needed (cook d) r h = h.1
Equipped-tail needed (rest d) r h = h
Equipped-tail needed say r h = h

cooking-holds :
    (needed : List ℕ) (p : Pc) (m : ℕ)
    → OnPc (Equipped needed) p
    → is_cooking p ≡ true
    → elem m needed ≡ true
    → holds m p ≡ true
cooking-holds needed (at (cook d ∷ r)) m h c e = All-mem _ needed m h.0 e
cooking-holds needed (at []) m h c e = cc
cooking-holds needed (at (lock d ∷ r)) m h c e = cc
cooking-holds needed (at (unlock d ∷ r)) m h c e = cc
cooking-holds needed (at (rest d ∷ r)) m h c e = cc
cooking-holds needed (at (say ∷ r)) m h c e = cc
cooking-holds needed done m h c e = cc

-- An appliance that both need tells that two chefs who cook are one.
pub cooking_apart :
    (n : ℕ) (start : ℕ → List Instr) (needed : ℕ → List ℕ)
    → AllBodies n start
    → ((i : ℕ) → i < n → Equipped (needed i) (start i))
    → {s : State} → Reach n start s
    → (m i j : ℕ) → i < n
    → j < n
    → is_cooking (s.pc i) ≡ true
    → is_cooking (s.pc j) ≡ true
    → elem m (needed i) ≡ true
    → elem m (needed j) ≡ true
    → i ≡ j
cooking_apart n start needed bodies equipped {s} r m i j lt lt' c c' e e' =
    held_once bodies r m i j lt lt' (cooking-holds _ _ m (kept i lt) c e)
      (cooking-holds _ _ m (kept j lt') c' e')
  where
    kept : (k : ℕ) → k < n → OnPc (Equipped (needed k)) (s.pc k)
    kept =
        Reach-tail n start (λ k. Equipped (needed k)) (λ k. Equipped-tail (needed k)) equipped
          (λ _. tt) r
