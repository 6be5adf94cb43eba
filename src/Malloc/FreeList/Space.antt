-- ===== src/Malloc/FreeList/Space.antt =====
-- The free list is ordered by address with a gap between any two holes, so neighbours are merged;
-- `getBlock` and `returnBlock` keep that, and change the free space by their block alone.
use os_coursework.Prelude.{
  ℕ, ◌≤◌, ◌<◌, ◌≡◌, refl, Bool, true, false, Option, none, some, List, [], ◌∷◌, if◌then◌else◌, ltb,
  leb, ◌&&◌, All, ◌⊎◌, inl, inr, arith, Bool-cases, subst,
}
use os_coursework.Malloc.FreeList.{
  Hole, end, get_block, absorb_next, absorb_into, return_after, return_block,
}

-- The first hole begins behind `e`.
abbrev pub Above : ℕ → List Hole → Type 0
Above e [] = Unit
Above e (h ∷ r) = e < h.addr

abbrev pub Separated : List Hole → Type 0
Separated [] = Unit
Separated (h ∷ r) = Above (end h) r × Separated r

abbrev pub Apart : Hole → Hole → Type 0
Apart a b = (end a ≤ b.addr) ⊎ (end b ≤ a.addr)

-- `h` overlaps no hole of the list.
abbrev pub Outside : Hole → List Hole → Type 0
Outside h r = All (Apart h) r

-- The byte at `x` belongs to the block, or to a hole of the list.
abbrev pub in_block : ℕ → Hole → Bool
in_block x h = leb h.addr x && ltb x (end h)

abbrev pub is_free : ℕ → List Hole → Bool
is_free x [] = false
is_free x (h ∷ r) = if in_block x h then true else is_free x r

-- With a predecessor, which ends before `h`.
return_after-Separated :
    (p h : Hole) (r : List Hole)
    → Separated (p ∷ r)
    → Outside h (p ∷ r)
    → p.addr < h.addr
    → Separated (return_after p h r)
unfolding return_after absorb_into absorb_next
return_after-Separated p h [] s out lt = ground arith
return_after-Separated p h (n ∷ []) s out lt = ground arith
return_after-Separated p h (n ∷ m ∷ r) s out lt = ground (arith, return_after-Separated n h (m ∷ r))

-- `returnBlock` keeps the list ordered, with no two holes next to each other.
pub return_block-Separated :
    (h : Hole) (r : List Hole) → Separated r → Outside h r → Separated (return_block h r)
unfolding return_block absorb_next
return_block-Separated h [] s out = (tt, tt)
return_block-Separated h (n ∷ []) s out = ground (arith, return_after-Separated n h [])
return_block-Separated h (n ∷ m ∷ r) s out = ground (arith, return_after-Separated n h (m ∷ r))

is_free-absorb_next :
    (x : ℕ) (h : Hole) (r : List Hole) → is_free x (absorb_next h r) ≡ is_free x (h ∷ r)
unfolding absorb_next
is_free-absorb_next x h [] = refl
is_free-absorb_next x h (n ∷ r) = ground arith

is_free-absorb_into :
    (x : ℕ) (p : Hole) (r : List Hole) → is_free x (absorb_into p r) ≡ is_free x (p ∷ r)
unfolding absorb_into
is_free-absorb_into x p [] = refl
is_free-absorb_into x p (h ∷ r) = ground arith

is_free-return_after :
    (x : ℕ) (p h : Hole) (r : List Hole) → is_free x (return_after p h r) ≡ is_free x (h ∷ p ∷ r)
unfolding return_after
is_free-return_after x p h [] =
    ground (arith, is_free-absorb_into x p (absorb_next h []), is_free-absorb_next x h [])
is_free-return_after x p h (n ∷ r) = elim (Bool-cases (ltb n.addr h.addr)) [
  | inl before ↦ rw before (ground (arith, is_free-return_after x n h r))
  | inr behind ↦ rw behind (
      ground
        (arith, is_free-absorb_into x p (absorb_next h (n ∷ r)), is_free-absorb_next x h (n ∷ r)))
]

-- The space that is free after `returnBlock`: the block, and what was free.
pub is_free-return_block :
    (x : ℕ) (h : Hole) (r : List Hole) → is_free x (return_block h r) ≡ is_free x (h ∷ r)
unfolding return_block
is_free-return_block x h [] = is_free-absorb_next x h []
is_free-return_block x h (n ∷ r) = elim (Bool-cases (ltb n.addr h.addr)) [
  | inl before ↦ rw before (is_free-return_after x n h r)
  | inr behind ↦ rw behind (is_free-absorb_next x h (n ∷ r))
]

-- What `getBlock` finds.
pub record IsFound (size : ℕ) (l : List Hole) (h : Hole) (r : List Hole) : Type 0 where
  pub enough : size ≤ h.size
  pub separated : Separated r
  pub outside : Outside h r
  pub space : (x : ℕ) → is_free x l ≡ is_free x (h ∷ r)
  pub above : (e : ℕ) → Above e l → Above e r × (e < h.addr)

abbrev Found : ℕ → List Hole → Option (Hole × List Hole) → Type 0
Found size l none = Unit
Found size l (some (h, r)) = IsFound size l h r

All-below : (a e : ℕ) (r : List Hole) → All (λ n. e < n.addr) r → a ≤ e → All (λ n. a < n.addr) r
All-below a e [] k le = tt
All-below a e (n ∷ r) k le = (omega arith, All-below a e r k.1 le)

Above-All : (e : ℕ) (r : List Hole) → Above e r → Separated r → All (λ n. e < n.addr) r
Above-All e [] a s = tt
Above-All e (h ∷ r) a s = (a, All-below e (end h) r (Above-All (end h) r s.0 s.1) (omega arith))

All-Outside : (h : Hole) (r : List Hole) → All (λ n. end h < n.addr) r → Outside h r
All-Outside h [] k = tt
All-Outside h (n ∷ r) k = (inl (omega arith), All-Outside h r k.1)

IsFound-first :
    (size : ℕ) (c : Hole) (l : List Hole)
    → Separated (c ∷ l)
    → size ≤ c.size
    → IsFound size (c ∷ l) c l
IsFound-first size c l s le = record {
  enough = le;
  separated = s.1;
  outside = All-Outside c l (Above-All (end c) l s.0 s.1);
  space = λ x. refl;
  above = λ e a. (Above-less e l s.0 (omega arith), a);
}
  where
    Above-less : (e : ℕ) (k : List Hole) → Above (end c) k → e ≤ end c → Above e k
    Above-less e [] a le = tt
    Above-less e (n ∷ k) a le = omega arith

IsFound-later :
    (size : ℕ) (c : Hole) (l : List Hole) (h : Hole) (r : List Hole)
    → Separated (c ∷ l)
    → IsFound size l h r
    → IsFound size (c ∷ l) h (c ∷ r)
IsFound-later size c l h r s f = record {
  enough = f.enough;
  separated = ((f.above (end c) s.0).0, f.separated);
  outside = (inr (omega (arith, (f.above (end c) s.0).1)), f.outside);
  space = λ x. ground (arith, f.space x);
  above = λ e a. (a, omega (arith, (f.above (end c) s.0).1));
}

get_block-Found : (size : ℕ) (l : List Hole) → Separated l → Found size l (get_block size l)
unfolding get_block
get_block-Found size [] s = tt
get_block-Found size (c ∷ l) s = elim (Bool-cases (leb size c.size)) [
  | inl fits ↦ rw fits (IsFound-first size c l s (ground arith))
  | inr small ↦ rw small (later (get_block size l) (get_block-Found size l s.1))
]
  where
    later :
        (o : Option (Hole × List Hole))
        → Found size l o
        → Found size (c ∷ l) (elim o [ none ↦ none | some (h, r) ↦ some (h, c ∷ r) ])
    later none f = tt
    later (some (h, r)) f = IsFound-later size c l h r s f

-- What `getBlock` returns is large enough and is taken off the list, which loses nothing else.
pub get_block-IsFound :
    (size : ℕ) (l : List Hole) {h : Hole} {r : List Hole}
    → Separated l
    → get_block size l ≡ some (h, r)
    → IsFound size l h r
get_block-IsFound size l s e = subst (Found size l) e (get_block-Found size l s)

-- It finds none if no hole is large enough.
pub get_block-eq-none :
    (size : ℕ) (l : List Hole) → get_block size l ≡ none → All (λ h. h.size < size) l
unfolding get_block
get_block-eq-none size [] e = tt
get_block-eq-none size (c ∷ l) e = ground (arith, get_block-eq-none size l)
