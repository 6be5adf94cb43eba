-- ===== src/Floppy/Names.antt =====
-- exercises/ex18: the names of floppyDir.c and floppyDirNew.c, from names padded with spaces.
use os_coursework.Prelude.{
  ℕ, zero, suc, ◌+◌, ◌≤◌, ◌≡◌, ◌≢◌, refl, ap, ◌∙◌, true, List, [], ◌∷◌, ◌++◌, All, get_or, take-all,
  drop, length, length-append, strncpy, arith,
}
use os_coursework.Floppy.Entry.{all_spaces, trim, until_nul, join_name, full_name}

-- The characters that a name can have.
abbrev pub Printed : ℕ → Type 0
Printed c = (c ≢ 0) × (c ≢ 32)

-- A name filled up with spaces.
unfoldable pub pad : ℕ → List ℕ → List ℕ
pad zero name = []
pad (suc n) [] = 32 ∷ pad n []
pad (suc n) (c ∷ name) = c ∷ pad n name

pub get_or-pad :
    (n : ℕ) (name rest : List ℕ) (i : ℕ) → get_or (pad n name ++ rest) (n + i) 0 ≡ get_or rest i 0
unfolding pad
get_or-pad zero name rest i = ap (λ k. get_or rest k 0) {y = i} (omega arith)
get_or-pad (suc n) [] rest i =
    ap (λ k. get_or (pad (suc n) [] ++ rest) k 0) {y = suc (n + i)} (omega arith)
    ∙ get_or-pad n [] rest i
get_or-pad (suc n) (c ∷ name) rest i =
    ap (λ k. get_or (pad (suc n) (c ∷ name) ++ rest) k 0) {y = suc (n + i)} (omega arith)
    ∙ get_or-pad n name rest i

drop-pad : (n : ℕ) (name rest : List ℕ) → drop n (pad n name ++ rest) ≡ rest
unfolding pad
drop-pad zero name rest = refl
drop-pad (suc n) [] rest = drop-pad n [] rest
drop-pad (suc n) (c ∷ name) rest = drop-pad n name rest

strncpy-pad :
    (n : ℕ) (name rest : List ℕ) → All Printed name → strncpy n (pad n name ++ rest) ≡ pad n name
unfolding strncpy pad
strncpy-pad zero name rest p = refl
strncpy-pad (suc n) [] rest p = ground (arith, strncpy-pad n [] rest tt)
strncpy-pad (suc n) (c ∷ name) rest p = ground (arith, strncpy-pad n name rest p.1, p.0.0)

all_spaces-pad : (n : ℕ) → all_spaces (pad n []) ≡ true
unfolding all_spaces pad
all_spaces-pad zero = refl
all_spaces-pad (suc n) = all_spaces-pad n

until_nul-trim :
    (n : ℕ) (name : List ℕ)
    → All Printed name
    → length name ≤ n
    → until_nul (trim (pad n name)) ≡ name
unfolding until_nul trim pad all_spaces
until_nul-trim zero [] p h = refl
until_nul-trim zero (c ∷ name) p h = absurd (omega arith)
until_nul-trim (suc n) [] p h = rw (all_spaces-pad n) refl
until_nul-trim (suc n) (c ∷ name) p h =
    let rest = until_nul-trim n name p.1 (omega arith) in ground (arith, rest, p.0.0, p.0.1)

-- A name of the format, with its extension.
abbrev pub dotted : List ℕ → List ℕ → List ℕ
dotted name [] = name
dotted name (c ∷ ext) = name ++ 46 ∷ c ∷ ext

join_name-dotted :
    (name ext : List ℕ) → length name ≤ 8 → length ext ≤ 3 → join_name name ext ≡ dotted name ext
unfolding join_name
join_name-dotted name [] h k = take-all 12 name (omega arith)
join_name-dotted name (c ∷ ext) h k =
    take-all 12 (name ++ 46 ∷ c ∷ ext) (omega (arith, length-append name (46 ∷ c ∷ ext)))

pub full_name-pad :
    (name ext rest : List ℕ)
    → All Printed name
    → All Printed ext
    → length name ≤ 8
    → length ext ≤ 3
    → full_name (pad 8 name ++ (pad 3 ext ++ rest)) ≡ dotted name ext
unfolding full_name
full_name-pad name ext rest p q h k =
    rw
      (
        strncpy-pad 8 name (pad 3 ext ++ rest) p,
        drop-pad 8 name (pad 3 ext ++ rest),
        strncpy-pad 3 ext rest q,
        until_nul-trim 8 name p h,
        until_nul-trim 3 ext q k,
      )
      (join_name-dotted name ext h k)
