-- ===== src/Editor/Text.antt =====
-- What the copies of Editor.antt do to a buffer that holds a string and then zeros.
use os_coursework.Prelude.{
  ℕ, zero, suc, ◌+◌, ◌-◌, ◌≤◌, ◌<◌, ◌≡◌, ◌≢◌, refl, ap, List, [], ◌∷◌, ◌++◌, length, set, take,
  drop, replicate, length-append, All, arith,
}
use os_coursework.Editor.{done, undefined, overwrite, c_string}
use os_coursework.Prelude.{strncpy}

-- What an insertion and a deletion mean.
abbrev pub insert_at : ℕ → ℕ → List ℕ → List ℕ
insert_at i c text = take i text ++ c ∷ drop i text

abbrev pub delete_at : ℕ → List ℕ → List ℕ
delete_at i text = take i text ++ drop (suc i) text

-- A buffer with a string in it, and `k` zeros after its NUL.
abbrev pub padded : List ℕ → ℕ → List ℕ
padded text k = text ++ 0 ∷ replicate k 0

-- No character of the string is the NUL.
abbrev pub NonZero : List ℕ → Type 0
NonZero text = All (λ c. c ≢ 0) text

pub length-replicate : (n : ℕ) → length (replicate {A = ℕ} n 0) ≡ n
length-replicate zero = refl
length-replicate (suc n) = ap suc (length-replicate n)

pub length-padded : (text : List ℕ) (k : ℕ) → length (padded text k) ≡ length text + suc k
length-padded text k = omega (arith, length-append text (0 ∷ replicate k 0), length-replicate k)

pub length-strncpy : (n : ℕ) (source : List ℕ) → length (strncpy n source) ≡ n
unfolding strncpy
length-strncpy zero source = refl
length-strncpy (suc n) [] = ap suc (length-strncpy n [])
length-strncpy (suc n) (c ∷ source) = ground (arith, length-strncpy n source, length-replicate n)

pub length-overwrite :
    (i : ℕ) (bytes buffer : List ℕ) → length (overwrite i bytes buffer) ≡ length buffer
unfolding overwrite
length-overwrite zero [] buffer = refl
length-overwrite zero (c ∷ bytes) [] = refl
length-overwrite (suc i) bytes [] = refl
length-overwrite zero (c ∷ bytes) (b ∷ buffer) = ap suc (length-overwrite zero bytes buffer)
length-overwrite (suc i) bytes (b ∷ buffer) = ap suc (length-overwrite i bytes buffer)

pub length-set : (buffer : List ℕ) (i c : ℕ) → length (set buffer i c) ≡ length buffer
length-set [] i c = refl
length-set (b ∷ buffer) zero c = refl
length-set (b ∷ buffer) (suc i) c = ap suc (length-set buffer i c)

-- A string whose characters are no NUL is copied whole, from a buffer or from the command line.
pub strncpy-zeros : (k : ℕ) → strncpy k [] ≡ replicate k 0
unfolding strncpy
strncpy-zeros zero = refl
strncpy-zeros (suc k) = ap (0 ∷◌) (strncpy-zeros k)

pub strncpy-padded :
    (n : ℕ) (text : List ℕ) (k : ℕ)
    → NonZero text
    → n ≡ length text + suc k
    → strncpy n (padded text k) ≡ padded text k
unfolding strncpy
strncpy-padded zero text k h e = ground (arith, e)
strncpy-padded (suc n) [] k h e = let same : n ≡ k = omega (arith, e) in rw same
strncpy-padded (suc n) (c ∷ text) k h e =
    ground (arith, h.0, strncpy-padded n text k h.1 (omega (arith, e)))

pub strncpy-string :
    (n : ℕ) (text : List ℕ) (k : ℕ)
    → NonZero text
    → n ≡ length text + suc k
    → strncpy n text ≡ padded text k
unfolding strncpy
strncpy-string zero text k h e = ground (arith, e)
strncpy-string (suc n) [] k h e = let same : n ≡ k = omega (arith, e) in rw (same, strncpy-zeros k)
strncpy-string (suc n) (c ∷ text) k h e =
    ground (arith, h.0, strncpy-string n text k h.1 (omega (arith, e)))

pub c_string-padded : (text : List ℕ) (k : ℕ) → NonZero text → c_string (padded text k) ≡ done text
unfolding c_string
c_string-padded [] k h = refl
c_string-padded (c ∷ text) k h = ground (arith, h.0, c_string-padded text k h.1)

-- A buffer without a NUL has no string.
pub c_string-unterminated : (buffer : List ℕ) → NonZero buffer → c_string buffer ≡ undefined
unfolding c_string
c_string-unterminated [] h = refl
c_string-unterminated (c ∷ buffer) h = ground (arith, h.0, c_string-unterminated buffer h.1)

-- The bytes of a string and of its NUL, moved up and down by one.
move_up :
    (text rest : List ℕ)
    → overwrite 0 (take (suc (length text)) (text ++ 0 ∷ 0 ∷ rest)) (drop 1 (text ++ 0 ∷ 0 ∷ rest))
      ≡ text ++ 0 ∷ rest
unfolding overwrite
move_up [] rest = refl
move_up (c ∷ []) rest = refl
move_up (c ∷ d ∷ text) rest = ap (c ∷◌) (move_up (d ∷ text) rest)

move_down :
    (b : ℕ) (text rest : List ℕ)
    → overwrite 0 (take (suc (length text)) (text ++ 0 ∷ rest)) (b ∷ text ++ 0 ∷ rest)
      ≡ text ++ 0 ∷ 0 ∷ rest
unfolding overwrite
move_down b [] rest = refl
move_down b (c ∷ text) rest = ap (c ∷◌) (move_down c text rest)

-- The same from the index on, where an edit takes place.
pub open_gap :
    (i c n : ℕ) (text rest : List ℕ)
    → i ≤ length text
    → n ≡ suc (length text - i)
    → set (overwrite (suc i) (take n (drop i (text ++ 0 ∷ 0 ∷ rest))) (text ++ 0 ∷ 0 ∷ rest)) i c
      ≡ insert_at i c text ++ 0 ∷ rest
unfolding overwrite
open_gap zero c n [] rest le e = rw e
open_gap zero c n (d ∷ text) rest le e =
    let all : n ≡ suc (suc (length text)) = omega (arith, e) in
    rw all (ap (λ r. c ∷ r) (move_up (d ∷ text) rest))
open_gap (suc i) c n [] rest le e = elim le [ ]
open_gap (suc i) c n (d ∷ text) rest le e =
    ap (d ∷◌) (open_gap i c n text rest (omega (arith, le)) (omega (arith, e)))

pub close_gap :
    (i n : ℕ) (text rest : List ℕ)
    → i < length text
    → n ≡ length text - i
    → overwrite i (take n (drop (suc i) (text ++ 0 ∷ rest))) (text ++ 0 ∷ rest)
      ≡ delete_at i text ++ 0 ∷ 0 ∷ rest
unfolding overwrite
close_gap i n [] rest lt e = elim lt [ ]
close_gap zero n (d ∷ text) rest lt e =
    let all : n ≡ suc (length text) = omega (arith, e) in rw all (move_down d text rest)
close_gap (suc i) n (d ∷ text) rest lt e =
    ap (d ∷◌) (close_gap i n text rest (omega (arith, lt)) (omega (arith, e)))
