-- ===== src/Prelude/Chars.antt =====
-- Strings as lists of character codes, and the tests of the C library on them.
use Prim.Native.Nat.{ℕ, zero, suc, ◌+◌, ◌-◌, ◌*◌, ◌/◌, ◌%◌}
use mathlib.Core.Path.{◌≡◌, refl}
use mathlib.Core.Logic.{inl, inr}
use mathlib.Core.Bool.{Bool, true, false, ◌&&◌, ◌||◌}
use mathlib.Core.List.{List, [], ◌∷◌, ◌++◌}
use native.Mathlib.Omega.{arith}
use os_coursework.Prelude.Tests.{◌==◌, ltb, leb, ==_iff, Bool-cases, if◌then◌else◌}
use os_coursework.Prelude.Lists.{replicate}

-- `strcmp( a, b ) == 0`.
unfoldable pub same : List ℕ → List ℕ → Bool
same [] [] = true
same [] (y ∷ ys) = false
same (x ∷ xs) [] = false
same (x ∷ xs) (y ∷ ys) = (x == y) && same xs ys

unfoldable pub isdigit : ℕ → Bool
isdigit c = leb 48 c && leb c 57

-- The `n` bytes that `strncpy` writes: the source up to its NUL, then zeros.
unfoldable pub strncpy : ℕ → List ℕ → List ℕ
strncpy zero source = []
strncpy (suc n) [] = 0 ∷ strncpy n []
strncpy (suc n) (c ∷ source) =
    let rest = strncpy n source in if c == 0 then replicate (suc n) 0 else c ∷ rest

-- `%d` of a number of at most `fuel` digits.
unfoldable pub decimal : ℕ → ℕ → List ℕ
decimal zero n = []
decimal (suc fuel) n =
    let rest = decimal fuel (n / 10) in
    if ltb n 10 then (48 + n) ∷ [] else rest ++ (48 + n % 10) ∷ []

-- The digits at the front of a string.
unfoldable pub digits_value : ℕ → List ℕ → ℕ
digits_value value [] = value
digits_value value (c ∷ str) =
    let rest = digits_value (value * 10 + (c - 48)) str in if isdigit c then rest else value

-- `atoi`, as a sign and a magnitude.
unfoldable pub signed_atoi : List ℕ → Bool × ℕ
signed_atoi [] = (false, 0)
signed_atoi (c ∷ str) =
    let rest = signed_atoi str in
    if (leb 9 c && leb c 13) || (c == 32)
    then rest
    else if c == 45
    then (true, digits_value 0 str)
    else if c == 43
    then (false, digits_value 0 str)
    else (false, digits_value 0 (c ∷ str))

pub same_refl : (xs : List ℕ) → same xs xs ≡ true
unfolding same
same_refl [] = refl
same_refl (x ∷ xs) = ground (arith, same_refl xs)

pub same→eq : (xs ys : List ℕ) → same xs ys ≡ true → xs ≡ ys
unfolding same
same→eq [] [] h = refl
same→eq [] (y ∷ ys) h = cc
same→eq (x ∷ xs) [] h = cc
same→eq (x ∷ xs) (y ∷ ys) h = elim (Bool-cases (x == y)) [
  | inl e ↦ cc ((==_iff x y).0 e, same→eq xs ys (rw e at h))
  | inr e ↦ cc (rw e at h)
]
