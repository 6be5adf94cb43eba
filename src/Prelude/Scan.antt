-- ===== src/Prelude/Scan.antt =====
-- `sscanf` on a line: spaces, words and numbers.
use Prim.Native.Nat.{ℕ, zero, suc, ◌+◌, ◌-◌, ◌*◌, ◌/◌, ◌%◌, ◌^◌, ◌≤◌, ◌<◌}
use mathlib.Core.Path.{◌≡◌, refl, ap, ◌∙◌}
use mathlib.Core.Logic.{inl, inr}
use mathlib.Core.Bool.{Bool, true, false, ◌&&◌, ◌||◌}
use mathlib.Core.Option.{Option, none, some}
use mathlib.Core.List.{List, [], ◌∷◌, ◌++◌}
use native.Mathlib.Omega.{arith}
use native.Mathlib.Nat.{pow-suc}
use os_coursework.Prelude.Tests.{◌==◌, ltb, leb, Bool-cases, if◌then◌else◌}
use os_coursework.Prelude.Lists.{All, length, length-append}
use os_coursework.Prelude.Chars.{isdigit, decimal, digits_value, signed_atoi}

-- What `%s` ends a word at.
unfoldable pub isspace : ℕ → Bool
isspace c = (c == 32) || (leb 9 c && leb c 13)

unfoldable pub skip_spaces : List ℕ → List ℕ
skip_spaces [] = []
skip_spaces (c ∷ line) = let rest = skip_spaces line in if isspace c then rest else c ∷ line

-- What `%s` stores, and the line behind it, with a width.
unfoldable pub scan_word : ℕ → List ℕ → List ℕ × List ℕ
scan_word zero line = ([], line)
scan_word (suc width) [] = ([], [])
scan_word (suc width) (c ∷ line) =
    let rest = scan_word width line in if isspace c then ([], c ∷ line) else (c ∷ rest.0, rest.1)

-- Whether `sscanf( word, "%d", &status )` gives a number.
unfoldable pub is_number : List ℕ → Bool
is_number [] = false
is_number (c ∷ word) =
    isdigit c || ((c == 45 || c == 43) && isdigit (elim word [ [] ↦ 0 | d ∷ _ ↦ d ]))

abbrev pub Spaces : List ℕ → Type 0
Spaces line = All (λ c. isspace c ≡ true) line

-- A line ends, or goes on with a space.
pub data Ends : List ℕ → Type 0 where
  at_end : Ends []
  at_space : {c : ℕ} {line : List ℕ} → isspace c ≡ true → Ends (c ∷ line)

pub skip_spaces-Spaces : (line : List ℕ) → Spaces line → skip_spaces line ≡ []
unfolding skip_spaces
skip_spaces-Spaces [] h = refl
skip_spaces-Spaces (c ∷ line) h = rw (h.0) (skip_spaces-Spaces line h.1)

pub skip_spaces-append :
    (spaces line : List ℕ) → Spaces spaces → skip_spaces (spaces ++ line) ≡ skip_spaces line
unfolding skip_spaces
skip_spaces-append [] line h = refl
skip_spaces-append (c ∷ spaces) line h = rw (h.0) (skip_spaces-append spaces line h.1)

pub scan_word-append :
    (width : ℕ) (word rest : List ℕ)
    → All (λ c. isspace c ≡ false) word
    → length word ≤ width
    → Ends rest
    → scan_word width (word ++ rest) ≡ (word, rest)
unfolding scan_word
scan_word-append zero [] rest h le e = refl
scan_word-append zero (c ∷ word) rest h le e = absurd (omega arith)
scan_word-append (suc width) [] [] h le e = refl
scan_word-append (suc width) [] (c ∷ rest) h le (at_space space) = rw space refl
scan_word-append (suc width) (c ∷ word) rest h le e =
    let r = scan_word-append width word rest h.1 (omega arith) e in rw (h.0, r) refl

-- A number is read back, whatever comes behind its digits.
digits_value-digits :
    (value : ℕ) (digits rest : List ℕ)
    → All (λ c. isdigit c ≡ true) digits
    → digits_value value (digits ++ rest) ≡ digits_value (digits_value value digits) rest
unfolding digits_value
digits_value-digits value [] rest h = refl
digits_value-digits value (c ∷ digits) rest h =
    rw (h.0) (digits_value-digits (value * 10 + (c - 48)) digits rest h.1)

All-append : (P : ℕ → Type 0) (xs ys : List ℕ) → All P xs → All P ys → All P (xs ++ ys)
All-append P [] ys h k = k
All-append P (a ∷ xs) ys h k = (h.0, All-append P xs ys h.1 k)

a_digit : (d : ℕ) → d < 10 → isdigit (48 + d) ≡ true
unfolding isdigit
a_digit d lt = ground arith

pub decimal-digits : (fuel n : ℕ) → All (λ c. isdigit c ≡ true) (decimal fuel n)
unfolding decimal
decimal-digits zero n = tt
decimal-digits (suc fuel) n = elim (Bool-cases (ltb n 10)) [
  | inl lt ↦ rw lt (a_digit n (ground arith), tt)
  | inr ge ↦ rw ge (
      All-append (λ c. isdigit c ≡ true) (decimal fuel (n / 10)) ((48 + n % 10) ∷ [])
        (decimal-digits fuel (n / 10)) (a_digit (n % 10) (omega arith), tt))
]

pub some_digits : (fuel n : ℕ) → 0 < length (decimal (suc fuel) n)
unfolding decimal
some_digits fuel n = ground (arith, length-append (decimal fuel (n / 10)) ((48 + n % 10) ∷ []))

digits_value-one : (value d : ℕ) → d < 10 → digits_value value ((48 + d) ∷ []) ≡ value * 10 + d
unfolding digits_value
digits_value-one value d lt = rw (a_digit d lt) (omega arith)

digits_value-decimal : (fuel n : ℕ) → n < 10 ^ fuel → digits_value 0 (decimal fuel n) ≡ n
unfolding decimal digits_value
digits_value-decimal zero n lt = omega arith
digits_value-decimal (suc fuel) n lt = elim (Bool-cases (ltb n 10)) [
  | inl small ↦ rw small (digits_value-one 0 n (ground arith) ∙ omega arith)
  | inr ge ↦ rw ge (
      digits_value-digits 0 (decimal fuel (n / 10)) ((48 + n % 10) ∷ [])
        (decimal-digits fuel (n / 10))
      ∙ digits_value-one (digits_value 0 (decimal fuel (n / 10))) (n % 10) (omega arith)
      ∙ omega (arith, digits_value-decimal fuel (n / 10) (omega (arith, lt, pow-suc 10 fuel))))
]

-- A line ends, or goes on with no digit.
abbrev pub NoDigit : List ℕ → Type 0
NoDigit [] = Unit
NoDigit (c ∷ rest) = isdigit c ≡ false

-- `sscanf` with `%d` or `%ld`: the number, or none.
unfoldable pub scan_int : List ℕ → Option (Bool × ℕ)
scan_int line =
    let word = skip_spaces line in if is_number word then some (signed_atoi word) else none

digits_value-end : (value : ℕ) (rest : List ℕ) → NoDigit rest → digits_value value rest ≡ value
unfolding digits_value
digits_value-end value [] h = refl
digits_value-end value (c ∷ rest) h = rw h refl

signed_atoi-digit :
    (c : ℕ) (word : List ℕ)
    → isdigit c ≡ true
    → signed_atoi (c ∷ word) ≡ (false, digits_value 0 (c ∷ word))
unfolding signed_atoi isdigit
signed_atoi-digit c word digit = ground arith

signed_atoi-digits :
    (digits : List ℕ)
    → All (λ c. isdigit c ≡ true) digits
    → 0 < length digits
    → signed_atoi digits ≡ (false, digits_value 0 digits)
signed_atoi-digits [] h lt = absurd (omega arith)
signed_atoi-digits (c ∷ digits) h lt = signed_atoi-digit c digits h.0

pub signed_atoi-decimal : (n : ℕ) → n < 10 ^ 10 → signed_atoi (decimal 10 n) ≡ (false, n)
signed_atoi-decimal n lt =
    signed_atoi-digits (decimal 10 n) (decimal-digits 10 n) (some_digits 9 n)
    ∙ ap (λ v. (false, v)) (digits_value-decimal 10 n lt)

scan_int-word :
    (spaces word : List ℕ) (c : ℕ)
    → Spaces spaces
    → isdigit c ≡ true
    → scan_int (spaces ++ c ∷ word) ≡ some (false, digits_value 0 (c ∷ word))
unfolding scan_int
scan_int-word spaces word c s digit =
    let visible : skip_spaces (c ∷ word) ≡ c ∷ word =
      unfold skip_spaces in unfold isspace in unfold isdigit in ground arith in
    let number : is_number (c ∷ word) ≡ true = unfold is_number in rw digit refl in
    rw (skip_spaces-append spaces (c ∷ word) s, visible, number, signed_atoi-digit c word digit)
      refl

scan_int-digits :
    (spaces digits rest : List ℕ)
    → Spaces spaces
    → All (λ c. isdigit c ≡ true) digits
    → 0 < length digits
    → scan_int (spaces ++ (digits ++ rest)) ≡ some (false, digits_value 0 (digits ++ rest))
scan_int-digits spaces [] rest s h lt = absurd (omega arith)
scan_int-digits spaces (c ∷ digits) rest s h lt = scan_int-word spaces (digits ++ rest) c s h.0

pub scan_int-decimal :
    (spaces rest : List ℕ) (n : ℕ)
    → Spaces spaces
    → n < 10 ^ 10
    → NoDigit rest
    → scan_int (spaces ++ (decimal 10 n ++ rest)) ≡ some (false, n)
unfolding scan_int
scan_int-decimal spaces rest n s lt ends =
    let digits = decimal-digits 10 n in
    let value : digits_value 0 (decimal 10 n ++ rest) ≡ n =
      digits_value-digits 0 (decimal 10 n) rest digits
      ∙ digits_value-end (digits_value 0 (decimal 10 n)) rest ends
      ∙ digits_value-decimal 10 n lt in
    rw (scan_int-digits spaces (decimal 10 n) rest s digits (some_digits 9 n), value) refl
