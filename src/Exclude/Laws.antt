-- ===== src/Exclude/Laws.antt =====
-- What assignments/hw1/exclude.c writes.
use os_coursework.Prelude.{
  ℕ, zero, suc, ◌+◌, ◌-◌, ◌≤◌, ◌<◌, ◌≡◌, ◌≢◌, refl, ap, ◌∙◌, true, false, not, ◌||◌, some, List, [],
  ◌∷◌, ◌++◌, if◌then◌else◌, leb, ◌==◌, length, length-append, All, arith,
}
use os_coursework.Exclude.{
  written, lines_limit, line_limit, string_to_int, write_before, copy_lines, main,
}

-- Bytes that are no newline.
abbrev pub NoNewline : List ℕ → Type 0
NoNewline line = All (λ c. c ≢ 10) line

-- A file of these lines, each ended by a newline.
abbrev pub text : List (List ℕ) → List ℕ
text [] = []
text (line ∷ lines) = line ++ 10 ∷ text lines

-- All lines but the one at the index.
abbrev pub without : ℕ → List (List ℕ) → List (List ℕ)
without k [] = []
without zero (line ∷ lines) = lines
without (suc k) (line ∷ lines) = line ∷ without k lines

-- A line that fits in `wholeFile`.
abbrev pub Fits : List ℕ → Type 0
Fits line = NoNewline line × (length line < line_limit)

append_assoc : (xs ys zs : List ℕ) → (xs ++ ys) ++ zs ≡ xs ++ (ys ++ zs)
append_assoc [] ys zs = refl
append_assoc (x ∷ xs) ys zs = ap (x ∷◌) (append_assoc xs ys zs)

-- The rest of a line that fits, and its newline.
copy_lines-line :
    (excluded j : ℕ) (cur line input : List ℕ)
    → j < lines_limit
    → NoNewline line
    → length cur + length line < line_limit
    → copy_lines excluded j cur (line ++ 10 ∷ input) ≡ (
        if not (j == excluded)
        then write_before (cur ++ (line ++ 10 ∷ [])) (copy_lines excluded (j + 1) [] input)
        else copy_lines excluded (j + 1) [] input)
unfolding copy_lines
copy_lines-line excluded j cur [] input lt h fits =
    let inside : leb 1000 j || leb 1000 (length cur) ≡ false = ground arith in rw inside refl
copy_lines-line excluded j cur (c ∷ line) input lt h fits =
    let inside : leb 1000 j || leb 1000 (length cur) ≡ false = ground (arith, fits) in
    let other : (c == 10) ≡ false = ground (arith, h.0) in
    let ih =
      copy_lines-line excluded j (cur ++ c ∷ []) line input lt h.1
        (omega (arith, length-append cur (c ∷ []), fits)) in
    rw (inside, other) (rw (append_assoc cur (c ∷ []) (line ++ 10 ∷ [])) at ih)

-- A last line without a newline writes nothing.
copy_lines-tail :
    (excluded j : ℕ) (cur tail : List ℕ)
    → j < lines_limit
    → NoNewline tail
    → length cur + length tail ≤ line_limit
    → copy_lines excluded j cur tail ≡ written []
unfolding copy_lines
copy_lines-tail excluded j cur [] lt h fits = refl
copy_lines-tail excluded j cur (c ∷ tail) lt h fits =
    let inside : leb 1000 j || leb 1000 (length cur) ≡ false = ground (arith, fits) in
    let other : (c == 10) ≡ false = ground (arith, h.0) in
    rw (inside, other)
      (copy_lines-tail excluded j (cur ++ c ∷ []) tail lt h.1
        (omega (arith, length-append cur (c ∷ []), fits)))

-- From line `j` on; the excluded line may be past.
copy_lines-past :
    (excluded j : ℕ) (lines : List (List ℕ)) (tail : List ℕ)
    → All Fits lines
    → NoNewline tail
    → length tail ≤ line_limit
    → j + length lines < lines_limit
    → excluded < j
    → copy_lines excluded j [] (text lines ++ tail) ≡ written (text lines)
unfolding write_before
copy_lines-past excluded j [] tail fit h short few past =
    copy_lines-tail excluded j [] tail (omega (arith, few)) h (omega (arith, short))
copy_lines-past excluded j (line ∷ lines) tail fit h short few past =
    let ih =
      copy_lines-past excluded (j + 1) lines tail fit.1 h short (omega (arith, few))
        (omega (arith, past)) in
    let one =
      copy_lines-line excluded j [] line (text lines ++ tail) (omega (arith, few)) fit.0.0
        (omega (arith, fit.0.1)) in
    let other : (j == excluded) ≡ false = ground (arith, past) in
    ap (copy_lines excluded j []) (append_assoc line (10 ∷ text lines) tail)
    ∙ rw (other, ih) at one
    ∙ ap written (append_assoc line (10 ∷ []) (text lines))

copy_lines-text :
    (k j : ℕ) (lines : List (List ℕ)) (tail : List ℕ)
    → All Fits lines
    → NoNewline tail
    → length tail ≤ line_limit
    → j + length lines < lines_limit
    → copy_lines (j + k) j [] (text lines ++ tail) ≡ written (text (without k lines))
unfolding write_before
copy_lines-text k j [] tail fit h short few =
    copy_lines-tail (j + k) j [] tail (omega (arith, few)) h (omega (arith, short))
copy_lines-text zero j (line ∷ lines) tail fit h short few =
    let rest =
      copy_lines-past (j + 0) (j + 1) lines tail fit.1 h short (omega (arith, few)) (omega arith) in
    let one =
      copy_lines-line (j + 0) j [] line (text lines ++ tail) (omega (arith, few)) fit.0.0
        (omega (arith, fit.0.1)) in
    let here : (j == j + 0) ≡ true = ground arith in
    ap (copy_lines (j + 0) j []) (append_assoc line (10 ∷ text lines) tail) ∙ rw (here, rest) at one
copy_lines-text (suc k) j (line ∷ lines) tail fit h short few =
    let next : j + suc k ≡ j + 1 + k = omega arith in
    let rest = copy_lines-text k (j + 1) lines tail fit.1 h short (omega (arith, few)) in
    let one =
      copy_lines-line (j + 1 + k) j [] line (text lines ++ tail) (omega (arith, few)) fit.0.0
        (omega (arith, fit.0.1)) in
    let other : (j == j + 1 + k) ≡ false = ground arith in
    rw next (
      ap (copy_lines (j + 1 + k) j []) (append_assoc line (10 ∷ text lines) tail)
      ∙ rw (other, rest) at one
      ∙ ap written (append_assoc line (10 ∷ []) (text (without k lines))))

-- Of a file of fewer than 1000 lines with fewer than 1000 characters each, `main` with the number of
-- a line, from 1, writes all the lines but that one. What follows the last newline is not written.
pub main-without :
    (number : List ℕ) (k : ℕ) (lines : List (List ℕ)) (tail : List ℕ)
    → string_to_int number ≡ some (suc k)
    → All Fits lines
    → NoNewline tail
    → length tail ≤ line_limit
    → length lines < lines_limit
    → main number (text lines ++ tail) ≡ written (text (without k lines))
unfolding main
main-without number k lines tail e fit h short few =
    let index : suc k - 1 ≡ 0 + k = omega arith in
    let positive : (suc k == 0) ≡ false = ground arith in
    rw (main, e, positive, index) (copy_lines-text k 0 lines tail fit h short (omega (arith, few)))
