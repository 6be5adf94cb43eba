-- ===== src/Exclude/Tests.antt =====
-- assignments/hw1/exclude.c on a small file.
use os_coursework.Prelude.{ℕ, ◌≡◌, refl, List, [], ◌∷◌, ◌++◌, some, All, arith, isdigit}
use os_coursework.Exclude.{written, main, string_to_int, to_int_from}
use os_coursework.Exclude.Laws.{text, Fits, main-without}

-- The lines `a`, `b` and `c`, and a `d` with no newline.
abbrev three_lines : List (List ℕ)
three_lines = (97 ∷ []) ∷ (98 ∷ []) ∷ (99 ∷ []) ∷ []

line_two : string_to_int (50 ∷ []) ≡ some 2
unfolding string_to_int to_int_from isdigit
line_two = refl

three_lines-Fits : All Fits three_lines
three_lines-Fits = (
  ((omega arith, tt), omega arith),
  (((omega arith, tt), omega arith), (((omega arith, tt), omega arith), tt)),
)

main-without_example :
    main (50 ∷ []) (text three_lines ++ 100 ∷ []) ≡ written (97 ∷ 10 ∷ 99 ∷ 10 ∷ [])
main-without_example =
    main-without (50 ∷ []) 1 three_lines (100 ∷ []) line_two three_lines-Fits (omega arith, tt)
      (omega arith) (omega arith)
