-- ===== src/Exclude.antt =====
-- assignments/hw1/exclude.c: copies a file without one of its lines. The input is the list of bytes
-- that the calls of `read` give one after the other; `open`, `read` and `write` are taken to succeed.
mod Laws
mod Tests
use os_coursework.Prelude.{
  ℕ, zero, suc, ◌+◌, ◌-◌, ◌*◌, Bool, true, false, not, ◌||◌, Option, none, some, List, [], ◌∷◌,
  ◌++◌, if◌then◌else◌, leb, ◌==◌, length, isdigit,
}

-- What the program comes to: the bytes written, `usage()`, or an access out of `wholeFile`.
pub data Outcome : Type 0 where
  written : List ℕ → Outcome
  usage : Outcome
  undefined : Outcome

abbrev pub lines_limit : ℕ
lines_limit = 1000

abbrev pub line_limit : ℕ
line_limit = 1000

-- The loop of `string_to_int`, with `out` so far.
unfoldable pub to_int_from : ℕ → List ℕ → Option ℕ
to_int_from out [] = some out
to_int_from out (c ∷ str) =
    let rest = to_int_from (out * 10 + (c - 48)) str in if not (isdigit c) then none else rest

-- `none` is `usage()`; a number beyond an `int` is undefined in C.
unfoldable pub string_to_int : List ℕ → Option ℕ
string_to_int str = to_int_from 0 str

unfoldable pub write_before : List ℕ → Outcome → Outcome
write_before line (written rest) = written (line ++ rest)
write_before line usage = usage
write_before line undefined = undefined

-- The loop over the bytes, at line `j`, of which `line` has been read.
unfoldable pub copy_lines : ℕ → ℕ → List ℕ → List ℕ → Outcome
copy_lines excluded j line [] = written []
copy_lines excluded j line (c ∷ input) =
    let same_line = copy_lines excluded j (line ++ c ∷ []) input in
    let next_line = copy_lines excluded (j + 1) [] input in
    if leb lines_limit j || leb line_limit (length line)
    then undefined
    else if c == 10
    then (if not (j == excluded) then write_before (line ++ c ∷ []) next_line else next_line)
    else same_line

-- `main`, with the third argument and the input.
unfoldable pub main : List ℕ → List ℕ → Outcome
main line_number input = elim (string_to_int line_number) [
  | none ↦ usage
  | some excluded_line ↦
      if excluded_line == 0 then usage else copy_lines (excluded_line - 1) 0 [] input
]
