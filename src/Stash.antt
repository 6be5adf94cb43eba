-- ===== src/Stash.antt =====
-- assignments/hw1/stash.c: the shell. What the operating system does is a parameter.
mod Words
mod Laws
mod Tests
use os_coursework.Prelude.{
  ℕ, zero, suc, ◌+◌, ◌-◌, Bool, true, false, not, ◌||◌, ◌&&◌, Option, none, some, List, [], ◌∷◌,
  ◌++◌, if◌then◌else◌, ltb, leb, ◌==◌, length, take, drop, same, isdigit, signed_atoi,
}
use os_coursework.Prelude.Scan.{isspace, skip_spaces, scan_word, is_number}

abbrev pub max_words : ℕ
max_words = 514

-- `sscanf( line, "%99s%n", str, &offset )`; `none` if it returns no 1.
unfoldable pub next_word : List ℕ → Option (List ℕ × List ℕ)
next_word line = elim (skip_spaces line) [ [] ↦ none | c ∷ rest ↦ some (scan_word 99 (c ∷ rest)) ]

-- The loop of `parseCommand`, with room for `n` more words.
unfoldable pub parse_words : ℕ → List ℕ → List (List ℕ)
parse_words zero line = []
parse_words (suc n) line = elim (next_word line) [ none ↦ [] | some r ↦ r.0 ∷ parse_words n r.1 ]

unfoldable pub parse_command : List ℕ → List (List ℕ)
parse_command line = parse_words max_words line

-- What `fork` returns.
pub data Fork : Type 0 where
  failed : Fork
  child : Fork
  parent : ℕ → Fork

-- The operating system during one command: what `chdir` and `fork` give, and whether a child has ended.
pub record System : Type 0 where
  pub chdir : List ℕ → Bool
  pub has_ended : ℕ → Bool
  pub fork : Fork

-- What the shell does for a command: what it prints, the programs it runs or waits for.
pub data Action : Type 0 where
  invalid : Action
  done_line : ℕ → Action
  cannot_create : Action
  execvp : List (List ℕ) → Action
  id_line : Option ℕ → Action
  wait_for : ℕ → Action
  wait_for_any : Action

-- A turn of the loop of `main`: the actions and `older_sibling`, an exit, or a use of memory that holds
-- no word.
pub data Turn : Type 0 where
  next : List Action → Option ℕ → Turn
  exits : Bool × ℕ → Turn
  undefined : Turn

-- `words[ i ]`, where the words were stored from place 0 on; `none` at a place in which `parseCommand`
-- has stored none.
unfoldable pub word_at : List (List ℕ) → ℕ → Option (List ℕ)
word_at [] i = none
word_at (word ∷ words) zero = some word
word_at (word ∷ words) (suc i) = word_at words i

unfoldable pub run_exit : List (List ℕ) → Option ℕ → Turn
run_exit words older = elim (word_at words 1) [
  | none ↦ undefined
  | some status ↦
      if not (is_number status) || not (length words == 2)
      then next (invalid ∷ []) older
      else exits (signed_atoi status)
]

unfoldable pub run_cd : System → List (List ℕ) → Option ℕ → Turn
run_cd system (command ∷ directory ∷ []) older =
    next (if system.chdir directory then [] else invalid ∷ []) older
run_cd system words older = next (invalid ∷ []) older

-- The last word starts with `&`.
unfoldable pub in_background : List (List ℕ) → Bool
in_background [] = false
in_background (word ∷ []) = elim word [ [] ↦ false | c ∷ _ ↦ c == 38 ]
in_background (word ∷ other ∷ words) = in_background (other ∷ words)

-- The line for the background child before, if it has ended.
unfoldable pub report_older : System → Option ℕ → List Action × Option ℕ
report_older system none = ([], none)
report_older system (some id) =
    if system.has_ended id then (done_line id ∷ [], none) else ([], some id)

unfoldable pub run_command : System → List (List ℕ) → Option ℕ → Turn
run_command system words older =
    let background = in_background words in
    let arguments = if background then take (length words - 1) words else words in
    let before = report_older system older in
    elim system.fork [
      | child ↦ next (before.0 ++ execvp arguments ∷ []) before.1
      | failed ↦
          next
            (before.0 ++ cannot_create ∷ (if background then id_line none else wait_for_any) ∷ [])
            (if background then none else before.1)
      | parent id ↦
          if background
          then next (before.0 ++ id_line (some id) ∷ []) (some id)
          else next (before.0 ++ wait_for id ∷ []) before.1
    ]

abbrev pub cd_word : List ℕ
cd_word = 99 ∷ 100 ∷ []

abbrev pub exit_word : List ℕ
exit_word = 101 ∷ 120 ∷ 105 ∷ 116 ∷ []

-- The turn for a line that `parseCommand` has taken apart.
unfoldable pub run_words : System → List (List ℕ) → Option ℕ → Turn
run_words system words older = elim (word_at words 0) [
  | none ↦ undefined
  | some command ↦
      if same command cd_word
      then run_cd system words older
      else if same command exit_word
      then run_exit words older
      else run_command system words older
]

unfoldable pub run_line : System → List ℕ → Option ℕ → Turn
run_line system [] older = undefined
run_line system (c ∷ line) older =
    if c == 10 then next [] older else run_words system (parse_command (c ∷ line)) older
