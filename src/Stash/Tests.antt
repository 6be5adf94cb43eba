-- ===== src/Stash/Tests.antt =====
-- Examples for the theorems about assignments/hw1/stash.c.
use os_coursework.Prelude.{
  ℕ, List, ◌≡◌, refl, true, false, ◌↔◌, ◌⊎◌, none, some, [], ◌∷◌, arith, same,
}
use os_coursework.Stash.{
  parse_command, System, parent, id_line, next, undefined, run_line, exit_word, word_at, run_words,
  run_command, in_background, report_older,
}
use os_coursework.Prelude.Scan.{isspace, at_space}
use os_coursework.Stash.Words.{IsWord, Holds, nothing, a_word, parse_command-Holds}
use os_coursework.Stash.Laws.{run_line-undefined}

ls-IsWord : IsWord (108 ∷ 115 ∷ [])
unfolding isspace
ls-IsWord = record { visible = (refl, (refl, tt)); some_char = omega arith; short = omega arith }

amp-IsWord : IsWord (38 ∷ [])
unfolding isspace
amp-IsWord = record { visible = (refl, tt); some_char = omega arith; short = omega arith }

-- ` ls  &` and a newline.
ls_line : Holds ((108 ∷ 115 ∷ []) ∷ (38 ∷ []) ∷ []) (32 ∷ 108 ∷ 115 ∷ 32 ∷ 32 ∷ 38 ∷ 10 ∷ [])
unfolding isspace
ls_line =
    a_word (32 ∷ []) (108 ∷ 115 ∷ []) (32 ∷ 32 ∷ 38 ∷ 10 ∷ []) (refl, tt) ls-IsWord (at_space refl)
      (a_word (32 ∷ 32 ∷ []) (38 ∷ []) (10 ∷ []) (refl, (refl, tt)) amp-IsWord (at_space refl)
        (nothing (refl, tt)))

parse_command-Holds_example :
    parse_command (32 ∷ 108 ∷ 115 ∷ 32 ∷ 32 ∷ 38 ∷ 10 ∷ []) ≡ (108 ∷ 115 ∷ []) ∷ (38 ∷ []) ∷ []
parse_command-Holds_example = parse_command-Holds ls_line (omega arith)

abbrev a_system : System
a_system = record { chdir = λ directory. true; has_ended = λ id. false; fork = parent 7 }

blank_line : Holds [] (32 ∷ 10 ∷ [])
unfolding isspace
blank_line = nothing (refl, (refl, tt))

abbrev no_words : List (List ℕ)
no_words = []

run_line-undefined_example :
    (run_line a_system (32 ∷ 10 ∷ []) none ≡ undefined)
    ↔ ((no_words ≡ []) ⊎ (no_words ≡ exit_word ∷ []))
run_line-undefined_example =
    run_line-undefined a_system none 32 (10 ∷ []) no_words (omega arith) blank_line (omega arith)

-- `ls &` is started in the background.
background :
    run_words a_system ((108 ∷ 115 ∷ []) ∷ (38 ∷ []) ∷ []) none
    ≡ next (id_line (some 7) ∷ []) (some 7)
unfolding run_words word_at same run_command in_background report_older
background = refl
