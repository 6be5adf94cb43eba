-- ===== src/Stash/Words.antt =====
-- assignments/hw1/stash.c: how `parseCommand` takes a line apart.
use os_coursework.Prelude.{
  ℕ, zero, suc, ◌≤◌, ◌<◌, ◌≡◌, refl, ap, false, none, some, List, [], ◌∷◌, ◌++◌, All, length, arith,
}
use os_coursework.Prelude.Scan.{
  isspace, skip_spaces, Spaces, Ends, skip_spaces-Spaces, skip_spaces-append, scan_word-append,
}
use os_coursework.Stash.{max_words, next_word, parse_words, parse_command}

-- A word has at most 99 characters, none of them a space.
pub record IsWord (word : List ℕ) : Type 0 where
  pub visible : All (λ c. isspace c ≡ false) word
  pub some_char : 0 < length word
  pub short : length word ≤ 99

-- The words that a line holds, with any spaces around them.
pub data Holds : List (List ℕ) → List ℕ → Type 0 where
  nothing : {line : List ℕ} → Spaces line → Holds [] line
  a_word :
      (spaces word rest : List ℕ) {words : List (List ℕ)}
      → Spaces spaces
      → IsWord word
      → Ends rest
      → Holds words rest
      → Holds (word ∷ words) (spaces ++ (word ++ rest))

next_word-append :
    (spaces word rest : List ℕ)
    → Spaces spaces
    → IsWord word
    → Ends rest
    → next_word (spaces ++ (word ++ rest)) ≡ some (word, rest)
unfolding next_word skip_spaces
next_word-append spaces [] rest h w e = absurd (omega (arith, w.some_char))
next_word-append spaces (c ∷ word) rest h w e =
    rw
      (
        next_word,
        skip_spaces-append spaces ((c ∷ word) ++ rest) h,
        w.visible.0,
        scan_word-append 99 (c ∷ word) rest w.visible w.short e,
      )
      refl

next_word-Spaces : (line : List ℕ) → Spaces line → next_word line ≡ none
unfolding next_word
next_word-Spaces line h = rw (next_word, skip_spaces-Spaces line h) refl

parse_words-Holds :
    (n : ℕ) {words : List (List ℕ)} {line : List ℕ}
    → Holds words line
    → length words ≤ n
    → parse_words n line ≡ words
unfolding parse_words
parse_words-Holds zero (nothing h) le = refl
parse_words-Holds zero (a_word spaces word rest h w e more) le = absurd (omega arith)
parse_words-Holds (suc n) {words} {line} (nothing h) le =
    rw (parse_words, next_word-Spaces line h) refl
parse_words-Holds (suc n) (a_word spaces word rest h w e more) le =
    rw (parse_words, next_word-append spaces word rest h w e)
      (ap (λ r. word ∷ r) (parse_words-Holds n more (omega arith)))

-- From a line with up to 514 words of at most 99 characters, with any spaces before, between and behind
-- them, `parseCommand` takes these words in order.
pub parse_command-Holds :
    {words : List (List ℕ)} {line : List ℕ}
    → Holds words line
    → length words ≤ max_words
    → parse_command line ≡ words
unfolding parse_command
parse_command-Holds h le = parse_words-Holds max_words h le
