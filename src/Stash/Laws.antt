-- ===== src/Stash/Laws.antt =====
-- assignments/hw1/stash.c: the lines that make the shell use memory in which no word was stored.
use os_coursework.Prelude.{
  ℕ, ◌≤◌, ◌≡◌, ◌≢◌, refl, ◌∙◌, sym, true, false, Bool, Bool-cases, not, ◌||◌, ◌⊎◌, inl, inr, Option,
  List, [], ◌∷◌, ◌==◌, length, arith, same, same→eq, signed_atoi, ap, ◌↔◌, if◌then◌else◌,
}
use os_coursework.Prelude.Scan.{is_number}
use os_coursework.Stash.{
  invalid, System, Turn, Fork, failed, child, parent, undefined, next, exits, word_at, run_exit,
  run_cd, run_command, run_words, run_line, exit_word, cd_word, max_words, in_background,
}
use os_coursework.Stash.Words.{Holds, parse_command-Holds}

not_newline : (c : ℕ) → c ≢ 10 → (c == 10) ≡ false
not_newline c ne = ground (arith, ne)

run_cd-defined :
    (system : System) (words : List (List ℕ)) (older : Option ℕ)
    → run_cd system words older ≢ undefined
unfolding run_cd
run_cd-defined system [] older e = absurd (cc (e))
run_cd-defined system (command ∷ []) older e = absurd (cc (e))
run_cd-defined system (command ∷ directory ∷ []) older e = absurd (cc (e))
run_cd-defined system (command ∷ directory ∷ other ∷ words) older e = absurd (cc (e))

if-defined :
    (b : Bool) (x y : Turn) → x ≢ undefined → y ≢ undefined → (if b then x else y) ≢ undefined
if-defined true x y h k = h
if-defined false x y h k = k

run_command-defined :
    (system : System) (words : List (List ℕ)) (older : Option ℕ) (fork : Fork)
    → system.fork ≡ fork
    → run_command system words older ≢ undefined
unfolding run_command
run_command-defined system words older child f e = absurd (cc (rw f at e))
run_command-defined system words older failed f e = absurd (cc (rw f at e))
run_command-defined system words older (parent id) f e =
    if-defined (in_background words) _ _ (λ h. absurd (cc (h))) (λ h. absurd (cc (h))) (rw f at e)

run_exit-defined :
    (command status : List ℕ) (words : List (List ℕ)) (older : Option ℕ)
    → run_exit (command ∷ status ∷ words) older ≢ undefined
unfolding run_exit word_at
run_exit-defined command status words older =
    if-defined (not (is_number status) || not (length (command ∷ status ∷ words) == 2))
      (next (invalid ∷ []) older) (exits (signed_atoi status)) (λ h. absurd (cc (h)))
      (λ h. absurd (cc (h)))

run_words-defined :
    (system : System) (words : List (List ℕ)) (older : Option ℕ)
    → run_words system words older ≡ undefined
    → (words ≡ []) ⊎ (words ≡ exit_word ∷ [])
unfolding run_words word_at
run_words-defined system [] older e = inl refl
run_words-defined system (command ∷ words) older e = elim (Bool-cases (same command cd_word)) [
  | inl cd ↦ absurd (run_cd-defined system (command ∷ words) older (rw cd at e))
  | inr not_cd ↦ elim (Bool-cases (same command exit_word)) [
    | inr other ↦ absurd (
        run_command-defined system (command ∷ words) older system.fork refl
          (rw (not_cd, other) at e))
    | inl exit ↦ inr (alone command words (same→eq command exit_word exit) (rw (not_cd, exit) at e))
  ]
]
  where
    alone :
        (command : List ℕ) (words : List (List ℕ))
        → command ≡ exit_word
        → run_exit (command ∷ words) older ≡ undefined
        → command ∷ words ≡ exit_word ∷ []
    alone command [] is e = ap (λ c. c ∷ []) is
    alone command (status ∷ words) is e = absurd (run_exit-defined command status words older e)

run_words-undefined :
    (system : System) (words : List (List ℕ)) (older : Option ℕ)
    → (words ≡ []) ⊎ (words ≡ exit_word ∷ [])
    → run_words system words older ≡ undefined
unfolding run_words run_exit word_at same
run_words-undefined system words older (inl blank) = rw blank refl
run_words-undefined system words older (inr alone) = rw alone refl

-- For a line of at most 514 words, each of at most 99 characters, that does not start with its newline,
-- the shell reads a word that was never stored exactly when the line holds no word or holds only the
-- word `exit`: every other line is dispatched without such a read, whatever the system calls give.
pub run_line-undefined :
    (system : System) (older : Option ℕ) (c : ℕ) (line : List ℕ) (words : List (List ℕ))
    → c ≢ 10
    → Holds words (c ∷ line)
    → length words ≤ max_words
    → (run_line system (c ∷ line) older ≡ undefined) ↔ ((words ≡ []) ⊎ (words ≡ exit_word ∷ []))
unfolding run_line
run_line-undefined system older c line words ne holds few =
    let e : run_line system (c ∷ line) older ≡ run_words system words older =
      rw (not_newline c ne, parse_command-Holds holds few) refl in
    (
      λ h. run_words-defined system words older (sym e ∙ h),
      λ h. e ∙ run_words-undefined system words older h,
    )
