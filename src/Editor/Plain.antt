-- ===== src/Editor/Plain.antt =====
-- assignments/hw3/edit.c and reset.c: each command is a part of `main`.
use os_coursework.Prelude.{
  ℕ, ◌+◌, ◌-◌, Bool, true, false, List, [], ◌∷◌, if◌then◌else◌, ltb, leb, ◌==◌, ◌||◌, not, length,
  set,
}
use os_coursework.Editor.{
  Outcome, done, exited, ◌>>=◌, string_limit, undo_limit, EditState, memmove, store, c_string, atoi,
  save_history, exit_failure, Reply, answer, contents, insert_word, delete_word, undo_word,
  report_word,
}
use os_coursework.Prelude.{strncpy}
use os_coursework.Prelude.{same, isdigit}

-- The loop of `strIsInt`, with its `result`.
unfoldable pub all_digits : Bool → List ℕ → Bool
all_digits result [] = result
all_digits result (c ∷ str) = all_digits (if not (isdigit c) then false else result) str

unfoldable pub str_is_int : List ℕ → Bool
unfolding all_digits
str_is_int str = all_digits true str

unfoldable pub insert : EditState → ℕ → ℕ → Outcome (Reply × EditState)
insert state idx c =
    if ltb state.len idx || leb (string_limit - 1) state.len then done (answer false, state) else do
      let saved = save_history state
      moved ← memmove (idx + 1) idx (state.len - idx + 1) saved.string
      string ← store idx c moved
      done (
        answer true,
        record saved {
          string = string;
          len = state.len + 1;
          num_undos =
              if ltb state.num_undos undo_limit then state.num_undos + 1 else state.num_undos;
        },
      )

unfoldable pub delete : EditState → ℕ → Outcome (Reply × EditState)
delete state idx = if leb state.len idx then done (answer false, state) else do
  let saved = save_history state
  string ← memmove idx (idx + 1) (state.len - idx) saved.string
  done (
    answer true,
    record saved {
      string = string;
      len = state.len - 1;
      num_undos = if ltb state.num_undos undo_limit then state.num_undos + 1 else state.num_undos;
    },
  )

unfoldable pub undo : EditState → Outcome (Reply × EditState)
undo state =
    if state.num_undos == 0
    then done (answer false, state)
    else done (
      answer true,
      record state {
        string = strncpy string_limit state.prev1;
        prev1 = strncpy string_limit state.prev2;
        prev2 = strncpy string_limit state.prev3;
        num_undos = state.num_undos - 1;
      },
    )

unfoldable pub report : EditState → Outcome (Reply × EditState)
report state = do text ← c_string state.string; done (contents text state.num_undos, state)

unfoldable pub insert_command : List (List ℕ) → EditState → Outcome (Reply × EditState)
insert_command (index ∷ ch ∷ []) state =
    if not (length ch == 1) || not (str_is_int index)
    then exited
    else do idx ← atoi index; elim ch [ [] ↦ exited | c ∷ _ ↦ insert state idx c ]
insert_command _ state = exited

unfoldable pub delete_command : List (List ℕ) → EditState → Outcome (Reply × EditState)
delete_command (index ∷ []) state =
    if not (str_is_int index) then exited else (atoi index >>= λ idx. delete state idx)
delete_command _ state = exited

-- The commands of `main`, on `argv[ 1 ]` and what follows; `state` is the shared memory.
unfoldable pub run_command : List (List ℕ) → EditState → Outcome (Reply × EditState)
run_command [] state = exited
run_command (command ∷ args) state =
    if same command insert_word
    then insert_command args state
    else if same command delete_word
    then delete_command args state
    else if same command undo_word
    then undo state
    else if same command report_word
    then report state
    else exited

-- `main`: its exit status is `EXIT_FAILURE` from the start, and no command changes it.
unfoldable pub main : List (List ℕ) → EditState → Outcome (ℕ × (Reply × EditState))
main args state = do r ← run_command args state; done (exit_failure, r)

-- `main` of reset.c, with its only argument.
unfoldable pub reset : List ℕ → EditState → Outcome EditState
reset initial_string state =
    if leb string_limit (length initial_string)
    then exited
    else done (record {
      string = set (strncpy string_limit initial_string) (string_limit - 1) 0;
      prev1 = strncpy string_limit [];
      prev2 = strncpy string_limit [];
      prev3 = strncpy string_limit [];
      len = length initial_string;
      num_undos = 0;
    })
