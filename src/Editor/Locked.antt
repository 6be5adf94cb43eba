-- ===== src/Editor/Locked.antt =====
-- assignments/hw4/edit.c and reset.c: the editor with a semaphore around each edit.
use os_coursework.Prelude.{
  ℕ, zero, suc, ◌+◌, ◌-◌, Bool, true, false, Option, none, some, List, [], ◌∷◌, if◌then◌else◌, ltb,
  leb, ◌==◌, ◌||◌, not, length, set,
}
use os_coursework.Editor.{
  Outcome, done, blocked, exited, ◌>>=◌, string_limit, undo_limit, EditState, memmove, store,
  c_string, atoi, save_history, exit_success, Reply, answer, contents, insert_word, delete_word,
  undo_word, report_word, test_word,
}
use os_coursework.Prelude.{strncpy}
use os_coursework.Prelude.{same, isdigit}

-- What the processes share: the semaphore's value and the shared memory.
pub record Shared : Type 0 where
  pub sem : ℕ
  pub edit : EditState

unfoldable pub str_is_int : List ℕ → Bool
str_is_int [] = true
str_is_int (c ∷ str) = if not (isdigit c) then false else str_is_int str

unfoldable pub sem_wait : Shared → Outcome Shared
sem_wait shared = if shared.sem == 0 then blocked else done (record shared { sem = shared.sem - 1 })

unfoldable pub sem_post : Shared → Shared
sem_post shared = record shared { sem = shared.sem + 1 }

unfoldable pub insert : Shared → ℕ → ℕ → Outcome (Bool × Shared)
insert shared idx ch = do
  shared ← sem_wait shared
  let state = shared.edit
  if ltb state.len idx || leb (string_limit - 1) state.len
      then done (false, sem_post shared)
      else do
        let saved = save_history state
        moved ← memmove (idx + 1) idx (state.len - idx + 1) saved.string
        string ← store idx ch moved
        done (
          true,
          sem_post (record shared {
            edit = record saved {
              string = string;
              len = state.len + 1;
              num_undos =
                  if ltb state.num_undos undo_limit then state.num_undos + 1 else state.num_undos;
            };
          }),
        )

unfoldable pub delete : Shared → ℕ → Outcome (Bool × Shared)
delete shared idx = do
  shared ← sem_wait shared
  let state = shared.edit
  if leb state.len idx then done (false, sem_post shared) else do
    let saved = save_history state
    string ← memmove idx (idx + 1) (state.len - idx) saved.string
    done (
      true,
      sem_post (record shared {
        edit = record saved {
          string = string;
          len = state.len - 1;
          num_undos =
              if ltb state.num_undos undo_limit then state.num_undos + 1 else state.num_undos;
        };
      }),
    )

unfoldable pub undo : Shared → Outcome (Bool × Shared)
undo shared = do
  shared ← sem_wait shared
  let state = shared.edit
  if state.num_undos == 0
      then done (false, sem_post shared)
      else done (
        true,
        sem_post (record shared {
          edit = record state {
            string = strncpy string_limit state.prev1;
            prev1 = strncpy string_limit state.prev2;
            prev2 = strncpy string_limit state.prev3;
            num_undos = state.num_undos - 1;
          };
        }),
      )

unfoldable pub report : Shared → Outcome (Reply × Shared)
report shared = do
  text ← c_string shared.edit.string
  done (contents text shared.edit.num_undos, shared)

-- `n` rounds; the results of the calls are dropped.
unfoldable pub test : Shared → ℕ → ℕ → ℕ → Outcome Shared
test shared zero idx ch = done shared
test shared (suc n) idx ch = do
  inserted ← insert shared idx ch
  deleted ← delete (inserted.1) idx
  test (deleted.1) n idx ch

-- `printf( ok ? "OK\n" : "Error\n" )`.
unfoldable pub print_result : Outcome (Bool × Shared) → Outcome (Reply × Shared)
print_result result = do r ← result; done (answer (r.0), r.1)

unfoldable pub insert_command : List (List ℕ) → Shared → Outcome (Reply × Shared)
insert_command (index ∷ ch ∷ []) shared =
    if not (length ch == 1) || not (str_is_int index)
    then exited
    else do idx ← atoi index; elim ch [ [] ↦ exited | c ∷ _ ↦ print_result (insert shared idx c) ]
insert_command _ shared = exited

unfoldable pub delete_command : List (List ℕ) → Shared → Outcome (Reply × Shared)
delete_command (index ∷ []) shared =
    if not (str_is_int index)
    then exited
    else (atoi index >>= λ idx. print_result (delete shared idx))
delete_command _ shared = exited

unfoldable pub test_command : List (List ℕ) → Shared → Outcome (Reply × Shared)
test_command (rounds ∷ index ∷ ch ∷ []) shared =
    if not (str_is_int rounds) || (not (str_is_int index) || not (length ch == 1))
    then exited
    else do
      n ← atoi rounds
      idx ← atoi index
      elim ch [ [] ↦ exited | c ∷ _ ↦ (test shared n idx c >>= λ s. done (answer true, s)) ]
test_command _ shared = exited

-- The commands of `main`, on `argv[ 1 ]` and what follows.
unfoldable pub run_command : List (List ℕ) → Shared → Outcome (Reply × Shared)
run_command [] shared = exited
run_command (command ∷ args) shared =
    if same command insert_word
    then insert_command args shared
    else if same command delete_word
    then delete_command args shared
    else if same command undo_word
    then print_result (undo shared)
    else if same command report_word
    then report shared
    else if same command test_word
    then test_command args shared
    else exited

-- `main`, with its exit status.
unfoldable pub main : List (List ℕ) → Shared → Outcome (ℕ × (Reply × Shared))
main args shared = do r ← run_command args shared; done (exit_success, r)

-- `main` of reset.c. The previous strings stay, and `sem_open` makes the semaphore with value 1
-- only when there is none yet.
unfoldable pub reset : List ℕ → EditState → Option ℕ → Outcome Shared
reset initial_string state sem =
    if leb string_limit (length initial_string)
    then exited
    else done (record {
      sem = elim sem [ none ↦ 1 | some value ↦ value ];
      edit = record state {
        string = set (strncpy string_limit initial_string) (string_limit - 1) 0;
        len = length initial_string;
        num_undos = 0;
      };
    })
