-- ===== src/Editor/Records.antt =====
-- assignments/hw3/edit2.c and reset2.c: the shared-memory editor with undo records, on the state of
-- common2.h.
mod Chain
mod Laws
mod Tests
use os_coursework.Prelude.{
  ℕ, ◌+◌, ◌-◌, ◌%◌, Bool, true, false, ◌||◌, ◌&&◌, List, [], ◌∷◌, if◌then◌else◌, ltb, leb, ◌==◌,
  length, set, get_or, strncpy, same, signed_atoi,
}
use os_coursework.Editor.{
  Outcome, done, exited, undefined, ◌>>=◌, string_limit, undo_limit, memmove, store, c_string,
  Reply, answer, contents, insert_word, delete_word, undo_word, report_word,
}
use os_coursework.Editor.Server.{load, strlen}
use os_coursework.Editor.Server.Client.{first_char}

-- `NONE` is the type of no record that is ever stored.
pub data CommandType : Type 0 where
  inserted : CommandType
  deleted : CommandType

pub record UndoRecord : Type 0 where
  pub type : CommandType
  pub index : ℕ
  pub character : ℕ

pub record EditState : Type 0 where
  pub string : List ℕ
  pub history : List UndoRecord
  pub undo_count : ℕ

-- What a place of the history that was not written holds.
abbrev no_record : UndoRecord
no_record = record { type = inserted; index = 0; character = 0 }

-- `state->history[state->undo_count % UNDO_LIMIT] = ...`, and the count.
unfoldable pub remember : UndoRecord → EditState → EditState
remember r state = record state {
  history = set state.history (state.undo_count % undo_limit) r;
  undo_count = if ltb state.undo_count undo_limit then state.undo_count + 1 else state.undo_count;
}

unfoldable pub insert : Bool × ℕ → ℕ → EditState → Outcome (Reply × EditState)
insert (negative, idx) c state = do
  len ← strlen state.string
  if (negative && ltb 0 idx) || (ltb len idx || leb (string_limit - 1) len)
      then done (answer false, state)
      else do
        moved ← memmove (idx + 1) idx (len - idx + 1) state.string
        string ← store idx c moved
        done (
          answer true,
          record (remember (record { type = inserted; index = idx; character = c }) state) {
            string = string;
          },
        )

unfoldable pub delete : Bool × ℕ → EditState → Outcome (Reply × EditState)
delete (negative, idx) state = do
  len ← strlen state.string
  if (negative && ltb 0 idx) || leb len idx then done (answer false, state) else do
    removed ← load idx state.string
    string ← memmove idx (idx + 1) (len - idx) state.string
    done (
      answer true,
      record (remember (record { type = deleted; index = idx; character = removed }) state) {
        string = string;
      },
    )

-- What `undo` does with the last record; a count below 0 is as large as a `size_t` can be.
unfoldable pub revert : CommandType → ℕ → ℕ → List ℕ → Outcome (List ℕ)
revert inserted index character string = do
  len ← strlen string
  if ltb len index then undefined else memmove index (index + 1) (len - index) string
revert deleted index character string = do
  len ← strlen string
  if ltb (len + 1) index then undefined else do
    moved ← memmove (index + 1) index (len + 1 - index) string
    store index character moved

unfoldable pub undo : EditState → Outcome (Reply × EditState)
undo state =
    if state.undo_count == 0
    then done (answer false, state)
    else (let undo_count = state.undo_count - 1 in
        let last = get_or state.history (undo_count % undo_limit) no_record in
        revert last.type last.index last.character state.string >>= λ string.
        done (answer true, record state { string = string; undo_count = undo_count }))

unfoldable pub report : EditState → Outcome (Reply × EditState)
report state = do text ← c_string state.string; done (contents text state.undo_count, state)

unfoldable pub insert_command : List (List ℕ) → EditState → Outcome (Reply × EditState)
insert_command (idx ∷ c ∷ []) state = insert (signed_atoi idx) (first_char c) state
insert_command _ state = exited

unfoldable pub delete_command : List (List ℕ) → EditState → Outcome (Reply × EditState)
delete_command (idx ∷ []) state = delete (signed_atoi idx) state
delete_command _ state = exited

-- `main` on `argv[ 1 ]` and what follows; `state` is the shared memory.
unfoldable pub main : List (List ℕ) → EditState → Outcome (Reply × EditState)
main [] state = exited
main (command ∷ args) state =
    if same command insert_word
    then insert_command args state
    else if same command delete_word
    then delete_command args state
    else if same command undo_word
    then undo state
    else if same command report_word
    then report state
    else exited

-- `main` of reset2.c: the history stays as it was.
unfoldable pub reset : List ℕ → EditState → Outcome EditState
reset initial_string state =
    if leb string_limit (length initial_string)
    then exited
    else done (record state {
      string = set (strncpy string_limit initial_string) (string_limit - 1) 0;
      undo_count = 0;
    })
