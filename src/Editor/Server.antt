-- ===== src/Editor/Server.antt =====
-- assignments/hw2/server.c and client.c: the editor behind two message queues. `EditState` is
-- `struct EditingString`; the queues give and take every message until the server is stopped.
mod Copies
mod Shifts
mod Edits
mod Session
mod Round
mod Serve
mod Limits
pub mod Client
mod Tests
use os_coursework.Prelude.{
  ℕ, zero, suc, ◌+◌, ◌-◌, Bool, true, false, not, ◌&&◌, ◌||◌, List, [], ◌∷◌, ◌++◌, if◌then◌else◌,
  ltb, leb, ◌==◌, length, get_or, set, take, drop, elem, strncpy, decimal, same, isdigit,
}
use os_coursework.Editor.{
  Outcome, done, blocked, exited, undefined, ◌>>=◌, string_limit, undo_limit, EditState, overwrite,
  store, c_string, atoi, insert_word, delete_word, undo_word, report_word,
}

-- `struct ClientRequest`; the index is not negative, which the client sees to.
pub record Request : Type 0 where
  pub command : ℕ
  pub index : ℕ
  pub character : ℕ

-- `response.status`
pub data Status : Type 0 where
  ok : Status
  error : Status
  contents : Status

unfoldable pub load : ℕ → List ℕ → Outcome ℕ
load i buffer = if ltb i (length buffer) then done (get_or buffer i 0) else undefined

unfoldable pub strlen : List ℕ → Outcome ℕ
strlen buffer = c_string buffer >>= λ text. done (length text)

unfoldable pub strcpy : List ℕ → List ℕ → Outcome (List ℕ)
strcpy dest source = c_string source >>= λ text.
    if ltb (length text) (length dest) then done (overwrite 0 (text ++ 0 ∷ []) dest) else undefined

-- The loop of an insertion, from `i = index + n` down.
unfoldable pub shift_up : ℕ → ℕ → List ℕ → Outcome (List ℕ)
shift_up index zero string = done string
shift_up index (suc n) string = load (index + n) string >>= λ c.
    (store (index + suc n) c string >>= λ moved. shift_up index n moved)

-- The loop of a deletion, `n` rounds from `i` up.
unfoldable pub shift_down : ℕ → ℕ → List ℕ → Outcome (List ℕ)
shift_down zero i string = done string
shift_down (suc n) i string =
    load (i + 1) string >>= λ c. (store i c string >>= λ moved. shift_down n (i + 1) moved)

unfoldable pub push_history : EditState → Outcome EditState
push_history state = do
  prev3 ← strcpy state.prev3 state.prev2
  prev2 ← strcpy state.prev2 state.prev1
  prev1 ← strcpy state.prev1 state.string
  done (record state { prev1 = prev1; prev2 = prev2; prev3 = prev3 })

unfoldable pub insert : ℕ → ℕ → EditState → Outcome (Status × EditState)
insert index character state = if ltb state.len index then done (error, state) else do
  saved ← push_history state
  moved ← shift_up index (state.len - index) saved.string
  string ← store index character moved
  done (ok, record saved { string = string; num_undos = state.num_undos + 1 })

unfoldable pub delete : ℕ → EditState → Outcome (Status × EditState)
delete index state = if ltb state.len index then done (error, state) else do
  saved ← push_history state
  string ← shift_down (string_limit - 1 - index) index saved.string
  done (ok, record saved { string = string; num_undos = state.num_undos + 1 })

unfoldable pub undo : EditState → Outcome (Status × EditState)
undo state = if state.num_undos == 0 then done (error, state) else do
  string ← strcpy state.string state.prev1
  prev1 ← strcpy state.prev1 state.prev2
  prev2 ← strcpy state.prev2 state.prev3
  done (
    ok,
    record state { string = string; prev1 = prev1; prev2 = prev2; num_undos = state.num_undos - 1 },
  )

-- `switch (request.command)`
unfoldable pub execute : Request → EditState → Outcome (Status × EditState)
execute request state =
    if request.command == 105
    then insert request.index request.character state
    else if request.command == 100
    then delete request.index state
    else if request.command == 117
    then undo state
    else if request.command == 114
    then done (contents, state)
    else done (ok, state)

-- `response.message` with the given text.
unfoldable pub message : List ℕ → List ℕ
message text = strncpy (string_limit - 1) text ++ 0 ∷ []

abbrev pub ok_text : List ℕ
ok_text = 79 ∷ 75 ∷ []

abbrev pub error_text : List ℕ
error_text = 69 ∷ 82 ∷ 82 ∷ 79 ∷ 82 ∷ []

-- `%s [%d]`
unfoldable pub report_text : List ℕ → ℕ → List ℕ
report_text text undos = text ++ (32 ∷ 91 ∷ (decimal 10 undos ++ 93 ∷ []))

-- `snprintf` into `temp` writes up to `strlen` and five bytes, whatever the size of `temp`.
unfoldable pub respond : Status → EditState → Outcome (List ℕ)
respond ok state = done (message ok_text)
respond error state = done (message error_text)
respond contents state = c_string state.string >>= λ text.
    let written = take (length text + 4) (report_text text state.num_undos) in
    if ltb (length written) string_limit then done (message written) else undefined

-- What the loop does before it waits for a request.
unfoldable pub ready : EditState → Outcome EditState
ready state = strlen state.string >>= λ len.
    done
      (record state { len = len; num_undos = if ltb 3 state.num_undos then 3 else state.num_undos })

unfoldable pub reply : Status × EditState → Outcome (List ℕ × EditState)
reply (status, state) = respond status state >>= λ response. done (response, state)

-- A round of the loop, from a request to its response.
unfoldable pub round : Request → EditState → Outcome (List ℕ × EditState)
round request state = ready state >>= λ begin. (execute request begin >>= reply)

-- The loop, until the server is stopped. If that is while it waits for a request, then `mq_receive`
-- gives none, and the round goes on with the request before.
unfoldable pub serve :
    Bool → List Request → Request → EditState → Outcome (List (List ℕ) × EditState)
serve false [] last state = done ([], state)
serve true [] last state = round last state >>= λ r. done (r.0 ∷ [], r.1)
serve waiting (request ∷ requests) last state = do
  r ← round request state
  t ← serve waiting requests request r.1
  done (r.0 ∷ t.0, t.1)

-- `main` before the loop. The history is not initialised: it holds what the memory held before.
unfoldable pub start : List ℕ → List ℕ → List ℕ → List ℕ → Outcome EditState
start initial prev1 prev2 prev3 =
    if elem 10 (take (string_limit - 1) initial)
    then exited
    else done (record {
      string = message initial;
      prev1 = prev1;
      prev2 = prev2;
      prev3 = prev3;
      len = length initial;
      num_undos = 0;
    })
