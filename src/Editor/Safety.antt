-- ===== src/Editor/Safety.antt =====
-- Any sequence of edits of assignments/hw3/edit.c stays within the buffers, and
-- assignments/hw4/edit.c does under its semaphore what assignments/hw3/edit.c does.
use os_coursework.Prelude.{
  ℕ, ◌+◌, ◌-◌, ◌≤◌, ◌<◌, ◌≡◌, refl, ◌∙◌, true, false, Bool-cases, inl, inr, List, [], ◌∷◌,
  if◌then◌else◌, ltb, leb, ◌==◌, ◌||◌, length, set, take, drop, arith,
}
use os_coursework.Editor.{
  Outcome, done, ◌>>=◌, >>=-step, string_limit, undo_limit, EditState, overwrite, memmove, store,
  save_history, Reply, answer,
}
use os_coursework.Prelude.{strncpy}
use os_coursework.Editor.Plain
use os_coursework.Editor.Text.{length-strncpy, length-overwrite, length-set}

-- The four buffers have their size, `len` leaves room for the NUL, and `num_undos` is within the
-- history. The string need not end in time.
pub record IsValid (state : EditState) : Type 0 where
  pub string : length state.string ≡ string_limit
  pub prev1 : length state.prev1 ≡ string_limit
  pub prev2 : length state.prev2 ≡ string_limit
  pub prev3 : length state.prev3 ≡ string_limit
  pub len : state.len < string_limit
  pub num_undos : state.num_undos ≤ undo_limit

-- Within a buffer, the two writes of an insertion and the one of a deletion are defined.
insert-defined :
    (buffer : List ℕ) (i c len : ℕ)
    → length buffer ≡ string_limit
    → i ≤ len
    → len < 75
    → (b : List ℕ) × ((memmove (i + 1) i (len - i + 1) buffer >>= store i c) ≡ done b)
      × (length b ≡ string_limit)
unfolding memmove store
insert-defined buffer i c len size le lt =
    let n = len - i + 1 in
    let bytes = take n (drop i buffer) in
    let target : leb (i + 1 + n) (length buffer) ≡ true = ground (arith, size) in
    let origin : leb (i + n) (length buffer) ≡ true = ground (arith, size) in
    let same_size = length-overwrite (i + 1) bytes buffer in
    let inside : ltb i (length (overwrite (i + 1) bytes buffer)) ≡ true =
      ground (arith, size, same_size) in
    (
      set (overwrite (i + 1) bytes buffer) i c,
      rw (target, origin, inside) refl,
      length-set (overwrite (i + 1) bytes buffer) i c ∙ same_size ∙ size,
    )

delete-defined :
    (buffer : List ℕ) (i len : ℕ)
    → length buffer ≡ string_limit
    → i < len
    → len < 76
    → (b : List ℕ) × (memmove i (i + 1) (len - i) buffer ≡ done b) × (length b ≡ string_limit)
unfolding memmove
delete-defined buffer i len size lt short =
    let n = len - i in
    let bytes = take n (drop (i + 1) buffer) in
    let target : leb (i + n) (length buffer) ≡ true = ground (arith, size) in
    let origin : leb (i + 1 + n) (length buffer) ≡ true = ground (arith, size) in
    (overwrite i bytes buffer, rw (target, origin) refl, length-overwrite i bytes buffer ∙ size)

-- What an edit comes to on a valid state.
abbrev pub Fine : Outcome (Reply × EditState) → Type 0
Fine result = (reply : Reply) × (next : EditState) × (result ≡ done (reply, next)) × IsValid next

one_more_bound :
    (undos : ℕ)
    → undos ≤ undo_limit
    → (if ltb undos undo_limit then undos + 1 else undos) ≤ undo_limit
one_more_bound undos le = ground arith

abbrev pub inserted : EditState → List ℕ → EditState
inserted state string = record (save_history state) {
  string = string;
  len = state.len + 1;
  num_undos = if ltb state.num_undos undo_limit then state.num_undos + 1 else state.num_undos;
}

abbrev pub deleted : EditState → List ℕ → EditState
deleted state string = record (save_history state) {
  string = string;
  len = state.len - 1;
  num_undos = if ltb state.num_undos undo_limit then state.num_undos + 1 else state.num_undos;
}

insert-Fine : (state : EditState) (i c : ℕ) → IsValid state → Fine (Plain.insert state i c)
unfolding Plain.insert save_history
insert-Fine state i c v = elim (Bool-cases (ltb state.len i || leb 75 state.len)) [
  | inl refused ↦ (answer false, state, rw refused refl, v)
  | inr accepted ↦
      let lt : state.len < 75 = ground (arith, accepted) in
      let (b, edit, size) =
        insert-defined state.string i c state.len v.string (ground (arith, accepted)) lt in
      (
        answer true,
        inserted state b,
        rw accepted (
            >>=-step (memmove (i + 1) i (state.len - i + 1) state.string) (store i c)
              (λ string. done (answer true, inserted state string)) b edit),
        record {
          string = size;
          prev1 = length-strncpy 76 state.string;
          prev2 = length-strncpy 76 state.prev1;
          prev3 = length-strncpy 76 state.prev2;
          len = omega (arith, lt);
          num_undos = one_more_bound state.num_undos v.num_undos;
        },
      )
]

delete-Fine : (state : EditState) (i : ℕ) → IsValid state → Fine (Plain.delete state i)
unfolding Plain.delete save_history
delete-Fine state i v = elim (Bool-cases (leb state.len i)) [
  | inl refused ↦ (answer false, state, rw refused refl, v)
  | inr accepted ↦
      let lt : i < state.len = ground (arith, accepted) in
      let (b, edit, size) = delete-defined state.string i state.len v.string lt v.len in
      (
        answer true,
        deleted state b,
        rw (accepted, edit) refl,
        record {
          string = size;
          prev1 = length-strncpy 76 state.string;
          prev2 = length-strncpy 76 state.prev1;
          prev3 = length-strncpy 76 state.prev2;
          len = omega (arith, v.len);
          num_undos = one_more_bound state.num_undos v.num_undos;
        },
      )
]

undo-Fine : (state : EditState) → IsValid state → Fine (Plain.undo state)
unfolding Plain.undo
undo-Fine state v = elim (Bool-cases (state.num_undos == 0)) [
  | inl none_left ↦ (answer false, state, rw none_left refl, v)
  | inr some_left ↦ (
    answer true,
    record state {
      string = strncpy string_limit state.prev1;
      prev1 = strncpy string_limit state.prev2;
      prev2 = strncpy string_limit state.prev3;
      num_undos = state.num_undos - 1;
    },
    rw some_left refl,
    record {
      string = length-strncpy 76 state.prev1;
      prev1 = length-strncpy 76 state.prev2;
      prev2 = length-strncpy 76 state.prev3;
      prev3 = v.prev3;
      len = v.len;
      num_undos = omega (arith, v.num_undos);
    },
  )
]

-- The commands of `main` that change the shared memory.
pub data Edit : Type 0 where
  insertion : ℕ → ℕ → Edit
  deletion : ℕ → Edit
  undoing : Edit

unfoldable pub run_edit : Edit → EditState → Outcome (Reply × EditState)
run_edit (insertion i c) state = Plain.insert state i c
run_edit (deletion i) state = Plain.delete state i
run_edit undoing state = Plain.undo state

-- One edit after the other, each by a process of its own.
unfoldable pub run_edits : List Edit → EditState → Outcome EditState
run_edits [] state = done state
run_edits (edit ∷ edits) state = run_edit edit state >>= λ r. run_edits edits (r.1)

run_edit-Fine : (edit : Edit) (state : EditState) → IsValid state → Fine (run_edit edit state)
unfolding run_edit
run_edit-Fine (insertion i c) state v = insert-Fine state i c v
run_edit-Fine (deletion i) state v = delete-Fine state i v
run_edit-Fine undoing state v = undo-Fine state v

-- Every sequence of edits of a valid state is defined, so it accesses the buffers within their bounds,
-- and ends in a valid state.
pub run_edits-IsValid :
    (edits : List Edit) (state : EditState)
    → IsValid state
    → (next : EditState) × (run_edits edits state ≡ done next) × IsValid next
unfolding run_edit run_edits
run_edits-IsValid [] state v = (state, refl, v)
run_edits-IsValid (edit ∷ edits) state v =
    let (reply, next, e, v') = run_edit-Fine edit state v in
    let (last, all, valid) = run_edits-IsValid edits next v' in (last, rw (e, all) refl, valid)
