-- ===== src/Editor/Undo.antt =====
-- What `undo` of assignments/hw3/edit.c brings back, and what it does not.
use os_coursework.Prelude.{
  ℕ, zero, suc, ◌+◌, ◌-◌, ◌≤◌, ◌<◌, ◌≡◌, ◌≢◌, refl, sym, subst, ap, ◌∙◌, true, false, List, [], ◌∷◌,
  ◌++◌, ltb, leb, ◌==◌, length, set, take, drop, arith,
}
use os_coursework.Editor.{
  done, undefined, ◌>>=◌, >>=-step, string_limit, EditState, overwrite, memmove, store,
  save_history, answer,
}
use os_coursework.Prelude.{strncpy}
use os_coursework.Editor.Plain.{insert, delete, undo, report}
use os_coursework.Editor.Text.{
  insert_at, delete_at, padded, length-overwrite, c_string-unterminated,
}
use os_coursework.Editor.Holds.{
  Holds, Holds-strncpy, length-Holds, NonZero-insert_at, length-insert_at, length-delete_at,
}
use os_coursework.Editor.Refine.{Represents, one_more, insert-Represents, delete-Represents}

-- A state whose strings are these, with `len` and `num_undos` as given.
pub record Restored (state : EditState) (text text1 text2 : List ℕ) (len undos : ℕ) : Type 0 where
  pub string : Holds text state.string
  pub len_is : state.len ≡ len
  pub prev1 : Holds text1 state.prev1
  pub prev2 : Holds text2 state.prev2
  pub num_undos : state.num_undos ≡ undos

-- `undo` brings back the newest text of the history and takes it off, but leaves `len` as it was.
undo-Restored :
    {state : EditState} {text text1 text2 text3 : List ℕ} {undos : ℕ}
    → Represents state text text1 text2 text3 (suc undos)
    → (next : EditState) × (undo state ≡ done (answer true, next))
      × Restored next text1 text2 text3 (length text) undos
unfolding undo
undo-Restored {state} {text} {text1} {text2} {text3} {undos} r =
    let some_left : (state.num_undos == 0) ≡ false = ground (arith, r.num_undos) in
    (
      record state {
        string = strncpy string_limit state.prev1;
        prev1 = strncpy string_limit state.prev2;
        prev2 = strncpy string_limit state.prev3;
        num_undos = state.num_undos - 1;
      },
      rw some_left refl,
      record {
        string = Holds-strncpy r.prev1;
        len_is = r.len;
        prev1 = Holds-strncpy r.prev2;
        prev2 = Holds-strncpy r.prev3;
        num_undos = omega (arith, r.num_undos);
      },
    )

one_more_pos : (undos : ℕ) → one_more undos ≡ suc (one_more undos - 1)
one_more_pos undos = ground arith

-- `undo` after an accepted `insert` restores the string and the two texts before it, but `len` stays
-- one more than the length of the string.
undo-insert :
    {state : EditState} {text text1 text2 text3 : List ℕ} {undos : ℕ} (i c : ℕ)
    → Represents state text text1 text2 text3 undos
    → c ≢ 0
    → i ≤ length text
    → length text < 75
    → (next : EditState) × ((insert state i c >>= λ r. undo (r.1)) ≡ done (answer true, next))
      × Restored next text text1 text2 (suc (length text)) (one_more undos - 1)
undo-insert {state} {text} {text1} {text2} {text3} {undos} i c r nz le lt =
    let (inserted, e, r1) = insert-Represents i c r nz le lt in
    let r1' =
      subst (Represents inserted (insert_at i c text) text text1 text2) (one_more_pos undos) r1 in
    let (next, u, back) = undo-Restored r1' in
    (next, rw (e, u) refl, rw (sym (length-insert_at i c text)) back)

-- All but the last byte of a full buffer move up, and take the place of the only NUL.
fill_up :
    (text : List ℕ) (c : ℕ)
    → overwrite 0 (take (suc (length text)) (c ∷ text ++ 0 ∷ [])) (text ++ 0 ∷ []) ≡ c ∷ text
unfolding overwrite
fill_up [] c = refl
fill_up (d ∷ text) c = ap (c ∷◌) (fill_up text d)

fill_gap :
    (i c n : ℕ) (text : List ℕ)
    → i < length text
    → n ≡ length text - i
    → set (overwrite (suc i) (take n (drop i (text ++ 0 ∷ []))) (text ++ 0 ∷ [])) i c
      ≡ insert_at i c text
unfolding overwrite
fill_gap i c n [] lt e = elim lt [ ]
fill_gap zero c n (d ∷ text) lt e =
    let all : n ≡ suc (length text) = omega (arith, e) in rw all (ap (c ∷◌) (fill_up text d))
fill_gap (suc i) c n (d ∷ text) lt e =
    ap (d ∷◌) (fill_gap i c n text (omega (arith, lt)) (omega (arith, e)))

-- The insertion when `len` is one less than the 75 characters of the string.
fill_bytes :
    (i c : ℕ) (text buffer : List ℕ)
    → Holds text buffer
    → length text ≡ 75
    → i < 75
    → (memmove (i + 1) i (74 - i + 1) buffer >>= store i c) ≡ done (insert_at i c text)
unfolding memmove store
fill_bytes i c text buffer h full lt =
    let n = 74 - i + 1 in
    let size : length buffer ≡ 76 = length-Holds h in
    let target : leb (i + 1 + n) (length buffer) ≡ true = ground (arith, size) in
    let origin : leb (i + n) (length buffer) ≡ true = ground (arith, size) in
    let next : i + 1 ≡ suc i = omega arith in
    let bytes = take n (drop i buffer) in
    let inside : ltb i (length (overwrite (suc i) bytes buffer)) ≡ true =
      ground (arith, size, length-overwrite (suc i) bytes buffer) in
    let last : 75 - length text ≡ 0 = omega (arith, full) in
    let whole : buffer ≡ text ++ 0 ∷ [] = h.bytes ∙ ap (padded text) last in
    rw (target, origin, next, inside)
      (ap done (rw whole (fill_gap i c n text (omega (arith, full, lt)) (omega (arith, full)))))

insert-overfull :
    {state : EditState} {text text1 text2 : List ℕ} {undos : ℕ} (i c : ℕ)
    → Restored state text text1 text2 74 undos
    → length text ≡ 75
    → i < 75
    → insert state i c
      ≡ done (
        answer true,
        record (save_history state) {
          string = insert_at i c text;
          len = 75;
          num_undos = one_more state.num_undos;
        },
      )
unfolding insert save_history
insert-overfull {state} {text} i c r full lt =
    let inside : ltb 74 i ≡ false = ground arith in
    rw (r.len_is, inside)
      (>>=-step (memmove (i + 1) i (74 - i + 1) state.string) (store i c)
        (λ string. done (
          answer true,
          record (save_history state) {
            string = string;
            len = 75;
            num_undos = one_more state.num_undos;
          },
        ))
        (insert_at i c text) (fill_bytes i c text state.string r.string full lt))

-- From a text of 75 characters, any accepted `delete`, an `undo` and an `insert` below index 75 are
-- all answered `OK`, and leave the buffer without a NUL, so that `report` reads behind its end.
pub unterminated :
    {state : EditState} {text text1 text2 text3 : List ℕ} {undos : ℕ} (i j c : ℕ)
    → Represents state text text1 text2 text3 undos
    → length text ≡ 75
    → i < 75
    → j < 75
    → c ≢ 0
    → (deleted : EditState) × (undone : EditState) × (inserted : EditState) × (delete state i
        ≡ done (answer true, deleted))
      × (undo deleted ≡ done (answer true, undone))
      × (insert undone j c ≡ done (answer true, inserted))
      × (report inserted ≡ undefined)
unfolding report
unterminated {state} {text} {text1} {text2} {text3} {undos} i j c r full i_in j_in nz =
    let (deleted, d, r1) = delete-Represents i r (omega (arith, full, i_in)) in
    let r1' =
      subst (Represents deleted (delete_at i text) text text1 text2) (one_more_pos undos) r1 in
    let (undone, u, back) = undo-Restored r1' in
    let back' : Restored undone text text1 text2 74 (one_more undos - 1) =
      subst (λ l. Restored undone text text1 text2 l (one_more undos - 1))
        (omega (arith, full, length-delete_at i text (omega (arith, full, i_in)))) back in
    (
      deleted,
      undone,
      record (save_history undone) {
        string = insert_at j c text;
        len = 75;
        num_undos = one_more undone.num_undos;
      },
      d,
      u,
      insert-overfull j c back' full j_in,
      rw
          (c_string-unterminated (insert_at j c text)
            (NonZero-insert_at j c text nz r.string.nonzero))
          refl,
    )
