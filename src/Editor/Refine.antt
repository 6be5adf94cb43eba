-- ===== src/Editor/Refine.antt =====
-- assignments/hw3/edit.c and reset.c against a plain description: a string that is edited, and the
-- strings before it.
use os_coursework.Prelude.{
  ℕ, ◌+◌, ◌-◌, ◌≤◌, ◌<◌, ◌≡◌, ◌≢◌, ◌⊎◌, inl, inr, ◌↔◌, refl, sym, ap, true, false, Bool-cases, List,
  [], if◌then◌else◌, ltb, leb, ◌==◌, length, arith, set, ==_iff, leb→le, ltb→lt,
}
use os_coursework.Editor.{
  done, exited, >>=-step, string_limit, undo_limit, EditState, memmove, store, save_history, answer,
  contents,
}
use os_coursework.Prelude.{strncpy}
use os_coursework.Editor.Plain.{insert, delete, undo, report, reset}
use os_coursework.Editor.Text.{insert_at, delete_at, NonZero}
use os_coursework.Editor.Holds.{
  Holds, Holds-insert_at, Holds-delete_at, c_string-Holds, length-insert_at, length-delete_at,
  Holds-strncpy, Holds-set, Holds-empty,
}

-- The text of a state, the three texts of its history, and how many of those may be undone.
pub record Represents (state : EditState) (text text1 text2 text3 : List ℕ) (undos : ℕ)
    : Type 0 where
  pub string : Holds text state.string
  pub len : state.len ≡ length text
  pub prev1 : Holds text1 state.prev1
  pub prev2 : Holds text2 state.prev2
  pub prev3 : Holds text3 state.prev3
  pub num_undos : state.num_undos ≡ undos

-- One more undo, as far as the history goes.
abbrev pub one_more : ℕ → ℕ
one_more undos = if ltb undos undo_limit then undos + 1 else undos

-- `insert` on a state that holds a text puts a character at the index and the old text on the
-- history, when the index is within the text and the text has fewer than 75 characters.
pub insert-Represents :
    {state : EditState} {text text1 text2 text3 : List ℕ} {undos : ℕ} (i c : ℕ)
    → Represents state text text1 text2 text3 undos
    → c ≢ 0
    → i ≤ length text
    → length text < 75
    → (next : EditState) × (insert state i c ≡ done (answer true, next))
      × Represents next (insert_at i c text) text text1 text2 (one_more undos)
unfolding insert save_history
insert-Represents {state} {text} {text1} {text2} {text3} {undos} i c r nz le lt =
    let (b, edit, holds) = Holds-insert_at i c r.string nz le lt in
    let inside : ltb (length text) i ≡ false = ground arith in
    let room : leb 75 (length text) ≡ false = ground arith in
    (
      record (save_history state) {
        string = b;
        len = state.len + 1;
        num_undos = one_more state.num_undos;
      },
      rw (r.len, inside, room)
          (>>=-step (memmove (i + 1) i (length text - i + 1) state.string) (store i c)
            (λ string. done (
              answer true,
              record (save_history state) {
                string = string;
                len = length text + 1;
                num_undos = one_more state.num_undos;
              },
            ))
            b edit),
      record {
        string = holds;
        len = omega (arith, r.len, length-insert_at i c text);
        prev1 = Holds-strncpy r.string;
        prev2 = Holds-strncpy r.prev1;
        prev3 = Holds-strncpy r.prev2;
        num_undos = ap one_more r.num_undos;
      },
    )

-- `delete` of an index within the text removes that character and puts the old text on the history.
pub delete-Represents :
    {state : EditState} {text text1 text2 text3 : List ℕ} {undos : ℕ} (i : ℕ)
    → Represents state text text1 text2 text3 undos
    → i < length text
    → (next : EditState) × (delete state i ≡ done (answer true, next))
      × Represents next (delete_at i text) text text1 text2 (one_more undos)
unfolding delete save_history
delete-Represents {state} {text} {text1} {text2} {text3} {undos} i r lt =
    let (b, edit, holds) = Holds-delete_at i r.string lt in
    let inside : leb (length text) i ≡ false = ground arith in
    (
      record (save_history state) {
        string = b;
        len = state.len - 1;
        num_undos = one_more state.num_undos;
      },
      rw (r.len, inside, edit) refl,
      record {
        string = holds;
        len = omega (arith, r.len, length-delete_at i text lt);
        prev1 = Holds-strncpy r.string;
        prev2 = Holds-strncpy r.prev1;
        prev3 = Holds-strncpy r.prev2;
        num_undos = ap one_more r.num_undos;
      },
    )

insert_refused :
    (state : EditState) (i c : ℕ)
    → (state.len < i) ⊎ (75 ≤ state.len)
    → insert state i c ≡ done (answer false, state)
unfolding insert
insert_refused state i c (inl out) = let out : ltb state.len i ≡ true = ground arith in rw out refl
insert_refused state i c (inr full) =
    let full : leb 75 state.len ≡ true = ground arith in
    elim (Bool-cases (ltb state.len i)) [ inl e ↦ rw e refl | inr e ↦ rw (e, full) refl ]

delete_refused :
    (state : EditState) (i : ℕ) → state.len ≤ i → delete state i ≡ done (answer false, state)
unfolding delete
delete_refused state i out = let out : leb state.len i ≡ true = ground arith in rw out refl

undo_refused :
    (state : EditState) → (undo state ≡ done (answer false, state)) ↔ (state.num_undos ≡ 0)
unfolding undo
undo_refused state = elim (Bool-cases (state.num_undos == 0)) [
  | inl e ↦ ((λ _. (==_iff state.num_undos 0).0 e), λ _. rw e refl)
  | inr e ↦ ((λ h. cc (rw e at h)), λ z. cc (e, (==_iff state.num_undos 0).1 z))
]

-- `insert` answers `Error` and changes nothing exactly when the index is behind the text or the text
-- has 75 characters; `delete` when the index is not in the text; `undo` when there is none left.
refused_edits :
    {state : EditState} {text text1 text2 text3 : List ℕ} {undos : ℕ} (i c : ℕ)
    → Represents state text text1 text2 text3 undos
    → c ≢ 0
    → ((insert state i c ≡ done (answer false, state)) ↔ ((length text < i) ⊎ (75 ≤ length text)))
      × ((delete state i ≡ done (answer false, state)) ↔ (length text ≤ i))
      × ((undo state ≡ done (answer false, state)) ↔ (undos ≡ 0))
refused_edits {state} {text} i c r nz = (
  (
    (λ h. elim (Bool-cases (leb i (length text))) [
      | inl le ↦ elim (Bool-cases (ltb (length text) 75)) [
        | inl lt ↦ cc (
          h,
          (insert-Represents i c r nz (leb→le i (length text) le) (ltb→lt (length text) 75 lt)).1,
        )
        | inr full ↦ inr (ground (arith, full))
      ]
      | inr out ↦ inl (ground (arith, out))
    ]),
    λ out. insert_refused state i c (rw (r.len) out),
  ),
  (
    (λ h. elim (Bool-cases (ltb i (length text))) [
      | inl lt ↦ cc (h, (delete-Represents i r (ltb→lt i (length text) lt)).1)
      | inr out ↦ ground (arith, out)
    ]),
    λ out. delete_refused state i (rw (r.len) out),
  ),
  rw (sym r.num_undos) (undo_refused state),
)

-- `report` prints the text and the number of undos.
pub report-Represents :
    {state : EditState} {text text1 text2 text3 : List ℕ} {undos : ℕ}
    → Represents state text text1 text2 text3 undos
    → report state ≡ done (contents text undos, state)
unfolding report
report-Represents r = rw (c_string-Holds r.string, r.num_undos) refl

-- `reset` with an argument of fewer than 76 characters makes a state that holds it, with three empty
-- strings before it and nothing to undo; a longer argument is refused.
reset-Represents :
    (text : List ℕ) (state : EditState)
    → NonZero text
    → (length text < string_limit
        → (next : EditState) × (reset text state ≡ done next) × Represents next text [] [] [] 0)
      × (string_limit ≤ length text → reset text state ≡ exited)
unfolding reset
reset-Represents text state nz = (
  (λ lt.
      let fits : leb 76 (length text) ≡ false = ground arith in
      (
        record {
          string = set (strncpy string_limit text) 75 0;
          prev1 = strncpy string_limit [];
          prev2 = strncpy string_limit [];
          prev3 = strncpy string_limit [];
          len = length text;
          num_undos = 0;
        },
        rw fits refl,
        record {
          string = Holds-set nz lt;
          len = refl;
          prev1 = Holds-empty;
          prev2 = Holds-empty;
          prev3 = Holds-empty;
          num_undos = refl;
        },
      )),
  λ le. let long : leb 76 (length text) ≡ true = ground arith in rw long refl,
)
