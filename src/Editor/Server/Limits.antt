-- ===== src/Editor/Server/Limits.antt =====
-- assignments/hw2/server.c: what it makes of a text too long for its buffers.
use os_coursework.Prelude.{
  ℕ, ◌+◌, ◌-◌, ◌≤◌, ◌≡◌, ◌≢◌, refl, sym, ap, ◌∙◌, false, List, [], ◌∷◌, ◌++◌, length, arith, ltb,
}
use mathlib.Core.List.{append-nil}
use os_coursework.Editor.{done, undefined, >>=-step, string_limit, EditState, store, c_string}
use os_coursework.Editor.Text.{insert_at, c_string-unterminated}
use os_coursework.Editor.Holds.{Holds, c_string-Holds, NonZero-insert_at}
use os_coursework.Editor.Server.{
  Request, ok, insert, execute, shift_up, strlen, message, ok_text, report_text, respond, reply,
  ready, round,
}
use os_coursework.Editor.Server.Edits.{insert-bytes, take_whole}
use os_coursework.Editor.Server.Session.{Represents, IsReady, ready-IsReady, pushed}
use os_coursework.Editor.Server.Round.{length-report_text}

abbrev pub insertion : ℕ → ℕ → Request
insertion index character = record { command = 105; index = index; character = character }

abbrev pub reporting : Request
reporting = record { command = 114; index = 0; character = 0 }

-- A buffer that is full holds no byte but the string and its NUL.
full_bytes : {text buffer : List ℕ} → Holds text buffer → length text ≡ 75 → buffer ≡ text ++ 0 ∷ []
full_bytes {text} h full =
    let none_left : 75 - length text ≡ 0 = omega (arith, full) in rw none_left at h.bytes

insert_full :
    {state : EditState} {text : List ℕ} {past : List (List ℕ)} (i c : ℕ)
    → IsReady state text past
    → c ≢ 0
    → i ≤ length text
    → length text ≡ 75
    → (next : EditState) × (insert i c state ≡ done (ok, next)) × (c_string next.string ≡ undefined)
unfolding insert
insert_full {state} {text} i c s nz le full =
    let (saved, save, same, after) = pushed s in
    let inside : ltb state.len i ≡ false = ground (arith, s.len) in
    let bytes = insert-bytes i c text [] le in
    let string = insert_at i c text ++ [] in
    let edit = rw (sym s.len, sym (full_bytes s.represents.string full), sym same) at bytes in
    let nonzero = NonZero-insert_at i c text nz s.represents.string.nonzero in
    (
      record saved { string = string; num_undos = state.num_undos + 1 },
      rw (inside, save)
          (>>=-step (shift_up i (state.len - i) saved.string) (λ moved. store i c moved)
            (λ string. done (ok, record saved { string = string; num_undos = state.num_undos + 1 }))
            string edit),
      ap c_string (append-nil (insert_at i c text))
          ∙ c_string-unterminated (insert_at i c text) nonzero,
    )

-- On a text of 75 characters an insertion within the text is answered by `OK`, but it takes the place
-- of the only NUL: whatever the next request is, the server then reads behind the buffer.
pub round_full :
    {state : EditState} {text : List ℕ} {past : List (List ℕ)} (i c : ℕ)
    → Represents state text past
    → c ≢ 0
    → i ≤ length text
    → length text ≡ 75
    → (next : EditState) × (round (insertion i c) state ≡ done (message ok_text, next))
      × ((request : Request) → round request next ≡ undefined)
unfolding round execute reply respond ready strlen
round_full i c r nz le full =
    let (begin, e, s) = ready-IsReady r in
    let (next, edit, lost) = insert_full i c s nz le full in
    (next, rw (e, edit) refl, λ request. rw lost refl)

-- A report of a text of 72 characters or more is written behind the end of `temp`.
round_report :
    {state : EditState} {text : List ℕ} {past : List (List ℕ)}
    → Represents state text past
    → 72 ≤ length text
    → round reporting state ≡ undefined
unfolding round execute reply respond
round_report {state} {text} r long =
    let (begin, e, s) = ready-IsReady r in
    let size = length-report_text text begin.num_undos s.few in
    let whole = take_whole (length text + 4) (report_text text begin.num_undos) (sym size) in
    let beyond : ltb (length (report_text text begin.num_undos)) string_limit ≡ false =
      ground (arith, size) in
    rw (e, c_string-Holds s.represents.string, whole, beyond) refl
