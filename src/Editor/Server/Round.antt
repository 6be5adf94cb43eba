-- ===== src/Editor/Server/Round.antt =====
-- assignments/hw2/server.c: one round of the server against the plain description of Session.antt.
use os_coursework.Prelude.{
  ℕ, ◌+◌, ◌≤◌, ◌<◌, ◌≡◌, ◌≢◌, refl, sym, ap, ◌∙◌, true, false, inl, inr, Bool-cases, List, [], ◌∷◌,
  ◌++◌, length, length-append, take, arith, if◌then◌else◌, ltb, ◌==◌, ltb→lt, ==_iff, decimal,
}
use os_coursework.Editor.{done, ◌>>=◌, string_limit, EditState}
use os_coursework.Editor.Text.{insert_at, delete_at}
use os_coursework.Editor.Holds.{c_string-Holds}
use os_coursework.Editor.Server.{
  Request, contents, execute, message, ok_text, error_text, report_text, respond, reply, round,
}
use os_coursework.Editor.Server.Edits.{take_whole}
use os_coursework.Editor.Server.Session.{
  Represents, IsReady, ready-IsReady, insert-Represents, delete-Represents, refused,
  undo-Represents, undo_refused, recent, length-capped,
}

abbrev pub undone : List ℕ → List (List ℕ) → List ℕ × (List ℕ × List (List ℕ))
undone text [] = (error_text, (text, []))
undone text (before ∷ past) = (ok_text, (before, past))

-- What a request asks for: the text of the response, the text, and the texts before it.
unfoldable pub expected : Request → List ℕ → List (List ℕ) → List ℕ × (List ℕ × List (List ℕ))
expected request text past =
    if request.command == 105
    then (if ltb (length text) request.index
        then (error_text, (text, past))
        else (ok_text, (insert_at request.index request.character text, take 3 (text ∷ past))))
    else if request.command == 100
    then (if ltb (length text) request.index
        then (error_text, (text, past))
        else (ok_text, (delete_at request.index text, take 3 (text ∷ past))))
    else if request.command == 117
    then undone text past
    else if request.command == 114
    then (report_text text (length past), (text, past))
    else (ok_text, (text, past))

-- The requests that the buffers have room for.
pub record IsAllowed (request : Request) (text : List ℕ) : Type 0 where
  pub insertion :
      request.command ≡ 105
      → request.index ≤ length text
      → (request.character ≢ 0) × (length text < 75)
  pub report : request.command ≡ 114 → length text ≤ 71

decimal_small : (n : ℕ) → n ≤ 3 → length (decimal 10 n) ≡ 1
unfolding decimal
decimal_small n le = ground arith

pub length-report_text :
    (text : List ℕ) (n : ℕ) → n ≤ 3 → length (report_text text n) ≡ length text + 4
unfolding report_text
length-report_text text n le = omega (
  arith,
  length-append text (32 ∷ 91 ∷ (decimal 10 n ++ 93 ∷ [])),
  length-append (decimal 10 n) (93 ∷ []),
  decimal_small n le,
)

undos-recent :
    {state : EditState} {text : List ℕ} {past : List (List ℕ)}
    → IsReady state text past
    → state.num_undos ≡ length past
undos-recent {state} s = sym (ap length (recent s) ∙ length-capped state.num_undos _ _ _ s.few)

respond-contents :
    {state : EditState} {text : List ℕ} {past : List (List ℕ)}
    → IsReady state text past
    → length text ≤ 71
    → respond contents state ≡ done (message (report_text text (length past)))
unfolding respond
respond-contents {state} {text} {past} s le =
    let size = length-report_text text state.num_undos s.few in
    let whole = take_whole (length text + 4) (report_text text state.num_undos) (sym size) in
    let room : ltb (length (report_text text state.num_undos)) string_limit ≡ true =
      ground (arith, size) in
    rw (c_string-Holds s.represents.string, whole, room)
      (ap (λ n. done (message (report_text text n))) (undos-recent s))

-- One round answers a request as expected, and goes on with a state that represents what is expected.
abbrev Answers : Request → EditState → List ℕ → List (List ℕ) → Type 0
Answers request begin text past =
    let e = expected request text past in
    (next : EditState) × ((execute request begin >>= reply) ≡ done (message e.0, next))
    × Represents next e.1.0 e.1.1

undo-Answers :
    (request : Request) {begin : EditState} {text : List ℕ} {past : List (List ℕ)}
    → IsReady begin text past
    → (request.command == 105) ≡ false
    → (request.command == 100) ≡ false
    → (request.command == 117) ≡ true
    → Answers request begin text past
unfolding execute expected reply respond
undo-Answers request {begin} {text} {past = []} s i d u =
    (begin, rw (i, d, u, undo_refused s) refl, rw (i, d, u) (s.represents))
undo-Answers request {begin} {text} {past = before ∷ past} s i d u =
    let (next, e, after) = undo-Represents s in (next, rw (i, d, u, e) refl, rw (i, d, u) after)

execute-Answers :
    (request : Request) {begin : EditState} {text : List ℕ} {past : List (List ℕ)}
    → IsReady begin text past
    → IsAllowed request text
    → Answers request begin text past
unfolding execute expected reply respond
execute-Answers request {begin} {text} {past} s allowed =
    elim (Bool-cases (request.command == 105)) [
      | inl i ↦ elim (Bool-cases (ltb (length text) request.index)) [
        | inl beyond ↦ (
          begin,
          rw (i, beyond, (refused request.index request.character s (ltb→lt _ _ beyond)).0) refl,
          rw (i, beyond) (s.represents),
        )
        | inr within ↦
            let room =
              allowed.insertion ((==_iff request.command 105).0 i) (ground (arith, within)) in
            let (next, e, after) =
              insert-Represents request.index request.character s room.0 (ground (arith, within))
                room.1 in
            (next, rw (i, within, e) refl, rw (i, within) after)
      ]
      | inr not_i ↦ elim (Bool-cases (request.command == 100)) [
        | inl d ↦ elim (Bool-cases (ltb (length text) request.index)) [
          | inl beyond ↦ (
            begin,
            rw (not_i, d, beyond, (refused request.index 0 s (ltb→lt _ _ beyond)).1) refl,
            rw (not_i, d, beyond) (s.represents),
          )
          | inr within ↦
              let (next, e, after) = delete-Represents request.index s (ground (arith, within)) in
              (next, rw (not_i, d, within, e) refl, rw (not_i, d, within) after)
        ]
        | inr not_d ↦ elim (Bool-cases (request.command == 117)) [
          | inl u ↦ undo-Answers request s not_i not_d u
          | inr not_u ↦ elim (Bool-cases (request.command == 114)) [
            | inl q ↦ (
              begin,
              rw
                  (
                    not_i,
                    not_d,
                    not_u,
                    q,
                    respond-contents s (allowed.report ((==_iff request.command 114).0 q)),
                  )
                  refl,
              rw (not_i, not_d, not_u, q) (s.represents),
            )
            | inr other ↦ (
              begin,
              rw (not_i, not_d, not_u, other) refl,
              rw (not_i, not_d, not_u, other) (s.represents),
            )
          ]
        ]
      ]
    ]

pub round-Represents :
    (request : Request) {state : EditState} {text : List ℕ} {past : List (List ℕ)}
    → Represents state text past
    → IsAllowed request text
    → let e = expected request text past in
      (next : EditState) × (round request state ≡ done (message e.0, next))
      × Represents next e.1.0 e.1.1
unfolding round
round-Represents request r allowed =
    let (begin, e, s) = ready-IsReady r in
    let (next, answer, after) = execute-Answers request s allowed in (next, rw e answer, after)
