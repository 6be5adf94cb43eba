-- ===== src/Editor/Server/Client.antt =====
-- assignments/hw2/client.c: a command line becomes a request, and the response is printed.
use os_coursework.Prelude.{
  ℕ, zero, suc, ◌+◌, ◌-◌, ◌≤◌, ◌≡◌, refl, Bool, true, false, ◌&&◌, List, [], ◌∷◌, ◌++◌,
  if◌then◌else◌, ltb, ◌==◌, length, take, take-all, arith, same, decimal, signed_atoi, Bool-cases,
  inl, inr, ◌/◌, ◌%◌, ==_iff, ◌<◌,
}
use os_coursework.Prelude.Scan.{signed_atoi-decimal}
use os_coursework.Editor.{
  Outcome, done, exited, ◌>>=◌, EditState, c_string, insert_word, delete_word, undo_word,
  report_word,
}
use os_coursework.Editor.Text.{NonZero, c_string-padded}
use os_coursework.Editor.Server.{Request, message, round, ok_text, error_text, report_text}
use os_coursework.Editor.Server.Session.{Represents, few_past}
use os_coursework.Editor.Server.Round.{
  undone, expected, IsAllowed, length-report_text, round-Represents,
}
use os_coursework.Editor.Server.Serve.{strncpy-snoc, NonZero-take}

-- `argv[3][0]`
unfoldable pub first_char : List ℕ → ℕ
first_char [] = 0
first_char (c ∷ str) = c

-- `request.index = atoi( ... )`, and the check that it is not negative.
unfoldable pub with_index : ℕ → List ℕ → ℕ → Outcome Request
with_index command str character =
    let (negative, magnitude) = signed_atoi str in
    if negative && ltb 0 magnitude
    then exited
    else done (record { command = command; index = magnitude; character = character })

unfoldable pub insert_request : List (List ℕ) → Outcome Request
insert_request (index ∷ character ∷ []) = with_index 105 index (first_char character)
insert_request _ = exited

unfoldable pub delete_request : List (List ℕ) → Outcome Request
delete_request (index ∷ []) = with_index 100 index 1
delete_request _ = exited

unfoldable pub plain_request : ℕ → List (List ℕ) → Outcome Request
plain_request command [] = done (record { command = command; index = 0; character = 0 })
plain_request command _ = exited

-- `main` up to the sending, on `argv[ 1 ]` and what follows.
unfoldable pub request_of : List (List ℕ) → Outcome Request
request_of [] = exited
request_of (command ∷ args) =
    if same command insert_word
    then insert_request args
    else if same command delete_word
    then delete_request args
    else if same command undo_word
    then plain_request 117 args
    else if same command report_word
    then plain_request 114 args
    else exited

-- A run of the client with the round of the server in between: what it prints.
unfoldable pub client : List (List ℕ) → EditState → Outcome (List ℕ × EditState)
client args state = do
  request ← request_of args
  r ← round request state
  text ← c_string r.0
  done (text, r.1)

c_string-message : (text : List ℕ) → NonZero text → c_string (message text) ≡ done (take 75 text)
unfolding message
c_string-message text nz =
    rw (strncpy-snoc 75 text nz)
      (c_string-padded (take 75 text) (75 - length (take 75 text)) (NonZero-take 75 text nz))

-- A text that a response has room for.
abbrev Fits : List ℕ → Type 0
Fits text = NonZero text × (length text ≤ 75)

if-Fits :
    {B : Type 0} (b : Bool) (x y : List ℕ × B)
    → (b ≡ true → Fits x.0)
    → Fits y.0
    → Fits (if b then x else y).0
if-Fits true x y h k = h refl
if-Fits false x y h k = k

NonZero-append : (xs ys : List ℕ) → NonZero xs → NonZero ys → NonZero (xs ++ ys)
NonZero-append [] ys h k = k
NonZero-append (x ∷ xs) ys h k = (h.0, NonZero-append xs ys h.1 k)

NonZero-decimal : (fuel n : ℕ) → NonZero (decimal fuel n)
unfolding decimal
NonZero-decimal zero n = tt
NonZero-decimal (suc fuel) n = elim (Bool-cases (ltb n 10)) [
  | inl small ↦ rw small (omega arith, tt)
  | inr large ↦ rw large (
      NonZero-append (decimal fuel (n / 10)) ((48 + n % 10) ∷ []) (NonZero-decimal fuel (n / 10))
        (omega arith, tt))
]

report_text-Fits :
    (text : List ℕ) (n : ℕ) → NonZero text → length text ≤ 71 → n ≤ 3 → Fits (report_text text n)
unfolding report_text
report_text-Fits text n nz le few = (
  NonZero-append text _ nz (
    omega arith,
    (omega arith, NonZero-append (decimal 10 n) (93 ∷ []) (NonZero-decimal 10 n) (omega arith, tt)),
  ),
  omega (arith, length-report_text text n few),
)

ok_text-Fits : Fits ok_text
ok_text-Fits = ((omega arith, (omega arith, tt)), omega arith)

error_text-Fits : Fits error_text
error_text-Fits =
    ((omega arith, (omega arith, (omega arith, (omega arith, (omega arith, tt))))), omega arith)

undone-Fits : (text : List ℕ) (past : List (List ℕ)) → Fits (undone text past).0
undone-Fits text [] = error_text-Fits
undone-Fits text (before ∷ past) = ok_text-Fits

expected-Fits :
    (request : Request) (text : List ℕ) (past : List (List ℕ))
    → NonZero text
    → length past ≤ 3
    → IsAllowed request text
    → Fits (expected request text past).0
unfolding expected
expected-Fits request text past nz few allowed =
    if-Fits (request.command == 105) _ _
      (λ i. if-Fits (ltb (length text) request.index) _ _ (λ b. error_text-Fits) ok_text-Fits)
      (if-Fits (request.command == 100) _ _
        (λ d. if-Fits (ltb (length text) request.index) _ _ (λ b. error_text-Fits) ok_text-Fits)
        (if-Fits (request.command == 117) _ _ (λ u. undone-Fits text past)
          (if-Fits (request.command == 114) _ _
            (λ q.
              report_text-Fits text (length past) nz
                (allowed.report ((==_iff request.command 114).0 q)) few)
            ok_text-Fits)))

-- A command of the user, with its index and the character's argument.
pub data Command : Type 0 where
  inserting : ℕ → ℕ → List ℕ → Command
  deleting : ℕ → Command
  undoing : Command
  reporting : Command

-- What the user types, the index in decimal digits.
abbrev pub line_of : Command → List (List ℕ)
line_of (inserting index c word) = insert_word ∷ decimal 10 index ∷ (c ∷ word) ∷ []
line_of (deleting index) = delete_word ∷ decimal 10 index ∷ []
line_of undoing = undo_word ∷ []
line_of reporting = report_word ∷ []

-- What the server is asked for.
abbrev pub asked : Command → Request
asked (inserting index c word) = record { command = 105; index = index; character = c }
asked (deleting index) = record { command = 100; index = index; character = 1 }
asked undoing = record { command = 117; index = 0; character = 0 }
asked reporting = record { command = 114; index = 0; character = 0 }

with_index-decimal :
    (command n character : ℕ)
    → n < 2147483648
    → with_index command (decimal 10 n) character
      ≡ done (record { command = command; index = n; character = character })
unfolding with_index
with_index-decimal command n character lt = rw (signed_atoi-decimal n (omega arith)) refl

request_of-line :
    (command : Command)
    → (asked command).index < 2147483648
    → request_of (line_of command) ≡ done (asked command)
unfolding request_of insert_request delete_request plain_request first_char same
request_of-line (inserting index c word) lt = with_index-decimal 105 index c lt
request_of-line (deleting index) lt = with_index-decimal 100 index 1 lt
request_of-line undoing lt = refl
request_of-line reporting lt = refl

-- A command line `insert` with an index in decimal digits and an argument of at least one character,
-- `delete` with an index, `undo` or `report`, whose index is an `int` and for which the server has
-- room, is answered as the plain description says for that command, index and first character: the
-- client prints that answer, and the server's memory represents the text and history after it.
pub client-expected :
    (command : Command) {state : EditState} {text : List ℕ} {past : List (List ℕ)}
    → (asked command).index < 2147483648
    → Represents state text past
    → IsAllowed (asked command) text
    → let e = expected (asked command) text past in
      (next : EditState) × (client (line_of command) state ≡ done (e.0, next))
      × Represents next e.1.0 e.1.1
unfolding client
client-expected command {state} {text} {past} int r allowed =
    let (next, answer, after) = round-Represents (asked command) r allowed in
    let e = expected (asked command) text past in
    let fits = expected-Fits (asked command) text past r.string.nonzero (few_past r) allowed in
    (
      next,
      rw (request_of-line command int, answer, c_string-message e.0 fits.0, take-all 75 e.0 fits.1)
          refl,
      after,
    )
