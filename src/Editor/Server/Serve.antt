-- ===== src/Editor/Server/Serve.antt =====
-- assignments/hw2/server.c: whole runs of the server against the plain description of Session.antt.
use os_coursework.Prelude.{
  ℕ, zero, suc, ◌-◌, ◌≤◌, ◌≡◌, refl, ap, Bool, true, false, List, [], ◌∷◌, ◌++◌, map, length, take,
  elem, arith, ◌==◌, strncpy,
}
use os_coursework.Editor.{done, ◌>>=◌, EditState, c_string}
use os_coursework.Editor.Text.{padded, NonZero, strncpy-zeros}
use os_coursework.Editor.Holds.{c_string-Holds}
use os_coursework.Editor.Server.{Request, message, serve, start}
use os_coursework.Editor.Server.Copies.{Stores}
use os_coursework.Editor.Server.Edits.{snoc-zeros}
use os_coursework.Editor.Server.Session.{Represents}
use os_coursework.Editor.Server.Round.{expected, IsAllowed, round-Represents}

-- The requests that the server executes. When it is stopped while it waits for one, it executes the
-- last one again.
unfoldable pub executed : Bool → List Request → Request → List Request
executed false [] last = []
executed true [] last = last ∷ []
executed waiting (request ∷ requests) last = request ∷ executed waiting requests request

-- The responses to some requests, and the text and the history after them.
unfoldable pub expected_run :
    List Request → List ℕ → List (List ℕ) → List (List ℕ) × (List ℕ × List (List ℕ))
expected_run [] text past = ([], (text, past))
expected_run (request ∷ requests) text past =
    let first = expected request text past in
    let rest = expected_run requests first.1.0 first.1.1 in (first.0 ∷ rest.0, rest.1)

unfoldable pub AllowedRun : List Request → List ℕ → List (List ℕ) → Type 0
AllowedRun [] text past = Unit
AllowedRun (request ∷ requests) text past =
    let first = expected request text past in
    IsAllowed request text × AllowedRun requests first.1.0 first.1.1

serve-Represents :
    (waiting : Bool) (requests : List Request) (last : Request) {state : EditState} {text : List ℕ}
    {past : List (List ℕ)}
    → Represents state text past
    → AllowedRun (executed waiting requests last) text past
    → let e = expected_run (executed waiting requests last) text past in
      (next : EditState) × (serve waiting requests last state ≡ done (map message e.0, next))
      × Represents next e.1.0 e.1.1
unfolding serve executed expected_run AllowedRun
serve-Represents false [] last {state} r allowed = (state, refl, r)
serve-Represents true [] last r allowed =
    let (next, e, after) = round-Represents last r allowed.0 in (next, rw e refl, after)
serve-Represents waiting (request ∷ requests) last r allowed =
    let (middle, e, after) = round-Represents request r allowed.0 in
    let (next, e', after') = serve-Represents waiting requests request after allowed.1 in
    (next, rw (e, e') refl, after')

-- `strncpy` and the NUL behind it keep the first `n` characters.
pub strncpy-snoc :
    (n : ℕ) (text : List ℕ)
    → NonZero text
    → strncpy n text ++ 0 ∷ [] ≡ padded (take n text) (n - length (take n text))
unfolding strncpy
strncpy-snoc zero text nz = refl
strncpy-snoc (suc n) [] nz =
    let all : suc n - 0 ≡ suc n = omega arith in
    rw (strncpy-zeros n, all) (ap (λ r. 0 ∷ r) (snoc-zeros n))
strncpy-snoc (suc n) (c ∷ text) nz =
    let same : suc n - suc (length (take n text)) ≡ n - length (take n text) = omega arith in
    let some : (c == 0) ≡ false = ground (arith, nz.0) in
    rw (some, same) (ap (λ r. c ∷ r) (strncpy-snoc n text nz.1))

pub NonZero-take : (n : ℕ) (text : List ℕ) → NonZero text → NonZero (take n text)
NonZero-take zero text nz = tt
NonZero-take (suc n) [] nz = tt
NonZero-take (suc n) (c ∷ text) nz = (nz.0, NonZero-take n text nz.1)

length-take_le : (n : ℕ) (text : List ℕ) → length (take n text) ≤ n
length-take_le zero text = omega arith
length-take_le (suc n) [] = omega arith
length-take_le (suc n) (c ∷ text) = omega (arith, length-take_le n text)

start-Represents :
    (initial prev1 prev2 prev3 : List ℕ) {text1 text2 text3 : List ℕ}
    → NonZero initial
    → elem 10 (take 75 initial) ≡ false
    → Stores text1 prev1
    → Stores text2 prev2
    → Stores text3 prev3
    → (state : EditState) × (start initial prev1 prev2 prev3 ≡ done state)
      × Represents state (take 75 initial) []
unfolding start message
start-Represents initial prev1 prev2 prev3 {text1} {text2} {text3} nz line s1 s2 s3 = (
  record {
    string = message initial;
    prev1 = prev1;
    prev2 = prev2;
    prev3 = prev3;
    len = length initial;
    num_undos = 0;
  },
  rw line refl,
  record {
    older1 = text1;
    older2 = text2;
    older3 = text3;
    string = record {
      nonzero = NonZero-take 75 initial nz;
      short = omega (arith, length-take_le 75 initial);
      bytes = strncpy-snoc 75 initial nz;
    };
    prev1 = s1;
    prev2 = s2;
    prev3 = s3;
    past_is = refl;
    close = tt;
  },
)

-- The server that starts with a line of text answers every run of requests that its buffers have room
-- for by the plain description: insertion and deletion in a list, a history of at most three texts.
-- The line is cut after 75 characters, and the history must hold terminated strings when it starts. A
-- server that is stopped while it waits for a request executes the last one again.
pub serve-expected :
    (waiting : Bool) (requests : List Request) (last : Request) (initial prev1 prev2 prev3 : List ℕ)
    {text1 text2 text3 : List ℕ}
    → NonZero initial
    → elem 10 (take 75 initial) ≡ false
    → Stores text1 prev1
    → Stores text2 prev2
    → Stores text3 prev3
    → AllowedRun (executed waiting requests last) (take 75 initial) []
    → let e = expected_run (executed waiting requests last) (take 75 initial) [] in
      (next : EditState) × ((start initial prev1 prev2 prev3 >>= serve waiting requests last)
        ≡ done (map message e.0, next))
      × (c_string next.string ≡ done e.1.0)
serve-expected waiting requests last initial prev1 prev2 prev3 nz line s1 s2 s3 allowed =
    let (state, begin, r) = start-Represents initial prev1 prev2 prev3 nz line s1 s2 s3 in
    let (next, run, after) = serve-Represents waiting requests last r allowed in
    (next, rw (begin, run) refl, c_string-Holds after.string)
