-- ===== src/Editor/Server/Tests.antt =====
-- Examples for the theorems about assignments/hw2.
use os_coursework.Prelude.{
  ℕ, zero, suc, ◌-◌, ◌≤◌, ◌<◌, ◌≡◌, ◌≢◌, refl, ap, true, List, [], ◌∷◌, length, replicate, arith,
  strncpy, map, decimal,
}
use os_coursework.Editor.{done, undefined, ◌>>=◌, EditState, c_string}
use os_coursework.Editor.Text.{padded, NonZero}
use os_coursework.Editor.Holds.{Holds-empty}
use os_coursework.Editor.Server.{Request, round, serve, start, message, ok_text, report_text}
use os_coursework.Editor.Server.Copies.{Stores, Stores-Holds}
use os_coursework.Editor.Server.Session.{Represents}
use os_coursework.Editor.Server.Round.{expected, IsAllowed}
use os_coursework.Editor.Server.Serve.{expected_run, executed, AllowedRun, serve-expected}
use os_coursework.Editor.Server.Limits.{insertion, reporting, round_full}
use os_coursework.Editor.Server.Client.{inserting, line_of, client, client-expected}

abbrev deletion : ℕ → Request
deletion index = record { command = 100; index = index; character = 1 }

abbrev undoing : Request
undoing = record { command = 117; index = 0; character = 0 }

abbrev blank : List ℕ
blank = strncpy 76 []

blank-Stores : Stores [] blank
blank-Stores = Stores-Holds Holds-empty

insertion-IsAllowed :
    (i c : ℕ) (text : List ℕ) → c ≢ 0 → length text < 75 → IsAllowed (insertion i c) text
insertion-IsAllowed i c text nz lt = record {
  insertion = λ e le. (nz, lt);
  report = λ e. absurd (omega (arith, e));
}

other-IsAllowed :
    (request : Request) (text : List ℕ)
    → request.command ≢ 105
    → length text ≤ 71
    → IsAllowed request text
other-IsAllowed request text not_i le = record {
  insertion = λ e in_text. absurd (not_i e);
  report = λ e. le;
}

-- `abc`, insert 1 x, delete 0, undo, report; the server is stopped while it waits.
abbrev some_requests : List Request
some_requests = insertion 1 120 ∷ deletion 0 ∷ undoing ∷ reporting ∷ []

some_requests-AllowedRun : AllowedRun (executed true some_requests reporting) (97 ∷ 98 ∷ 99 ∷ []) []
unfolding AllowedRun executed expected
some_requests-AllowedRun = (
  insertion-IsAllowed 1 120 _ (omega arith) (omega arith),
  (
    other-IsAllowed (deletion 0) _ (omega arith) (omega arith),
    (
      other-IsAllowed undoing _ (omega arith) (omega arith),
      (
        other-IsAllowed reporting _ (omega arith) (omega arith),
        (other-IsAllowed reporting _ (omega arith) (omega arith), tt),
      ),
    ),
  ),
)

abbrev abc-NonZero : NonZero (97 ∷ 98 ∷ 99 ∷ [])
abc-NonZero = (omega arith, (omega arith, (omega arith, tt)))

serve-expected_example :
    (next : EditState) × ((start (97 ∷ 98 ∷ 99 ∷ []) blank blank blank
        >>= serve true some_requests reporting)
      ≡ done (
        map message (expected_run (executed true some_requests reporting) (97 ∷ 98 ∷ 99 ∷ []) []).0,
        next,
      ))
    × (c_string next.string
        ≡ done (expected_run (executed true some_requests reporting) (97 ∷ 98 ∷ 99 ∷ []) []).1.0)
serve-expected_example =
    serve-expected true some_requests reporting (97 ∷ 98 ∷ 99 ∷ []) blank blank blank abc-NonZero
      refl blank-Stores blank-Stores blank-Stores some_requests-AllowedRun

-- The last request is answered twice.
some_responses :
    (expected_run (executed true some_requests reporting) (97 ∷ 98 ∷ 99 ∷ []) []).0
    ≡ ok_text
      ∷ ok_text
      ∷ ok_text
      ∷ (97 ∷ 120 ∷ 98 ∷ 99 ∷ 32 ∷ 91 ∷ 49 ∷ 93 ∷ [])
      ∷ (97 ∷ 120 ∷ 98 ∷ 99 ∷ 32 ∷ 91 ∷ 49 ∷ 93 ∷ [])
      ∷ []
unfolding expected_run executed expected report_text decimal
some_responses = refl

state_of : List ℕ → EditState
state_of text = record {
  string = padded text (75 - length text);
  prev1 = blank;
  prev2 = blank;
  prev3 = blank;
  len = length text;
  num_undos = 0;
}

state_of-Represents :
    (text : List ℕ) → NonZero text → length text < 76 → Represents (state_of text) text []
unfolding state_of
state_of-Represents text nz lt = record {
  older1 = [];
  older2 = [];
  older3 = [];
  string = record { nonzero = nz; short = lt; bytes = refl };
  prev1 = blank-Stores;
  prev2 = blank-Stores;
  prev3 = blank-Stores;
  past_is = refl;
  close = tt;
}

many : ℕ → List ℕ
many n = replicate n 97

many-NonZero : (n : ℕ) → NonZero (many n)
unfolding many
many-NonZero zero = tt
many-NonZero (suc n) = (omega arith, many-NonZero n)

length-many : (n : ℕ) → length (many n) ≡ n
unfolding many
length-many zero = refl
length-many (suc n) = ap suc (length-many n)

round_full_example :
    (next : EditState) × (round (insertion 5 120) (state_of (many 75))
      ≡ done (message ok_text, next))
    × ((request : Request) → round request next ≡ undefined)
round_full_example =
    round_full 5 120
      (state_of-Represents (many 75) (many-NonZero 75) (omega (arith, length-many 75)))
      (omega arith) (omega (arith, length-many 75)) (length-many 75)

-- `client insert 3 d`
client-expected_example :
    (next : EditState) × (client (line_of (inserting 3 100 [])) (state_of (97 ∷ 98 ∷ 99 ∷ []))
      ≡ done ((expected (insertion 3 100) (97 ∷ 98 ∷ 99 ∷ []) []).0, next))
    × Represents next
        (expected (insertion 3 100) (97 ∷ 98 ∷ 99 ∷ []) []).1.0
        (expected (insertion 3 100) (97 ∷ 98 ∷ 99 ∷ []) []).1.1
client-expected_example =
    client-expected (inserting 3 100 []) (omega arith)
      (state_of-Represents (97 ∷ 98 ∷ 99 ∷ []) abc-NonZero (omega arith))
      (insertion-IsAllowed 3 100 (97 ∷ 98 ∷ 99 ∷ []) (omega arith) (omega arith))
