-- ===== src/Editor/Server/Session.antt =====
-- assignments/hw2/server.c against a plain description: a text, and at most three texts before it.
use os_coursework.Prelude.{
  ℕ, zero, suc, ◌+◌, ◌-◌, ◌≤◌, ◌<◌, ◌≡◌, ◌≢◌, refl, sym, ap, true, false, List, [], ◌∷◌, length,
  take, arith, if◌then◌else◌, ltb, ◌==◌, subst,
}
use os_coursework.Editor.{done, >>=-step, EditState, store}
use os_coursework.Editor.Text.{insert_at, delete_at}
use os_coursework.Editor.Holds.{Holds, c_string-Holds, length-insert_at}
use os_coursework.Editor.Server.{
  ok, error, strlen, push_history, shift_up, insert, delete, undo, ready,
}
use os_coursework.Editor.Server.Copies.{Stores, Stores-Holds, strcpy-Stores, strcpy-Holds}
use os_coursework.Editor.Server.Edits.{insert-Holds, delete-Holds, length-delete_at_le}

-- Each text is at most one longer than the one before it.
abbrev pub Close : List ℕ → List (List ℕ) → Type 0
Close text [] = Unit
Close text (before ∷ past) = (length text ≤ suc (length before)) × Close before past

Close-take :
    (n : ℕ) (text : List ℕ) (past : List (List ℕ)) → Close text past → Close text (take n past)
Close-take zero text past c = tt
Close-take (suc n) text [] c = tt
Close-take (suc n) text (before ∷ past) c = (c.0, Close-take n before past c.1)

abbrev pub capped : ℕ → ℕ
capped n = if ltb 3 n then 3 else n

-- The state between two rounds: the text, and the texts that `undo` may still bring back.
pub record Represents (state : EditState) (text : List ℕ) (past : List (List ℕ)) : Type 0 where
  pub older1 : List ℕ
  pub older2 : List ℕ
  pub older3 : List ℕ
  pub string : Holds text state.string
  pub prev1 : Stores older1 state.prev1
  pub prev2 : Stores older2 state.prev2
  pub prev3 : Stores older3 state.prev3
  pub past_is : past ≡ take (capped state.num_undos) (older1 ∷ older2 ∷ older3 ∷ [])
  pub close : Close text past

-- The state in which a request is executed.
pub record IsReady (state : EditState) (text : List ℕ) (past : List (List ℕ)) : Type 0 where
  pub represents : Represents state text past
  pub len : state.len ≡ length text
  pub few : state.num_undos ≤ 3

pub length-capped : (n : ℕ) (a b c : List ℕ) → n ≤ 3 → length (take n (a ∷ b ∷ c ∷ [])) ≡ n
length-capped zero a b c le = refl
length-capped (suc zero) a b c le = refl
length-capped (suc (suc zero)) a b c le = refl
length-capped (suc (suc (suc zero))) a b c le = refl
length-capped (suc (suc (suc (suc n)))) a b c le = absurd (omega arith)

capped_few : (n : ℕ) → n ≤ 3 → capped n ≡ n
capped_few n le = ground arith

capped_le : (n : ℕ) → capped n ≤ 3
capped_le n = ground arith

pub few_past :
    {state : EditState} {text : List ℕ} {past : List (List ℕ)}
    → Represents state text past
    → length past ≤ 3
few_past {state} r = omega (
  arith,
  ap length r.past_is,
  length-capped (capped state.num_undos) r.older1 r.older2 r.older3 (capped_le state.num_undos),
  capped_le state.num_undos,
)

pub ready-IsReady :
    {state : EditState} {text : List ℕ} {past : List (List ℕ)}
    → Represents state text past
    → (start : EditState) × (ready state ≡ done start) × IsReady start text past
unfolding ready strlen
ready-IsReady {state} {text} {past} r = (
  record state { len = length text; num_undos = capped state.num_undos },
  rw (c_string-Holds r.string) refl,
  record {
    represents = record {
      older1 = r.older1;
      older2 = r.older2;
      older3 = r.older3;
      string = r.string;
      prev1 = r.prev1;
      prev2 = r.prev2;
      prev3 = r.prev3;
      past_is = rw (capped_few (capped state.num_undos) (capped_le state.num_undos)) (r.past_is);
      close = r.close;
    };
    len = refl;
    few = capped_le state.num_undos;
  },
)

push_past :
    (n : ℕ) (text a b c : List ℕ)
    → n ≤ 3
    → take 3 (text ∷ take n (a ∷ b ∷ c ∷ [])) ≡ take (capped (n + 1)) (text ∷ a ∷ b ∷ [])
push_past zero text a b c le = refl
push_past (suc zero) text a b c le = refl
push_past (suc (suc zero)) text a b c le = refl
push_past (suc (suc (suc zero))) text a b c le = refl
push_past (suc (suc (suc (suc n)))) text a b c le = absurd (omega arith)

-- The history after an edit, with a string still to be changed.
pub pushed :
    {state : EditState} {text : List ℕ} {past : List (List ℕ)}
    → IsReady state text past
    → (saved : EditState) × (push_history state ≡ done saved)
      × (saved.string ≡ state.string)
      × ((string new : List ℕ)
          → Holds new string
          → length new ≤ suc (length text)
          → Represents
              (record saved { string = string; num_undos = state.num_undos + 1 })
              new
              (take 3 (text ∷ past)))
unfolding push_history
pushed {state} {text} {past} s =
    let r = s.represents in
    let (p3, e3, h3) = strcpy-Stores r.prev3 r.prev2 in
    let (p2, e2, h2) = strcpy-Stores r.prev2 r.prev1 in
    let (p1, e1, h1) = strcpy-Stores r.prev1 (Stores-Holds r.string) in
    (
      record state { prev1 = p1; prev2 = p2; prev3 = p3 },
      rw (e3, e2, e1) refl,
      refl,
      λ string new holds le. record {
        older1 = text;
        older2 = r.older1;
        older3 = r.older2;
        string = holds;
        prev1 = h1;
        prev2 = h2;
        prev3 = h3;
        past_is =
            rw (r.past_is, capped_few state.num_undos s.few)
              (push_past state.num_undos text r.older1 r.older2 r.older3 s.few);
        close = (le, Close-take 2 text past r.close);
      },
    )

pub insert-Represents :
    {state : EditState} {text : List ℕ} {past : List (List ℕ)} (i c : ℕ)
    → IsReady state text past
    → c ≢ 0
    → i ≤ length text
    → length text < 75
    → (next : EditState) × (insert i c state ≡ done (ok, next))
      × Represents next (insert_at i c text) (take 3 (text ∷ past))
unfolding insert
insert-Represents {state} {text} i c s nz le lt =
    let (saved, save, same, after) = pushed s in
    let (b, bytes, holds) = insert-Holds i c s.represents.string nz le lt in
    let inside : ltb state.len i ≡ false = ground (arith, s.len) in
    let edit = rw (sym s.len, sym same) at bytes in
    (
      record saved { string = b; num_undos = state.num_undos + 1 },
      rw (inside, save)
          (>>=-step (shift_up i (state.len - i) saved.string) (λ moved. store i c moved)
            (λ string. done (ok, record saved { string = string; num_undos = state.num_undos + 1 }))
            b edit),
      after b (insert_at i c text) holds (omega (arith, length-insert_at i c text)),
    )

pub delete-Represents :
    {state : EditState} {text : List ℕ} {past : List (List ℕ)} (i : ℕ)
    → IsReady state text past
    → i ≤ length text
    → (next : EditState) × (delete i state ≡ done (ok, next))
      × Represents next (delete_at i text) (take 3 (text ∷ past))
unfolding delete
delete-Represents {state} {text} i s le =
    let (saved, save, same, after) = pushed s in
    let (b, bytes, holds) = delete-Holds i s.represents.string le in
    let inside : ltb state.len i ≡ false = ground (arith, s.len) in
    (
      record saved { string = b; num_undos = state.num_undos + 1 },
      rw (inside, save, rw (sym same) at bytes) refl,
      after b (delete_at i text) holds (omega (arith, (length-delete_at_le i text).0)),
    )

pub refused :
    {state : EditState} {text : List ℕ} {past : List (List ℕ)} (i c : ℕ)
    → IsReady state text past
    → length text < i
    → (insert i c state ≡ done (error, state)) × (delete i state ≡ done (error, state))
unfolding insert delete
refused {state} {text} i c s lt =
    let beyond : ltb (length text) i ≡ true = ground arith in
    (rw (s.len, beyond) refl, rw (s.len, beyond) refl)

-- The first text of a history, and what is then left of it.
take_back :
    (n : ℕ) (a b c h : List ℕ) (hs : List (List ℕ))
    → n ≤ 3
    → h ∷ hs ≡ take n (a ∷ b ∷ c ∷ [])
    → ((n == 0) ≡ false) × (h ≡ a) × (hs ≡ take (capped (n - 1)) (b ∷ c ∷ c ∷ []))
take_back zero a b c h hs le e = absurd (cc (e))
take_back (suc zero) a b c h hs le e = (refl, cc (e), cc (e))
take_back (suc (suc zero)) a b c h hs le e = (refl, cc (e), cc (e))
take_back (suc (suc (suc zero))) a b c h hs le e = (refl, cc (e), cc (e))
take_back (suc (suc (suc (suc n)))) a b c h hs le e = absurd (omega arith)

take_none : (n : ℕ) (a b c : List ℕ) → n ≤ 3 → [] ≡ take n (a ∷ b ∷ c ∷ []) → (n == 0) ≡ true
take_none zero a b c le e = refl
take_none (suc n) a b c le e = absurd (cc (e))

-- The history that the state holds.
pub recent :
    {state : EditState} {text : List ℕ} {past : List (List ℕ)} (s : IsReady state text past)
    → past
      ≡ take state.num_undos (s.represents.older1 ∷ s.represents.older2 ∷ s.represents.older3 ∷ [])
recent {state} s = rw (capped_few state.num_undos s.few) at s.represents.past_is

pub undo-Represents :
    {state : EditState} {text before : List ℕ} {past : List (List ℕ)}
    → IsReady state text (before ∷ past)
    → (next : EditState) × (undo state ≡ done (ok, next)) × Represents next before past
unfolding undo
undo-Represents {state} {text} {before} {past} s =
    let r = s.represents in
    let (some_left, first, rest) =
      take_back state.num_undos r.older1 r.older2 r.older3 before past s.few (recent s) in
    let (b, e, h) =
      strcpy-Holds r.string r.prev1 (subst (λ t. length text ≤ suc (length t)) first r.close.0) in
    let (p1, e1, h1) = strcpy-Stores r.prev1 r.prev2 in
    let (p2, e2, h2) = strcpy-Stores r.prev2 r.prev3 in
    (
      record state { string = b; prev1 = p1; prev2 = p2; num_undos = state.num_undos - 1 },
      rw (some_left, e, e1, e2) refl,
      record {
        older1 = r.older2;
        older2 = r.older3;
        older3 = r.older3;
        string = subst (λ t. Holds t b) (sym first) h;
        prev1 = h1;
        prev2 = h2;
        prev3 = r.prev3;
        past_is = rest;
        close = r.close.1;
      },
    )

pub undo_refused :
    {state : EditState} {text : List ℕ} → IsReady state text [] → undo state ≡ done (error, state)
unfolding undo
undo_refused {state} s =
    let none_left = take_none state.num_undos _ _ _ s.few (recent s) in rw none_left refl
