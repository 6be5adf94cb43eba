-- ===== src/Editor/Records/Chain.antt =====
-- assignments/hw3/edit2.c: the chain of texts that the undo records lead back through.
use os_coursework.Prelude.{
  ℕ, zero, suc, ◌+◌, ◌-◌, ◌%◌, ◌≤◌, ◌<◌, ◌≡◌, ◌≢◌, refl, sym, ap, subst, ◌∙◌, false, List, [], ◌∷◌,
  if◌then◌else◌, ltb, length, set, get_or, arith,
}
use os_coursework.Editor.{done}
use os_coursework.Editor.Text.{insert_at, delete_at, NonZero}
use os_coursework.Editor.Holds.{
  Holds, Holds-insert_at, Holds-delete_at, c_string-Holds, length-insert_at, length-delete_at,
}
use os_coursework.Editor.Server.{strlen}
use os_coursework.Editor.Records.{
  inserted, deleted, UndoRecord, EditState, no_record, remember, revert,
}

-- A record takes a text back to the one before the edit.
pub data Undoes : UndoRecord → List ℕ → List ℕ → Type 0 where
  an_insertion :
      (i c : ℕ) (text : List ℕ)
      → i ≤ length text
      → length text < 75
      → Undoes (record { type = inserted; index = i; character = c }) (insert_at i c text) text
  a_deletion :
      (i : ℕ) (text : List ℕ)
      → i < length text
      → length text < 76
      → NonZero text
      → Undoes
          (record { type = deleted; index = i; character = get_or text i 0 })
          (delete_at i text)
          text

-- The first `n` records lead from a text back through the texts before it.
pub data Chain (history : List UndoRecord) : ℕ → List ℕ → List (List ℕ) → Type 0 where
  start : {text : List ℕ} → Chain history zero text []
  back :
      {n : ℕ} {text before : List ℕ} {past : List (List ℕ)}
      → Undoes (get_or history n no_record) text before
      → Chain history n before past
      → Chain history (suc n) text (before ∷ past)

pub record Represents (state : EditState) (text : List ℕ) (past : List (List ℕ)) : Type 0 where
  pub string : Holds text state.string
  pub room : length state.history ≡ 3
  pub few : state.undo_count ≤ 3
  pub chain : Chain state.history state.undo_count text past

pub delete-insert_at :
    (i c : ℕ) (text : List ℕ) → i ≤ length text → delete_at i (insert_at i c text) ≡ text
delete-insert_at zero c text le = refl
delete-insert_at (suc i) c [] le = absurd (omega arith)
delete-insert_at (suc i) c (d ∷ text) le = ap (λ r. d ∷ r) (delete-insert_at i c text (omega arith))

insert-delete_at :
    (i : ℕ) (text : List ℕ)
    → i < length text
    → insert_at i (get_or text i 0) (delete_at i text) ≡ text
insert-delete_at i [] lt = absurd (omega arith)
insert-delete_at zero (d ∷ text) lt = refl
insert-delete_at (suc i) (d ∷ text) lt = ap (λ r. d ∷ r) (insert-delete_at i text (omega arith))

get_or-NonZero : (i : ℕ) (text : List ℕ) → i < length text → NonZero text → get_or text i 0 ≢ 0
get_or-NonZero i [] lt nz = absurd (omega arith)
get_or-NonZero zero (d ∷ text) lt nz = nz.0
get_or-NonZero (suc i) (d ∷ text) lt nz = get_or-NonZero i text (omega arith) nz.1

-- What `undo` makes of a record and its text.
pub revert-Holds :
    {r : UndoRecord} {text before buffer : List ℕ}
    → Undoes r text before
    → Holds text buffer
    → (b : List ℕ) × (revert r.type r.index r.character buffer ≡ done b) × Holds before b
unfolding revert strlen
revert-Holds (an_insertion i c text le lt) h =
    let size = length-insert_at i c text in
    let (b, moved, holds) = Holds-delete_at i h (omega (arith, size)) in
    let within : ltb (length (insert_at i c text)) i ≡ false = ground (arith, size) in
    (
      b,
      rw (c_string-Holds h, within) moved,
      subst (λ t. Holds t b) (delete-insert_at i c text le) holds,
    )
revert-Holds (a_deletion i text lt short nz) h =
    let size = length-delete_at i text lt in
    let (b, moved, holds) =
      Holds-insert_at i (get_or text i 0) h (get_or-NonZero i text lt nz) (omega (arith, size))
        (omega (arith, size)) in
    let within : ltb (length (delete_at i text) + 1) i ≡ false = ground (arith, size) in
    let count : length (delete_at i text) + 1 - i ≡ length (delete_at i text) - i + 1 =
      omega (arith, size) in
    (
      b,
      rw (c_string-Holds h, within, count) moved,
      subst (λ t. Holds t b) (insert-delete_at i text lt) holds,
    )

pub get_or-set_other :
    (history : List UndoRecord) (k m : ℕ) (r : UndoRecord)
    → k < m
    → get_or (set history m r) k no_record ≡ get_or history k no_record
get_or-set_other [] k m r lt = refl
get_or-set_other (x ∷ history) k zero r lt = absurd (omega arith)
get_or-set_other (x ∷ history) zero (suc m) r lt = refl
get_or-set_other (x ∷ history) (suc k) (suc m) r lt = get_or-set_other history k m r (omega arith)

get_or-set_same :
    (history : List UndoRecord) (m : ℕ) (r : UndoRecord)
    → m < length history
    → get_or (set history m r) m no_record ≡ r
get_or-set_same [] m r lt = absurd (omega arith)
get_or-set_same (x ∷ history) zero r lt = refl
get_or-set_same (x ∷ history) (suc m) r lt = get_or-set_same history m r (omega arith)

length-set_history :
    (history : List UndoRecord) (m : ℕ) (r : UndoRecord) → length (set history m r) ≡ length history
length-set_history [] m r = refl
length-set_history (x ∷ history) zero r = refl
length-set_history (x ∷ history) (suc m) r = ap suc (length-set_history history m r)

pub Chain-set :
    (history : List UndoRecord) (m : ℕ) (r : UndoRecord) (n : ℕ) {text : List ℕ}
    {past : List (List ℕ)}
    → n ≤ m
    → Chain history n text past
    → Chain (set history m r) n text past
Chain-set history m r zero le start = start
Chain-set history m r (suc n) {text} le (back {before = before} undoes chain) =
    back
      (subst (λ x. Undoes x text before) (sym (get_or-set_other history n m r (omega arith)))
        undoes)
      (Chain-set history m r n (omega arith) chain)

-- A new record on a history that is not full.
pub remember-Chain :
    {state : EditState} {text new : List ℕ} {past : List (List ℕ)} (r : UndoRecord)
    → Represents state text past
    → state.undo_count < 3
    → Undoes r new text
    → (b : List ℕ) → Holds new b
    → Represents (record (remember r state) { string = b }) new (text ∷ past)
unfolding remember
remember-Chain {state} {text} {new} {past} r s lt undoes b holds =
    let n = state.undo_count in
    let place : n % 3 ≡ n = omega arith in
    let count : (if ltb n 3 then n + 1 else n) ≡ suc n = ground arith in
    record {
      string = holds;
      room = length-set_history state.history (n % 3) r ∙ s.room;
      few = omega (arith, count);
      chain =
          rw (place, count)
            (back
              (subst (λ x. Undoes x new text)
                (sym (get_or-set_same state.history n r (omega (arith, s.room)))) undoes)
              (Chain-set state.history n r n (omega arith) s.chain));
    }
