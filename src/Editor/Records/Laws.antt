-- ===== src/Editor/Records/Laws.antt =====
-- assignments/hw3/edit2.c: what its undo records bring back.
use os_coursework.Prelude.{
  ℕ, zero, suc, ◌+◌, ◌-◌, ◌%◌, ◌≤◌, ◌<◌, ◌≡◌, ◌≢◌, refl, ap, ◌∙◌, true, false, List, [], ◌∷◌, ◌++◌,
  ltb, leb, ◌==◌, length, set, get_or, arith,
}
use os_coursework.Editor.{Outcome, done, ◌>>=◌, >>=-step, memmove, store, Reply, answer}
use os_coursework.Editor.Text.{insert_at, delete_at}
use os_coursework.Editor.Holds.{
  Holds, Holds-insert_at, Holds-delete_at, c_string-Holds, length-insert_at, length-Holds,
}
use os_coursework.Editor.Server.{load, strlen}
use os_coursework.Editor.Records.{
  inserted, deleted, UndoRecord, EditState, no_record, remember, insert, delete, revert, undo,
}
use os_coursework.Editor.Records.Chain.{
  Undoes, an_insertion, a_deletion, Chain, start, back, Represents, revert-Holds, remember-Chain,
}

abbrev pub insertion_record : ℕ → ℕ → UndoRecord
insertion_record i c = record { type = inserted; index = i; character = c }

-- What an accepted insertion makes of the state.
insert-Holds :
    (state : EditState) {text : List ℕ} (i c : ℕ)
    → Holds text state.string
    → c ≢ 0
    → i ≤ length text
    → length text < 75
    → (b : List ℕ) × (insert (false, i) c state
        ≡ done (answer true, record (remember (insertion_record i c) state) { string = b }))
      × Holds (insert_at i c text) b
unfolding insert strlen
insert-Holds state {text} i c h nz le lt =
    let (b, edit, holds) = Holds-insert_at i c h nz le lt in
    let inside : ltb (length text) i ≡ false = ground arith in
    let room : leb 75 (length text) ≡ false = ground arith in
    (
      b,
      rw (c_string-Holds h, inside, room)
          (>>=-step (memmove (i + 1) i (length text - i + 1) state.string) (store i c)
            (λ string.
              done
                (answer true, record (remember (insertion_record i c) state) { string = string }))
            b edit),
      holds,
    )

insert-Represents :
    {state : EditState} {text : List ℕ} {past : List (List ℕ)} (i c : ℕ)
    → Represents state text past
    → state.undo_count < 3
    → c ≢ 0
    → i ≤ length text
    → length text < 75
    → (next : EditState) × (insert (false, i) c state ≡ done (answer true, next))
      × Represents next (insert_at i c text) (text ∷ past)
insert-Represents {state} {text} i c s few nz le lt =
    let (b, edit, holds) = insert-Holds state i c s.string nz le lt in
    (
      record (remember (insertion_record i c) state) { string = b },
      edit,
      remember-Chain (insertion_record i c) s few (an_insertion i c text le lt) b holds,
    )

load-Holds :
    {text buffer : List ℕ} (i : ℕ)
    → Holds text buffer
    → i < length text
    → load i buffer ≡ done (get_or text i 0)
unfolding load
load-Holds {text} {buffer} i h lt =
    let inside : ltb i (length buffer) ≡ true = ground (arith, length-Holds h, h.short) in
    rw inside (ap done (ap (λ b. get_or b i 0) h.bytes ∙ get_or-front text _ i lt))
  where
    get_or-front : (xs ys : List ℕ) (k : ℕ) → k < length xs → get_or (xs ++ ys) k 0 ≡ get_or xs k 0
    get_or-front [] ys k lt = absurd (omega arith)
    get_or-front (x ∷ xs) ys zero lt = refl
    get_or-front (x ∷ xs) ys (suc k) lt = get_or-front xs ys k (omega arith)

delete-Represents :
    {state : EditState} {text : List ℕ} {past : List (List ℕ)} (i : ℕ)
    → Represents state text past
    → state.undo_count < 3
    → i < length text
    → (next : EditState) × (delete (false, i) state ≡ done (answer true, next))
      × Represents next (delete_at i text) (text ∷ past)
unfolding delete strlen
delete-Represents {state} {text} i s few lt =
    let r : UndoRecord = record { type = deleted; index = i; character = get_or text i 0 } in
    let (b, edit, holds) = Holds-delete_at i s.string lt in
    let inside : leb (length text) i ≡ false = ground arith in
    (
      record (remember r state) { string = b },
      rw (c_string-Holds s.string, inside, load-Holds i s.string lt, edit) refl,
      remember-Chain r s few (a_deletion i text lt s.string.short s.string.nonzero) b holds,
    )

Chain-last :
    {history : List UndoRecord} {n : ℕ} {text before : List ℕ} {past : List (List ℕ)}
    → Chain history n text (before ∷ past)
    → (k : ℕ) × (n ≡ suc k)
      × Undoes (get_or history k no_record) text before
      × Chain history k before past
Chain-last (back {n = k} undoes chain) = (k, refl, undoes, chain)

undo-Represents :
    {state : EditState} {text before : List ℕ} {past : List (List ℕ)}
    → Represents state text (before ∷ past)
    → (next : EditState) × (undo state ≡ done (answer true, next)) × Represents next before past
unfolding undo
undo-Represents {state} {text} {before} {past} s =
    let (k, count, undoes, chain) = Chain-last s.chain in
    let (b, reverted, holds) = revert-Holds undoes s.string in
    let place : (state.undo_count - 1) % 3 ≡ k = omega (arith, count, s.few) in
    let less : state.undo_count - 1 ≡ k = omega (arith, count) in
    let some_left : (state.undo_count == 0) ≡ false = ground (arith, count) in
    (
      record state { string = b; undo_count = state.undo_count - 1 },
      rw (some_left, place, reverted) refl,
      record { string = holds; room = s.room; few = omega (arith, s.few); chain = rw less chain },
    )

-- The edits of a session.
pub data Edit : Type 0 where
  insertion : ℕ → ℕ → Edit
  deletion : ℕ → Edit
  undoing : Edit

unfoldable pub perform : Edit → EditState → Outcome (Reply × EditState)
perform (insertion i c) state = insert (false, i) c state
perform (deletion i) state = delete (false, i) state
perform undoing state = undo state

-- An edit that is accepted while the history is not full, with the text and the texts before it.
pub data Edits : Edit → List ℕ → List (List ℕ) → List ℕ → List (List ℕ) → Type 0 where
  inserts :
      (i c : ℕ) {text : List ℕ} {past : List (List ℕ)}
      → c ≢ 0
      → i ≤ length text
      → length text < 75
      → length past < 3
      → Edits (insertion i c) text past (insert_at i c text) (text ∷ past)
  deletes :
      (i : ℕ) {text : List ℕ} {past : List (List ℕ)}
      → i < length text
      → length past < 3
      → Edits (deletion i) text past (delete_at i text) (text ∷ past)
  undoes_last :
      {text before : List ℕ} {past : List (List ℕ)} → Edits undoing text (before ∷ past) before past

Chain-length :
    {history : List UndoRecord} {n : ℕ} {text : List ℕ} {past : List (List ℕ)}
    → Chain history n text past
    → n ≡ length past
Chain-length start = refl
Chain-length (back undoes chain) = ap suc (Chain-length chain)

-- As long as no more than three edits are left to undo, an accepted edit answers `OK`, an insertion and
-- a deletion edit the text as a list, and `undo` brings back the text before the last edit that was not
-- undone.
pub perform-Represents :
    {state : EditState} {edit : Edit} {text new : List ℕ} {past rest : List (List ℕ)}
    → Represents state text past
    → Edits edit text past new rest
    → (next : EditState) × (perform edit state ≡ done (answer true, next))
      × Represents next new rest
unfolding perform
perform-Represents s (inserts i c nz le lt few) =
    insert-Represents i c s (omega (arith, few, Chain-length s.chain)) nz le lt
perform-Represents s (deletes i lt few) =
    delete-Represents i s (omega (arith, few, Chain-length s.chain)) lt
perform-Represents s undoes_last = undo-Represents s

get_or-set_after :
    (history : List UndoRecord) (k m : ℕ) (r : UndoRecord)
    → m < k
    → get_or (set history m r) k no_record ≡ get_or history k no_record
get_or-set_after [] k m r lt = refl
get_or-set_after (x ∷ history) zero m r lt = absurd (omega arith)
get_or-set_after (x ∷ history) (suc k) zero r lt = refl
get_or-set_after (x ∷ history) (suc k) (suc m) r lt = get_or-set_after history k m r (omega arith)

undo_third :
    (state : EditState) {text : List ℕ} (j d : ℕ)
    → state.undo_count ≡ 3
    → get_or state.history 2 no_record ≡ insertion_record j d
    → Holds text state.string
    → j < length text
    → (next : EditState) × (undo state ≡ done (answer true, next))
      × Holds (delete_at j text) next.string
unfolding undo revert strlen
undo_third state {text} j d full third h lt =
    let (b, taken, holds) = Holds-delete_at j h lt in
    let within : ltb (length text) j ≡ false = ground arith in
    let some_left : (state.undo_count == 0) ≡ false = ground (arith, full) in
    let place : (state.undo_count - 1) % 3 ≡ 2 = omega (arith, full) in
    (
      record state { string = b; undo_count = state.undo_count - 1 },
      rw (some_left, place, third, c_string-Holds h, within, taken) refl,
      holds,
    )

remember-full :
    (state : EditState) (r : UndoRecord) → state.undo_count ≡ 3 → (remember r state).undo_count ≡ 3
unfolding remember
remember-full state r full = ground (arith, full)

remember-third :
    (state : EditState) (r : UndoRecord)
    → state.undo_count ≡ 3
    → get_or (remember r state).history 2 no_record ≡ get_or state.history 2 no_record
unfolding remember
remember-third state r full =
    get_or-set_after state.history 2 (state.undo_count % 3) r (omega (arith, full))

-- With a full history the record of an insertion takes the place of the first one, and `undo` then uses
-- the third: after an insertion at `j`, an insertion at `i` and `undo`, the text has the new character
-- and has lost the one at `j`.
undo_fourth :
    {state : EditState} {text before : List ℕ} {past : List (List ℕ)} (i c j d : ℕ)
    → Represents state text (before ∷ past)
    → length past ≡ 2
    → c ≢ 0
    → i ≤ length text
    → length text < 75
    → get_or state.history 2 no_record ≡ insertion_record j d
    → j ≤ length text
    → (next : EditState) × ((insert (false, i) c state >>= λ r. undo (r.1))
        ≡ done (answer true, next))
      × Holds (delete_at j (insert_at i c text)) next.string
undo_fourth {state} {text} i c j d s two nz le lt third le' =
    let (b, edit, holds) = insert-Holds state i c s.string nz le lt in
    let full : state.undo_count ≡ 3 = omega (arith, Chain-length s.chain, two) in
    let (next, undone, holds') =
      undo_third (record (remember (insertion_record i c) state) { string = b }) j d
        (remember-full state (insertion_record i c) full)
        (remember-third state (insertion_record i c) full ∙ third) holds
        (omega (arith, length-insert_at i c text)) in
    (next, rw edit undone, holds')
