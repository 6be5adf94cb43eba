-- ===== src/Editor/Records/Tests.antt =====
-- Examples for the theorems about edit2.c.
use os_coursework.Prelude.{ℕ, ◌≡◌, refl, true, List, [], ◌∷◌, arith}
use os_coursework.Editor.{done, answer}
use os_coursework.Editor.Text.{padded}
use os_coursework.Editor.Holds.{Holds}
use os_coursework.Editor.Records.{EditState}
use os_coursework.Editor.Records.Chain.{an_insertion, start, back, Represents}
use os_coursework.Editor.Records.Laws.{
  insertion_record, insertion, perform, inserts, perform-Represents,
}

abbrev abc : List ℕ
abc = 97 ∷ 98 ∷ 99 ∷ []

abc-Holds : Holds abc (padded abc 72)
abc-Holds = record {
  nonzero = (omega arith, (omega arith, (omega arith, tt)));
  short = omega arith;
  bytes = refl;
}

-- `abc` after `reset`.
abbrev fresh : EditState
fresh = record {
  string = padded abc 72;
  history = insertion_record 0 0 ∷ insertion_record 0 0 ∷ insertion_record 0 0 ∷ [];
  undo_count = 0;
}

fresh-Represents : Represents fresh abc []
fresh-Represents = record { string = abc-Holds; room = refl; few = omega arith; chain = start }

perform-Represents_example :
    (next : EditState) × (perform (insertion 3 100) fresh ≡ done (answer true, next))
    × Represents next (97 ∷ 98 ∷ 99 ∷ 100 ∷ []) (abc ∷ [])
perform-Represents_example =
    perform-Represents fresh-Represents
      (inserts 3 100 (omega arith) (omega arith) (omega arith) (omega arith))

-- `abc` after three insertions at the end.
abbrev full : EditState
full = record {
  string = padded abc 72;
  history = insertion_record 0 97 ∷ insertion_record 1 98 ∷ insertion_record 2 99 ∷ [];
  undo_count = 3;
}

full-Represents : Represents full abc ((97 ∷ 98 ∷ []) ∷ (97 ∷ []) ∷ [] ∷ [])
full-Represents = record {
  string = abc-Holds;
  room = refl;
  few = omega arith;
  chain = back (an_insertion 2 99 (97 ∷ 98 ∷ []) (omega arith) (omega arith)) (
      back (an_insertion 1 98 (97 ∷ []) (omega arith) (omega arith))
        (back (an_insertion 0 97 [] (omega arith) (omega arith)) start));
}
