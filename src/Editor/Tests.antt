-- ===== src/Editor/Tests.antt =====
-- The editor at concrete inputs.
use os_coursework.Prelude.{
  ℕ, zero, suc, ◌<◌, ◌≡◌, refl, true, false, List, [], ◌∷◌, replicate, length, set, arith,
}
use os_coursework.Editor.{
  Outcome, done, undefined, ◌>>=◌, EditState, Reply, answer, insert_word, test_word,
}
use os_coursework.Prelude.{strncpy}
use os_coursework.Prelude.{same}
use os_coursework.Editor.Plain
use os_coursework.Editor.Locked
use os_coursework.Editor.Locked.{Shared}
use os_coursework.Editor.Text.{NonZero}
use os_coursework.Editor.Holds.{Holds-set, Holds-empty}
use os_coursework.Editor.Refine.{Represents, insert-Represents}
use os_coursework.Editor.Undo.{unterminated}
use os_coursework.Editor.Safety.{
  IsValid, Edit, insertion, deletion, undoing, run_edits, run_edits-IsValid,
}
use os_coursework.Editor.Agree.{plain_end, locked_end, main-agrees}

abbrev blank : EditState
blank = record {
  string = replicate 76 0;
  prev1 = replicate 76 0;
  prev2 = replicate 76 0;
  prev3 = replicate 76 0;
  len = 0;
  num_undos = 0;
}

-- The state with the text `abc`.
abbrev letters : List ℕ
letters = 97 ∷ 98 ∷ 99 ∷ []

letters-NonZero : NonZero letters
letters-NonZero = (omega arith, (omega arith, (omega arith, tt)))

-- A state after `reset`.
abbrev fresh : List ℕ → EditState
fresh text = record {
  string = set (strncpy 76 text) 75 0;
  prev1 = strncpy 76 [];
  prev2 = strncpy 76 [];
  prev3 = strncpy 76 [];
  len = length text;
  num_undos = 0;
}

fresh-Represents :
    (text : List ℕ) → NonZero text → length text < 76 → Represents (fresh text) text [] [] [] 0
fresh-Represents text nz lt = record {
  string = Holds-set nz lt;
  len = refl;
  prev1 = Holds-empty;
  prev2 = Holds-empty;
  prev3 = Holds-empty;
  num_undos = refl;
}

abbrev abc : EditState
abc = fresh letters

abc-Represents : Represents abc letters [] [] [] 0
abc-Represents = fresh-Represents letters letters-NonZero (omega arith)

insert-Represents_example :
    (next : EditState) × (Plain.insert abc 1 120 ≡ done (answer true, next))
    × Represents next (97 ∷ 120 ∷ 98 ∷ 99 ∷ []) letters [] [] 1
insert-Represents_example =
    insert-Represents 1 120 abc-Represents (omega arith) (omega arith) (omega arith)

-- A text as long as a text can be.
abbrev long : List ℕ
long = replicate 75 97

replicate-NonZero : (n : ℕ) → NonZero (replicate n 97)
replicate-NonZero zero = tt
replicate-NonZero (suc n) = (omega arith, replicate-NonZero n)

unterminated_example :
    (deleted : EditState) × (undone : EditState) × (inserted : EditState) × (Plain.delete
        (fresh long)
        3
      ≡ done (answer true, deleted))
    × (Plain.undo deleted ≡ done (answer true, undone))
    × (Plain.insert undone 0 120 ≡ done (answer true, inserted))
    × (Plain.report inserted ≡ undefined)
unterminated_example =
    unterminated 3 0 120 (fresh-Represents long (replicate-NonZero 75) (omega arith)) refl
      (omega arith) (omega arith) (omega arith)

abbrev some_edits : List Edit
some_edits = insertion 1 120 ∷ deletion 9 ∷ undoing ∷ undoing ∷ insertion 3 121 ∷ []

run_edits-IsValid_example :
    (next : EditState) × (run_edits some_edits blank ≡ done next) × IsValid next
run_edits-IsValid_example = run_edits-IsValid some_edits blank record {
  string = refl;
  prev1 = refl;
  prev2 = refl;
  prev3 = refl;
  len = omega arith;
  num_undos = omega arith;
}

-- The semaphore after `sem_open`.
abbrev shared_abc : Shared
shared_abc = record { sem = 1; edit = abc }

not_test : same insert_word test_word ≡ false
unfolding same
not_test = refl

main-agrees_example :
    (result : Outcome (Reply × EditState)) × (Plain.main
        (insert_word ∷ (50 ∷ []) ∷ (120 ∷ []) ∷ [])
        abc
      ≡ (result >>= plain_end))
    × (Locked.main (insert_word ∷ (50 ∷ []) ∷ (120 ∷ []) ∷ []) shared_abc
        ≡ (result >>= locked_end shared_abc))
main-agrees_example =
    main-agrees insert_word ((50 ∷ []) ∷ (120 ∷ []) ∷ []) shared_abc (omega arith) not_test
