-- ===== src/Triangles/Sem.antt =====
-- assignments/hw4/triangles-sem.c: workers that take indices from a queue. `main` has read the whole
-- list before it posts `workAvailable`, so that no worker starts before. The work on an index is one
-- step, since `vList` is not changed any more and each `global_count++` holds `countMutex`.
use os_coursework.Prelude.{
  ℕ, zero, suc, ◌+◌, ◌-◌, ◌<◌, ◌≡◌, Option, none, some, List, [], ◌∷◌, ◌++◌, if◌then◌else◌, ltb,
  leb, length, update,
}
use os_coursework.Triangles.{for_sum, found}

abbrev pub max_values : ℕ
max_values = 10000

-- What `readList` comes to: the list, `fail`, or a write behind the array.
pub data Reading : Type 0 where
  values : List ℕ → Reading
  failed : Reading
  undefined : Reading

-- The loop of `readList`, with the values read before.
unfoldable pub read_list : List ℕ → List ℕ → Reading
read_list v_list [] = values v_list
read_list v_list (v ∷ input) =
    let rest = read_list (v_list ++ v ∷ []) input in
    if ltb max_values (length v_list)
    then failed
    else if ltb (length v_list) max_values
    then rest
    else undefined

-- Where a worker is: before `sem_wait(&workAvailable)`, before the check of `nextWorkIndex`, before
-- `sem_wait(&workMutex)`, in the loops for an index, or behind its return.
pub data Stage : Type 0 where
  waiting : Stage
  woken : Stage
  checked : Stage
  working : ℕ → Stage
  returned : Stage

pub record State : Type 0 where
  pub stage : ℕ → Stage
  pub available : ℕ
  pub to_post : ℕ
  pub next_work_index : ℕ
  pub global_count : ℕ

abbrev pub init : ℕ → State
init workers = record {
  stage = λ i. waiting;
  available = 0;
  to_post = workers;
  next_work_index = 0;
  global_count = 0;
}

-- The loops of `workerRoutine` for an index of the array. The places of `vList` behind the values read
-- are 0, as those of every global array.
unfoldable pub found_below : List ℕ → ℕ → ℕ
found_below v index =
    for_sum index 0 (λ j. for_sum (index - (j + 1)) (j + 1) (λ k. found v j k index))

abbrev pub at_stage : State → ℕ → Stage → State
at_stage s i t = record s { stage = update s.stage i t }

-- What worker `i` does next; `none` while it waits, after it has returned, and where it would read
-- behind `vList`, which C leaves undefined.
unfoldable pub advance : List ℕ → ℕ → Stage → State → Option State
advance v i waiting s = elim s.available [
  | zero ↦ none
  | suc n ↦ some (record (at_stage s i woken) { available = n })
]
advance v i woken s =
    some (at_stage s i (if leb (length v) s.next_work_index then returned else checked))
advance v i checked s =
    some (record (at_stage s i (working s.next_work_index)) {
      next_work_index = s.next_work_index + 1;
    })
advance v i (working index) s =
    if ltb index max_values
    then some (record (at_stage s i waiting) {
      global_count = s.global_count + found_below v index;
      available = s.available + 1;
    })
    else none
advance v i returned s = none

-- `main` posts once more.
unfoldable pub post : State → Option State
post s = elim s.to_post [
  | zero ↦ none
  | suc n ↦ some (record s { to_post = n; available = s.available + 1 })
]

pub data Step (v : List ℕ) (workers : ℕ) (s : State) : State → Type 0 where
  work : (i : ℕ) {t : State} → i < workers → advance v i (s.stage i) s ≡ some t → Step v workers s t
  main_post : {t : State} → post s ≡ some t → Step v workers s t

-- Any number of steps from a state.
pub data Steps (v : List ℕ) (workers : ℕ) (s : State) : State → Type 0 where
  here : Steps v workers s s
  later : {t u : State} → Steps v workers s t → Step v workers t u → Steps v workers s u
