-- ===== src/Kitchen/Threads.antt =====
-- The chef threads of assignments/hw5: what one thread does at a time, and how threads interleave.
-- A chef's loop body is a list of calls; a mutex is named by a number, and a thread by its index in
-- `chefList`.
use Prim.Native.String.{String}
use os_coursework.Prelude.{
  ℕ, ◌+◌, ◌<◌, ◌≡◌, Bool, true, false, Option, none, some, List, [], ◌∷◌, update, if◌then◌else◌,
  sum_below,
}

-- The calls that a chef makes between two tests of `running`.
pub data Instr : Type 0 where
  lock : ℕ → Instr
  unlock : ℕ → Instr
  cook : ℕ → Instr
  rest : ℕ → Instr
  say : Instr  -- `printf`, in exercises/ex09

-- What is left of the loop body, or that the thread has returned.
pub data Pc : Type 0 where
  at : List Instr → Pc
  done : Pc

-- An entry of `chefList`; the thread's handle is its index, and `dishCount` is kept in the state.
pub record ChefRec : Type 0 where
  pub name : String
  pub start : List Instr

-- `owner` is the state of the mutexes, `dishes` is `dishCount` of each `ChefRec`.
pub record State : Type 0 where
  pub owner : ℕ → Option ℕ
  pub pc : ℕ → Pc
  pub dishes : ℕ → ℕ
  pub running : Bool

abbrev pub init : State
init = record { owner = λ _. none; pc = λ _. at []; dishes = λ _. 0; running = true }

-- One call of thread `i`; `none` while it waits for a mutex.
unfoldable pub call : Instr → List Instr → ℕ → State → Option State
call (lock m) r i s = elim (s.owner m) [
  | none ↦ some (record s { owner = update s.owner m (some i); pc = update s.pc i (at r) })
  | some _ ↦ none
]
call (unlock m) r i s = some (record s { owner = update s.owner m none; pc = update s.pc i (at r) })
call (cook _) r i s =
    some (record s { dishes = update s.dishes i (s.dishes i + 1); pc = update s.pc i (at r) })
call (rest _) r i s = some (record s { pc = update s.pc i (at r) })
call say r i s = some (record s { pc = update s.pc i (at r) })

-- The head of the loop, `while ( running )`, and the calls of its body. A thread that has returned
-- makes no move.
unfoldable pub resume : List Instr → Pc → ℕ → State → Option State
unfolding call
resume body (at []) i s =
    some (record s { pc = update s.pc i (if s.running then at body else done) })
resume body (at (c ∷ r)) i s = call c r i s
resume body done i s = none

unfoldable pub turn : List Instr → ℕ → State → Option State
turn body i s = resume body (s.pc i) i s

-- `n` chefs, chef `i` with the loop body `start i`, in any order; `main` sets `running` to false.
pub data Step (n : ℕ) (start : ℕ → List Instr) (s : State) : State → Type 0 where
  chef : (i : ℕ) {t : State} → i < n → turn (start i) i s ≡ some t → Step n start s t
  stop : Step n start s (record s { running = false })

-- Any number of steps.
pub data Steps (n : ℕ) (start : ℕ → List Instr) (s : State) : State → Type 0 where
  here : Steps n start s s
  later : {t u : State} → Steps n start s t → Step n start t u → Steps n start s u

abbrev pub Reach : ℕ → (ℕ → List Instr) → State → Type 0
Reach n start s = Steps n start init s

-- The loop of `main` that joins the threads and adds up `dishCount`.
unfoldable pub total_dishes : ℕ → State → ℕ
total_dishes n s = sum_below n s.dishes
