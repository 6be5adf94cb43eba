-- ===== src/Kitchen/TakeAll.antt =====
-- assignments/hw5/takeAll.c: a chef waits until all its appliances are free, then takes them at once.
-- A chef holds `applianceLock` from the head of `wait_and_acquire_appliances` or
-- `release_appliances`, or from its wakening, until it waits or returns, so that part is one step.
pub mod Invariant
pub mod Laws
mod Tests
use Prim.Native.String.{String}
use os_coursework.Prelude.{
  ℕ, zero, suc, ◌+◌, ◌<◌, ◌≡◌, Bool, true, false, Option, none, some, List, [], ◌∷◌, update,
  if◌then◌else◌, get_or,
}

-- `enum Appliance`
abbrev pub blender : ℕ
blender = 0

abbrev pub coffee_maker : ℕ
coffee_maker = 1

abbrev pub fryer : ℕ
fryer = 2

abbrev pub griddle : ℕ
griddle = 3

abbrev pub grill : ℕ
grill = 4

abbrev pub microwave : ℕ
microwave = 5

abbrev pub mixer : ℕ
mixer = 6

abbrev pub oven : ℕ
oven = 7

-- Where a chef is in its loop.
pub data Stage : Type 0 where
  head : Stage  -- the test of `running`
  asking : Stage  -- about to look at the appliances
  waiting : Stage  -- in `pthread_cond_wait`
  cooking : Stage
  releasing : Stage
  resting : Stage
  done : Stage

-- `in_use` is `applianceInUse`, `dishes` is `dishCount` of each `ChefRec`.
pub record State : Type 0 where
  pub in_use : ℕ → Bool
  pub stage : ℕ → Stage
  pub dishes : ℕ → ℕ
  pub running : Bool

abbrev pub init : State
init = record { in_use = λ _. false; stage = λ _. head; dishes = λ _. 0; running = true }

-- The first loop of `wait_and_acquire_appliances`.
unfoldable pub all_available : List ℕ → (ℕ → Bool) → Bool
all_available [] used = true
all_available (a ∷ list) used = if used a then false else all_available list used

-- The second loop, and that of `release_appliances`.
unfoldable pub set_all : List ℕ → Bool → (ℕ → Bool) → ℕ → Bool
set_all [] v used = used
set_all (a ∷ list) v used = set_all list v (update used a v)

-- One round of `while (true)`.
unfoldable pub wait_and_acquire_appliances : List ℕ → ℕ → State → State
wait_and_acquire_appliances list i s =
    if all_available list s.in_use
    then record s { in_use = set_all list true s.in_use; stage = update s.stage i cooking }
    else record s { stage = update s.stage i waiting }

-- `pthread_cond_broadcast` wakes all who wait.
abbrev pub woken : Stage → Stage
woken waiting = asking
woken head = head
woken asking = asking
woken cooking = cooking
woken releasing = releasing
woken resting = resting
woken done = done

unfoldable pub release_appliances : List ℕ → ℕ → State → State
release_appliances list i s = record s {
  in_use = set_all list false s.in_use;
  stage = update (λ j. woken (s.stage j)) i resting;
}

-- One step of the chef `i` that needs `list`; `none` while it waits, and once it has returned.
unfoldable pub resume : List ℕ → Stage → ℕ → State → Option State
resume list head i s =
    some (record s { stage = update s.stage i (if s.running then asking else done) })
resume list asking i s = some (wait_and_acquire_appliances list i s)
resume list waiting i s = none
resume list cooking i s =
    some
      (record s { dishes = update s.dishes i (s.dishes i + 1); stage = update s.stage i releasing })
resume list releasing i s = some (release_appliances list i s)
resume list resting i s = some (record s { stage = update s.stage i head })
resume list done i s = none

unfoldable pub turn : List ℕ → ℕ → State → Option State
turn list i s = resume list (s.stage i) i s

-- `n` chefs, chef `i` with the appliances `needed i`, in any order. A wait may end with no
-- broadcast, and `main` sets `running` to false.
pub data Step (n : ℕ) (needed : ℕ → List ℕ) (s : State) : State → Type 0 where
  chef : (i : ℕ) {t : State} → i < n → turn (needed i) i s ≡ some t → Step n needed s t
  wake :
      (i : ℕ)
      → i < n
      → s.stage i ≡ waiting
      → Step n needed s (record s { stage = update s.stage i asking })
  stop : Step n needed s (record s { running = false })

pub data Reach (n : ℕ) (needed : ℕ → List ℕ) : State → Type 0 where
  here : Reach n needed init
  later : {s t : State} → Reach n needed s → Step n needed s t → Reach n needed t

-- A chef's name, the appliances it needs, and how long it cooks.
pub record ChefRec : Type 0 where
  pub name : String
  pub needed : List ℕ
  pub duration : ℕ

unfoldable pub tad : ChefRec
tad = record { name = "Tad"; needed = griddle ∷ grill ∷ microwave ∷ []; duration = 60 }

unfoldable pub merry : ChefRec
merry = record { name = "Merry"; needed = mixer ∷ oven ∷ blender ∷ []; duration = 15 }

unfoldable pub charles : ChefRec
charles = record { name = "Charles"; needed = coffee_maker ∷ griddle ∷ []; duration = 90 }

unfoldable pub merlin : ChefRec
merlin = record { name = "Merlin"; needed = blender ∷ mixer ∷ []; duration = 15 }

unfoldable pub lyn : ChefRec
lyn = record { name = "Lyn"; needed = griddle ∷ fryer ∷ []; duration = 75 }

unfoldable pub marian : ChefRec
marian = record { name = "Marian"; needed = coffee_maker ∷ microwave ∷ oven ∷ []; duration = 45 }

unfoldable pub summer : ChefRec
summer = record { name = "Summer"; needed = fryer ∷ blender ∷ coffee_maker ∷ []; duration = 30 }

unfoldable pub sammy : ChefRec
sammy = record { name = "Sammy"; needed = grill ∷ fryer ∷ []; duration = 60 }

unfoldable pub lura : ChefRec
lura = record { name = "Lura"; needed = microwave ∷ mixer ∷ []; duration = 15 }

unfoldable pub ginny : ChefRec
ginny = record { name = "Ginny"; needed = grill ∷ oven ∷ []; duration = 45 }

-- The array of `main`.
unfoldable pub chef_list : List ChefRec
chef_list = tad ∷ merry ∷ charles ∷ merlin ∷ lyn ∷ marian ∷ summer ∷ sammy ∷ lura ∷ ginny ∷ []

abbrev pub nobody : ChefRec
nobody = record { name = ""; needed = []; duration = 0 }

unfoldable pub needs : ℕ → List ℕ
needs i = (get_or chef_list i nobody).needed

abbrev pub count : ℕ
count = 10
