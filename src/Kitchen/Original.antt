-- ===== src/Kitchen/Original.antt =====
-- assignments/hw5/kitchen.c: every chef locks the mutexes of its appliances in an order of its own.
pub mod Laws
use os_coursework.Prelude.{
  ℕ, zero, suc, ◌<◌, ◌≡◌, ◌≢◌, refl, some, none, Bool, true, false, List, [], ◌∷◌, arith, get_or,
  length, All, All-get_or,
}
use os_coursework.Kitchen.Threads.{
  Instr, lock, unlock, cook, rest, Pc, at, done, State, init, turn, Steps, Reach, ChefRec,
}

-- The mutexes, by their place among the declarations.
abbrev pub mixer : ℕ
mixer = 0

abbrev pub blender : ℕ
blender = 1

abbrev pub oven : ℕ
oven = 2

abbrev pub grill : ℕ
grill = 3

abbrev pub fryer : ℕ
fryer = 4

abbrev pub griddle : ℕ
griddle = 5

abbrev pub coffee_maker : ℕ
coffee_maker = 6

abbrev pub microwave : ℕ
microwave = 7

-- The loop bodies.
unfoldable pub tad : List Instr
tad =
    lock griddle
    ∷ lock grill
    ∷ lock microwave
    ∷ cook 60
    ∷ unlock microwave
    ∷ unlock grill
    ∷ unlock griddle
    ∷ rest 25
    ∷ []

unfoldable pub merry : List Instr
merry =
    lock mixer
    ∷ lock oven
    ∷ lock blender
    ∷ cook 15
    ∷ unlock blender
    ∷ unlock oven
    ∷ unlock mixer
    ∷ rest 25
    ∷ []

unfoldable pub charles : List Instr
charles =
    lock coffee_maker ∷ lock griddle ∷ cook 90 ∷ unlock griddle ∷ unlock coffee_maker ∷ rest 25 ∷ []

unfoldable pub merlin : List Instr
merlin = lock blender ∷ lock mixer ∷ cook 15 ∷ unlock mixer ∷ unlock blender ∷ rest 25 ∷ []

unfoldable pub lyn : List Instr
lyn = lock griddle ∷ lock fryer ∷ cook 75 ∷ unlock fryer ∷ unlock griddle ∷ rest 25 ∷ []

unfoldable pub marian : List Instr
marian =
    lock coffee_maker
    ∷ lock microwave
    ∷ lock oven
    ∷ cook 45
    ∷ unlock oven
    ∷ unlock microwave
    ∷ unlock coffee_maker
    ∷ rest 25
    ∷ []

unfoldable pub summer : List Instr
summer =
    lock fryer
    ∷ lock blender
    ∷ lock coffee_maker
    ∷ cook 30
    ∷ unlock coffee_maker
    ∷ unlock blender
    ∷ unlock fryer
    ∷ rest 25
    ∷ []

unfoldable pub sammy : List Instr
sammy = lock grill ∷ lock fryer ∷ cook 60 ∷ unlock fryer ∷ unlock grill ∷ rest 25 ∷ []

unfoldable pub lura : List Instr
lura = lock microwave ∷ lock mixer ∷ cook 15 ∷ unlock mixer ∷ unlock microwave ∷ rest 25 ∷ []

unfoldable pub ginny : List Instr
ginny = lock grill ∷ lock oven ∷ cook 45 ∷ unlock oven ∷ unlock grill ∷ rest 25 ∷ []

-- The array of `main`.
unfoldable pub chef_list : List ChefRec
chef_list =
    record { name = "Tad"; start = tad }
    ∷ record { name = "Merry"; start = merry }
    ∷ record { name = "Charles"; start = charles }
    ∷ record { name = "Merlin"; start = merlin }
    ∷ record { name = "Lyn"; start = lyn }
    ∷ record { name = "Marian"; start = marian }
    ∷ record { name = "Summer"; start = summer }
    ∷ record { name = "Sammy"; start = sammy }
    ∷ record { name = "Lura"; start = lura }
    ∷ record { name = "Ginny"; start = ginny }
    ∷ []

abbrev pub nobody : ChefRec
nobody = record { name = ""; start = [] }

-- What the thread at index `i` runs.
unfoldable pub start : ℕ → List Instr
start i = (get_or chef_list i nobody).start

abbrev pub count : ℕ
count = 10
