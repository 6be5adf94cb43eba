-- ===== src/Kitchen/Ordered.antt =====
-- assignments/hw5/ordered.c: every chef sorts the appliances that it needs and locks them in that
-- order.
pub mod Sort
pub mod Bodies
pub mod Laws
use os_coursework.Prelude.{
  ℕ, zero, suc, ◌+◌, ◌-◌, ◌≤◌, ◌<◌, ◌≡◌, Bool, true, false, List, [], ◌∷◌, ◌++◌, map, reverse,
  length, if◌then◌else◌, ltb, get_or,
}
use os_coursework.Kitchen.Threads.{Instr, lock, unlock, cook, rest, ChefRec}

-- `enum Appliance`
abbrev pub blender : ℕ
blender = 0

abbrev pub griddle : ℕ
griddle = 1

abbrev pub fryer : ℕ
fryer = 2

abbrev pub grill : ℕ
grill = 3

abbrev pub mixer : ℕ
mixer = 4

abbrev pub coffee_maker : ℕ
coffee_maker = 5

abbrev pub oven : ℕ
oven = 6

abbrev pub microwave : ℕ
microwave = 7

abbrev pub num_appliances : ℕ
num_appliances = 8

-- The inner loop of `lock_appliances`, with `x` in `list[i]`: what `list[i]` ends with, and the rest
-- of the list.
unfoldable pub inner : ℕ → List ℕ → ℕ × List ℕ
inner x [] = (x, [])
inner x (y ∷ ys) =
    let (m, r) = inner (if ltb y x then y else x) ys in (m, (if ltb y x then x else y) ∷ r)

-- The outer loop, with the rounds left.
unfoldable pub outer : ℕ → List ℕ → List ℕ
outer zero xs = xs
outer (suc k) [] = []
outer (suc k) (x ∷ xs) = let (m, r) = inner x xs in m ∷ outer k r

unfoldable pub sort_appliances : List ℕ → List ℕ
unfolding outer
sort_appliances xs = outer (length xs - 1) xs

-- The calls that `lock_appliances` makes after the sort, and those of `unlock_appliances`. The array
-- stays sorted for the next round, where the sort changes nothing.
unfoldable pub lock_appliances : List ℕ → List Instr
lock_appliances list = map lock (sort_appliances list)

unfoldable pub unlock_appliances : List ℕ → List Instr
unlock_appliances list = map unlock (reverse list)

-- The loop body of a chef that needs `needed` and cooks for `duration`.
unfoldable pub chef_body : List ℕ → ℕ → List Instr
chef_body needed duration =
    lock_appliances needed
    ++ cook duration ∷ (unlock_appliances (sort_appliances needed) ++ rest 25 ∷ [])

unfoldable pub tad : List Instr
tad = chef_body (griddle ∷ grill ∷ microwave ∷ []) 60

unfoldable pub merry : List Instr
merry = chef_body (mixer ∷ oven ∷ blender ∷ []) 15

unfoldable pub charles : List Instr
charles = chef_body (coffee_maker ∷ griddle ∷ []) 90

unfoldable pub merlin : List Instr
merlin = chef_body (blender ∷ mixer ∷ []) 15

unfoldable pub lyn : List Instr
lyn = chef_body (griddle ∷ fryer ∷ []) 75

unfoldable pub marian : List Instr
marian = chef_body (coffee_maker ∷ microwave ∷ oven ∷ []) 45

unfoldable pub summer : List Instr
summer = chef_body (fryer ∷ blender ∷ coffee_maker ∷ []) 30

unfoldable pub sammy : List Instr
sammy = chef_body (grill ∷ fryer ∷ []) 60

unfoldable pub lura : List Instr
lura = chef_body (microwave ∷ mixer ∷ []) 15

unfoldable pub ginny : List Instr
ginny = chef_body (grill ∷ oven ∷ []) 45

-- The array of `main`.
unfoldable pub chef_list : List ChefRec
chef_list =
    record { name = "Tad"; start = tad }
    ∷ record { name = "Merry"; start = merry }
    ∷ record { name = "Charles"; start = charles }
    ∷ record { name = "Merlin"; start = merlin }
    ∷ record { name = "Lyn"; start = lyn }
    ∷ record { name = "Marian"; start = marian }
    ∷ record { name = "Summer"; start = summer }
    ∷ record { name = "Sammy"; start = sammy }
    ∷ record { name = "Lura"; start = lura }
    ∷ record { name = "Ginny"; start = ginny }
    ∷ []

abbrev pub nobody : ChefRec
nobody = record { name = ""; start = [] }

unfoldable pub start : ℕ → List Instr
start i = (get_or chef_list i nobody).start

abbrev pub count : ℕ
count = 10
