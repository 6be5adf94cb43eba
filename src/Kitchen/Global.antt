-- ===== src/Kitchen/Global.antt =====
-- assignments/hw5/global.c: one mutex for the whole kitchen.
pub mod Laws
use os_coursework.Prelude.{ℕ, List, [], ◌∷◌, get_or}
use os_coursework.Kitchen.Threads.{Instr, lock, unlock, cook, rest, ChefRec}

abbrev pub kitchen_lock : ℕ
kitchen_lock = 0

unfoldable pub tad : List Instr
tad = lock kitchen_lock ∷ cook 60 ∷ unlock kitchen_lock ∷ rest 25 ∷ []

unfoldable pub merry : List Instr
merry = lock kitchen_lock ∷ cook 15 ∷ unlock kitchen_lock ∷ rest 25 ∷ []

unfoldable pub charles : List Instr
charles = lock kitchen_lock ∷ cook 90 ∷ unlock kitchen_lock ∷ rest 25 ∷ []

unfoldable pub merlin : List Instr
merlin = lock kitchen_lock ∷ cook 15 ∷ unlock kitchen_lock ∷ rest 25 ∷ []

unfoldable pub lyn : List Instr
lyn = lock kitchen_lock ∷ cook 75 ∷ unlock kitchen_lock ∷ rest 25 ∷ []

unfoldable pub marian : List Instr
marian = lock kitchen_lock ∷ cook 45 ∷ unlock kitchen_lock ∷ rest 25 ∷ []

unfoldable pub summer : List Instr
summer = lock kitchen_lock ∷ cook 30 ∷ unlock kitchen_lock ∷ rest 25 ∷ []

unfoldable pub sammy : List Instr
sammy = lock kitchen_lock ∷ cook 60 ∷ unlock kitchen_lock ∷ rest 25 ∷ []

unfoldable pub lura : List Instr
lura = lock kitchen_lock ∷ cook 15 ∷ unlock kitchen_lock ∷ rest 25 ∷ []

unfoldable pub ginny : List Instr
ginny = lock kitchen_lock ∷ cook 45 ∷ unlock kitchen_lock ∷ rest 25 ∷ []

-- The array of `main`.
unfoldable pub chef_list : List ChefRec
chef_list =
    record { name = "Tad"; start = tad }
    ∷ record { name = "Merry"; start = merry }
    ∷ record { name = "Charles"; start = charles }
    ∷ record { name = "Merlin"; start = merlin }
    ∷ record { name = "Lyn"; start = lyn }
    ∷ record { name = "Marian"; start = marian }
    ∷ record { name = "Summer"; start = summer }
    ∷ record { name = "Sammy"; start = sammy }
    ∷ record { name = "Lura"; start = lura }
    ∷ record { name = "Ginny"; start = ginny }
    ∷ []

abbrev pub nobody : ChefRec
nobody = record { name = ""; start = [] }

unfoldable pub start : ℕ → List Instr
start i = (get_or chef_list i nobody).start

abbrev pub count : ℕ
count = 10
