-- ===== src/Deadlock.antt =====
-- exercises/ex09/deadlock.c: ten threads that share nine objects. Each object is guarded by a
-- semaphore that starts at 1; a thread posts only what it has waited for, so a semaphore is a mutex
-- of the thread model of Kitchen/Threads.antt.
pub mod Laws
mod Tests
use os_coursework.Prelude.{ℕ, List, [], ◌∷◌, get_or}
use os_coursework.Kitchen.Threads.{Instr, lock, unlock, say}

-- The semaphores, by their place among the declarations.
abbrev pub hammer : ℕ
hammer = 0

abbrev pub rubber_stamp : ℕ
rubber_stamp = 1

abbrev pub bookmark : ℕ
bookmark = 2

abbrev pub shovel : ℕ
shovel = 3

abbrev pub bowtie : ℕ
bowtie = 4

abbrev pub camera : ℕ
camera = 5

abbrev pub spatula : ℕ
spatula = 6

abbrev pub tricorder : ℕ
tricorder = 7

abbrev pub usb_cable : ℕ
usb_cable = 8

unfoldable pub tamara : List Instr
tamara =
    lock bookmark
    ∷ lock shovel
    ∷ lock tricorder
    ∷ say
    ∷ unlock bookmark
    ∷ unlock shovel
    ∷ unlock tricorder
    ∷ []

unfoldable pub adolfo : List Instr
adolfo =
    lock hammer
    ∷ lock bowtie
    ∷ lock camera
    ∷ lock usb_cable
    ∷ say
    ∷ unlock hammer
    ∷ unlock bowtie
    ∷ unlock camera
    ∷ unlock usb_cable
    ∷ []

unfoldable pub terrie : List Instr
terrie =
    lock hammer
    ∷ lock rubber_stamp
    ∷ lock bookmark
    ∷ lock bowtie
    ∷ say
    ∷ unlock hammer
    ∷ unlock rubber_stamp
    ∷ unlock bookmark
    ∷ unlock bowtie
    ∷ []

unfoldable pub dollie : List Instr
dollie = lock hammer ∷ lock shovel ∷ say ∷ unlock hammer ∷ unlock shovel ∷ []

unfoldable pub alesha : List Instr
alesha =
    lock shovel
    ∷ lock camera
    ∷ lock usb_cable
    ∷ say
    ∷ unlock shovel
    ∷ unlock camera
    ∷ unlock usb_cable
    ∷ []

unfoldable pub benita : List Instr
benita = lock hammer ∷ lock spatula ∷ say ∷ unlock hammer ∷ unlock spatula ∷ []

unfoldable pub laverne : List Instr
laverne =
    lock camera
    ∷ lock tricorder
    ∷ lock usb_cable
    ∷ say
    ∷ unlock camera
    ∷ unlock tricorder
    ∷ unlock usb_cable
    ∷ []

unfoldable pub grady : List Instr
grady = lock hammer ∷ lock usb_cable ∷ say ∷ unlock hammer ∷ unlock usb_cable ∷ []

unfoldable pub arnold : List Instr
arnold =
    lock rubber_stamp
    ∷ lock camera
    ∷ lock spatula
    ∷ say
    ∷ unlock rubber_stamp
    ∷ unlock camera
    ∷ unlock spatula
    ∷ []

unfoldable pub gladys : List Instr
gladys = lock camera ∷ lock spatula ∷ say ∷ unlock camera ∷ unlock spatula ∷ []

-- The threads that `main` creates, in that order.
unfoldable pub threads : List (List Instr)
threads =
    tamara ∷ adolfo ∷ terrie ∷ dollie ∷ alesha ∷ benita ∷ laverne ∷ grady ∷ arnold ∷ gladys ∷ []

unfoldable pub start : ℕ → List Instr
start i = get_or threads i []

abbrev pub count : ℕ
count = 10
