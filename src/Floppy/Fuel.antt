-- ===== src/Floppy/Fuel.antt =====
-- exercises/ex18: the fuel of `reportDirectory` in the model of floppyDir.c and floppyDirNew.c.
use os_coursework.Prelude.{◌≡◌}
use os_coursework.Floppy.{Result}
use os_coursework.Floppy.Walk.{Ends}

-- The second call comes to the same as the first, if that comes to an end.
abbrev pub Keeps : {A : Type 0} → Result A → Result A → Type 0
Keeps r r' = Ends r → r' ≡ r
