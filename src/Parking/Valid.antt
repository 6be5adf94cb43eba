-- ===== src/Parking/Valid.antt =====
-- What any commands keep of the table of assignments/hw6/parkingServer.c.
use os_coursework.Prelude.{ℕ, ◌≡◌, List, All, length}
use os_coursework.Parking.{ParkingRecord}
use os_coursework.Parking.Table.{IsRecord, Unique}

-- A table of the lot's capacity: no plate twice, and every record in use with a valid plate and time.
pub record IsValid (capacity : ℕ) (table : List ParkingRecord) : Type 0 where
  pub unique : Unique table
  pub records : All IsRecord table
  pub size : length table ≡ capacity
