-- ===== src/Parking.antt =====
-- assignments/hw6/parkingServer.c: the parking table and the commands of a client. A command works on
-- the table under `tableLock`, so one command is one step, whichever client sends it.
pub mod Client
mod Table
mod Cleared
mod Laws
mod Valid
mod Show
mod Tests
use os_coursework.Prelude.{
  ℕ, zero, suc, ◌+◌, ◌-◌, ◌*◌, ◌/◌, ◌%◌, ◌≡◌, Bool, true, false, not, ◌&&◌, ◌||◌, Option, none,
  some, List, [], ◌∷◌, ◌++◌, if◌then◌else◌, ltb, leb, ◌==◌, length, take, replicate, same, isdigit,
}

-- The arithmetic of `float` that the fee needs: `hours * rate` and `>`.
pub record Floats : Type 1 where
  pub Float : Type 0
  pub times : ℕ → Float → Float
  pub greater : Float → Float → Bool

pub record ParkingRecord : Type 0 where
  pub plate : List ℕ
  pub arrival_time : ℕ
  pub occupied : Bool

-- `MAX_PLATE_LEN`
abbrev pub max_plate_len : ℕ
max_plate_len = 9

unfoldable pub isupper : ℕ → Bool
isupper c = leb 65 c && leb c 90

-- The loop of `isValidPlate`, with the dashes so far.
unfoldable pub plate_chars : ℕ → List ℕ → Bool
plate_chars dash_count [] = true
plate_chars dash_count (c ∷ plate) =
    let after_dash = plate_chars (dash_count + 1) plate in
    let after_other = plate_chars dash_count plate in
    if c == 45
    then (if ltb 1 (dash_count + 1) then false else after_dash)
    else if not (isdigit c) && not (isupper c)
    then false
    else after_other

unfoldable pub is_valid_plate : List ℕ → Bool
is_valid_plate plate =
    let len = length plate in if ltb len 7 || ltb 8 len then false else plate_chars 0 plate

-- `%02d` of a number below 100.
unfoldable pub two_digits : ℕ → List ℕ
two_digits n = (48 + n / 10) ∷ (48 + n % 10) ∷ []

unfoldable pub format_time : ℕ → List ℕ
format_time seconds =
    two_digits (seconds / 3600)
    ++ 58 ∷ (two_digits (seconds % 3600 / 60) ++ 58 ∷ two_digits (seconds % 60))

-- What a client reads.
pub data Reply (M : Type 0) : Type 0 where
  silent : Reply M  -- nothing but the next prompt
  invalid : Reply M  -- `Invalid command`
  full : Reply M  -- `Parking full - no available spaces.`
  not_found : List ℕ → Reply M
  fee : M → Reply M
  listing : List (List ℕ) → Reply M  -- the lines below the heading
  closed : Reply M  -- after `quit`

-- `occupied && strcmp( plate, ... ) == 0`
unfoldable pub holds_plate : List ℕ → ParkingRecord → Bool
holds_plate plate r = r.occupied && same r.plate plate

-- The loop that looks for a duplicate.
unfoldable pub duplicate : List ℕ → List ParkingRecord → Bool
duplicate plate [] = false
duplicate plate (r ∷ table) =
    let later = duplicate plate table in if holds_plate plate r then true else later

-- The loop that takes the first free record.
unfoldable pub occupy : List ℕ → ℕ → List ParkingRecord → Option (List ParkingRecord)
occupy plate arrival [] = none
occupy plate arrival (r ∷ table) =
    let later = occupy plate arrival table in
    if not r.occupied
    then some (
        record { plate = take (max_plate_len - 1) plate; arrival_time = arrival; occupied = true }
        ∷ table)
    else elim later [ none ↦ none | some table' ↦ some (r ∷ table') ]

-- What `leave` does to the record that it finds.
abbrev pub cleared : ParkingRecord → ParkingRecord
cleared r = record { plate = []; arrival_time = 0; occupied = false }

-- The records in use.
unfoldable pub in_use : List ParkingRecord → List ParkingRecord
in_use [] = []
in_use (r ∷ table) = let rest = in_use table in if r.occupied then r ∷ rest else rest

-- The inner loop of the sort, with `x` in `copy[ i ]`: what that ends with, and the rest.
unfoldable pub exchange : ParkingRecord → List ParkingRecord → ParkingRecord × List ParkingRecord
exchange x [] = (x, [])
exchange x (y ∷ ys) =
    let swap = ltb y.arrival_time x.arrival_time in
    let (m, r) = exchange (if swap then y else x) ys in (m, (if swap then x else y) ∷ r)

-- The outer loop, with the rounds left.
unfoldable pub sort_rounds : ℕ → List ParkingRecord → List ParkingRecord
sort_rounds zero copy = copy
sort_rounds (suc k) [] = []
sort_rounds (suc k) (x ∷ copy) = let (m, r) = exchange x copy in m ∷ sort_rounds k r

-- `%-15s%s`
unfoldable pub show_line : ParkingRecord → List ℕ
show_line r = r.plate ++ (replicate (15 - length r.plate) 32 ++ format_time r.arrival_time)

unfoldable pub show_lines : List ParkingRecord → List (List ℕ)
show_lines [] = []
show_lines (r ∷ copy) = show_line r ∷ show_lines copy

-- The records that `show` prints, in their order.
unfoldable pub sorted_copy : List ParkingRecord → List ParkingRecord
sorted_copy table = let copy = in_use table in sort_rounds (length copy - 1) copy

-- The commands, with the rate of the lot.
module _ (floats : Floats) (hourly_rate : floats.Float) where
  -- The fee of a stay; `hours * hourlyRate`, but never more than ten hours'.
  unfoldable pub fee_of : ℕ → floats.Float
  fee_of duration =
      let hours = (duration + 3599) / 3600 in
      let fee = floats.times hours hourly_rate in
      let max_fee = floats.times 10 hourly_rate in
      if floats.greater fee max_fee then max_fee else fee

  -- `park`, with its arguments parsed and checked.
  unfoldable pub park : List ℕ → ℕ → List ParkingRecord → Reply floats.Float × List ParkingRecord
  park plate arrival table =
      if duplicate plate table then (invalid, table) else elim (occupy plate arrival table) [
        | none ↦ (full, table)
        | some table' ↦ (silent, table')
      ]

  -- The loop of `leave`.
  unfoldable pub leave : List ℕ → ℕ → List ParkingRecord → Reply floats.Float × List ParkingRecord
  leave plate leave_time [] = (not_found plate, [])
  leave plate leave_time (r ∷ table) =
      let (reply, table') = leave plate leave_time table in
      if holds_plate plate r
      then (if ltb leave_time r.arrival_time
          then (invalid, r ∷ table)
          else (fee (fee_of (leave_time - r.arrival_time)), cleared r ∷ table))
      else (reply, r ∷ table')

  unfoldable pub show : List ParkingRecord → Reply floats.Float × List ParkingRecord
  show table = (listing (show_lines (sorted_copy table)), table)
