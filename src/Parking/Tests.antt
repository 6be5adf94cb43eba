-- ===== src/Parking/Tests.antt =====
-- The parking server at concrete inputs.
use os_coursework.Prelude.{
  ℕ, ◌-◌, ◌*◌, ◌≤◌, ◌<◌, ◌≡◌, refl, true, false, none, some, List, [], ◌∷◌, ltb, if◌then◌else◌,
  same, ◌⊎◌, All, arith,
}
use os_coursework.Parking.{
  Floats, ParkingRecord, silent, invalid, full, not_found, fee, fee_of, park, leave, holds_plate,
}
use os_coursework.Parking.Table.{lookup, Unique, Fills}
use os_coursework.Parking.Cleared.{Clears}
use os_coursework.Parking.Laws.{park-lookup, leave-lookup}

-- Rates in cents.
abbrev cents : Floats
cents = record { Float = ℕ; times = λ hours rate. hours * rate; greater = λ a b. ltb b a }

abbrev vacant : ParkingRecord
vacant = record { plate = []; arrival_time = 0; occupied = false }

-- `ABC-123` and `XYZ-789`
abbrev plate1 : List ℕ
plate1 = 65 ∷ 66 ∷ 67 ∷ 45 ∷ 49 ∷ 50 ∷ 51 ∷ []

abbrev plate2 : List ℕ
plate2 = 88 ∷ 89 ∷ 90 ∷ 45 ∷ 55 ∷ 56 ∷ 57 ∷ []

abbrev lot : List ParkingRecord
lot =
    record { plate = plate1; arrival_time = 7200; occupied = true }
    ∷ vacant
    ∷ record { plate = plate2; arrival_time = 3600; occupied = true }
    ∷ []

lot-Unique : Unique lot
unfolding lookup holds_plate same
lot-Unique = ((λ _. refl), ((λ h. cc), ((λ _. refl), tt)))

-- Half an hour costs one hour.
leave_fee : leave cents 150 plate1 9000 lot ≡ (
  fee 150,
  vacant ∷ vacant ∷ record { plate = plate2; arrival_time = 3600; occupied = true } ∷ [],
)
unfolding leave fee_of holds_plate same
leave_fee = refl

-- `show` and `leave ABC-123 9000`
abbrev some_lines : List (List ℕ)
some_lines =
    (115 ∷ 104 ∷ 111 ∷ 119 ∷ 10 ∷ [])
    ∷ (108 ∷ 101 ∷ 97 ∷ 118 ∷ 101 ∷ 32 ∷ 65 ∷ 66 ∷ 67 ∷ 45 ∷ 49 ∷ 50 ∷ 51 ∷ 32 ∷ 57 ∷ 48 ∷ 48 ∷ 48
        ∷ 10 ∷ [])
    ∷ []

park-lookup_example :
    ((a : ℕ) × (lookup plate1 lot ≡ some a) × (park cents 150 plate1 100 lot ≡ (invalid, lot)))
    ⊎ ((lookup plate1 lot ≡ none)
        × All (λ r. r.occupied ≡ true) lot
        × (park cents 150 plate1 100 lot ≡ (full, lot)))
    ⊎ ((lookup plate1 lot ≡ none)
        × (table' : List ParkingRecord) × (park cents 150 plate1 100 lot ≡ (silent, table'))
        × Fills plate1 100 lot table'
        × ((q : List ℕ) → lookup q table' ≡ (if same plate1 q then some 100 else lookup q lot)))
park-lookup_example = park-lookup cents 150 plate1 100 lot (omega arith)

leave-lookup_example :
    ((lookup plate1 lot ≡ none) × (leave cents 150 plate1 9000 lot ≡ (not_found plate1, lot)))
    ⊎ ((arrival : ℕ) × (lookup plate1 lot ≡ some arrival)
        × (((9000 < arrival) × (leave cents 150 plate1 9000 lot ≡ (invalid, lot)))
            ⊎ ((arrival ≤ 9000)
                × (table' : List ParkingRecord) × (leave cents 150 plate1 9000 lot
                    ≡ (fee (fee_of cents 150 (9000 - arrival)), table'))
                × Clears plate1 lot table'
                × ((q : List ℕ)
                    → lookup q table' ≡ (if same plate1 q then none else lookup q lot)))))
leave-lookup_example = leave-lookup cents 150 plate1 9000 lot lot-Unique
