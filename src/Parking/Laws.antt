-- ===== src/Parking/Laws.antt =====
-- The commands of assignments/hw6/parkingServer.c against a map from plates to arrival times.
use os_coursework.Prelude.{
  ℕ, ◌+◌, ◌-◌, ◌*◌, ◌/◌, ◌≤◌, ◌<◌, ◌≡◌, refl, true, false, none, some, List, if◌then◌else◌, ltb,
  Bool-cases, Option-cases, ◌⊎◌, inl, inr, All, arith, same, length,
}
use os_coursework.Parking.{
  Floats, ParkingRecord, silent, invalid, full, fee, not_found, duplicate, occupy, fee_of, park,
  leave,
}
use os_coursework.Parking.Table.{
  lookup, Unique, Fills, occupy-Fills, occupy-full, Fills-lookup, duplicate-lookup,
  lookup-duplicate,
}
use os_coursework.Parking.Cleared.{Clears, Clears-lookup, leave-absent, leave-early, leave-paid}

module _ (floats : Floats) (hourly_rate : floats.Float) where
  -- `park` of a plate of at most 8 characters: a parked plate is refused and keeps its record; else,
  -- if no record is free, the lot is full and nothing changes; else the plate is parked with its
  -- arrival time, and every other plate keeps its own.
  pub park-lookup :
      (plate : List ℕ) (arrival : ℕ) (table : List ParkingRecord)
      → length plate ≤ 8
      → ((a : ℕ) × (lookup plate table ≡ some a)
          × (park floats hourly_rate plate arrival table ≡ (invalid, table)))
        ⊎ ((lookup plate table ≡ none)
            × All (λ r. r.occupied ≡ true) table
            × (park floats hourly_rate plate arrival table ≡ (full, table)))
        ⊎ ((lookup plate table ≡ none)
            × (table' : List ParkingRecord) × (park floats hourly_rate plate arrival table
                ≡ (silent, table'))
            × Fills plate arrival table table'
            × ((q : List ℕ)
                → lookup q table' ≡ (if same plate q then some arrival else lookup q table)))
  unfolding park
  park-lookup plate arrival table short = elim (Bool-cases (duplicate plate table)) [
    | inl e ↦ let (a, there) = lookup-duplicate plate table e in inl (a, there, rw e refl)
    | inr e ↦
        let new = duplicate-lookup plate table e in
        elim (Option-cases (occupy plate arrival table)) [
          | inl none_left ↦
              inr (inl (new, occupy-full plate arrival table none_left, rw (e, none_left) refl))
          | inr (table', found) ↦
              let fills = occupy-Fills plate arrival table table' short found in
              inr (
                inr (
                  new,
                  table',
                  rw (e, found) refl,
                  fills,
                  Fills-lookup plate arrival table table' new fills,
                ))
        ]
  ]

  -- `leave` in a table where no plate is twice: an unknown plate is reported, and a time before the
  -- arrival refused, with no change; else the fee is asked for the time since the arrival, and the
  -- plate is gone, while every other plate keeps its arrival time.
  pub leave-lookup :
      (plate : List ℕ) (time : ℕ) (table : List ParkingRecord)
      → Unique table
      → ((lookup plate table ≡ none)
          × (leave floats hourly_rate plate time table ≡ (not_found plate, table)))
        ⊎ ((arrival : ℕ) × (lookup plate table ≡ some arrival)
            × (((time < arrival) × (leave floats hourly_rate plate time table ≡ (invalid, table)))
                ⊎ ((arrival ≤ time)
                    × (table' : List ParkingRecord) × (leave floats hourly_rate plate time table
                        ≡ (fee (fee_of floats hourly_rate (time - arrival)), table'))
                    × Clears plate table table'
                    × ((q : List ℕ)
                        → lookup q table' ≡ (if same plate q then none else lookup q table)))))
  leave-lookup plate time table u = elim (Option-cases (lookup plate table)) [
    | inl gone ↦ inl (gone, leave-absent floats hourly_rate plate time table gone)
    | inr (arrival, there) ↦ inr (
      arrival,
      there,
      elim (Bool-cases (ltb time arrival)) [
        | inl e ↦
            let lt : time < arrival = ground (arith, e) in
            inl (lt, leave-early floats hourly_rate plate time arrival table there lt)
        | inr e ↦
            let le : arrival ≤ time = ground (arith, e) in
            let (table', eq, clears) =
              leave-paid floats hourly_rate plate time arrival table there le in
            inr (le, table', eq, clears, Clears-lookup plate table table' u clears)
      ],
    )
  ]

  -- A fee is that of the hours begun, and is never greater than that of ten hours.
  pub fee_of-bounds :
      (duration : ℕ)
      → ((x : floats.Float) → floats.greater x x ≡ false)
      → (floats.greater (fee_of floats hourly_rate duration) (floats.times 10 hourly_rate) ≡ false)
        × ((fee_of floats hourly_rate duration ≡ floats.times 10 hourly_rate)
            ⊎ ((hours : ℕ) × (fee_of floats hourly_rate duration ≡ floats.times hours hourly_rate)
                × (duration ≤ hours * 3600)
                × (hours * 3600 < duration + 3600)))
  unfolding fee_of
  fee_of-bounds duration irreflexive =
      let hours = (duration + 3599) / 3600 in
      elim (Bool-cases
        (floats.greater (floats.times hours hourly_rate) (floats.times 10 hourly_rate))) [
          | inl e ↦ rw e (irreflexive (floats.times 10 hourly_rate), inl refl)
          | inr e ↦ rw e (e, inr (hours, refl, omega arith, omega arith))
        ]
