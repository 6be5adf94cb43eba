-- ===== src/Parking/Cleared.antt =====
-- What `leave` of assignments/hw6/parkingServer.c does to the parking table.
use os_coursework.Prelude.{
  ℕ, suc, ◌-◌, ◌≤◌, ◌<◌, ◌≡◌, refl, ap, ◌∙◌, Bool, true, false, none, some, List, [], ◌∷◌,
  if◌then◌else◌, ltb, Bool-cases, ◌⊎◌, inl, inr, All, arith, same, same→eq, length, subst,
}
use os_coursework.Parking.{
  Floats, ParkingRecord, invalid, fee, not_found, holds_plate, cleared, fee_of, leave,
}
use os_coursework.Parking.Table.{lookup, IsRecord, Unique, lookup-head, lookup-tail}

-- The second table is the first with the record of the plate cleared.
abbrev pub Clears : List ℕ → List ParkingRecord → List ParkingRecord → Type 0
Clears plate [] table' = ⊥
Clears plate (r ∷ table) [] = ⊥
Clears plate (r ∷ table) (r' ∷ table') =
    ((holds_plate plate r ≡ true) × (r' ≡ cleared r) × (table' ≡ table))
    ⊎ ((holds_plate plate r ≡ false) × (r' ≡ r) × Clears plate table table')

holds_plate-parts :
    (plate : List ℕ) (r : ParkingRecord)
    → holds_plate plate r ≡ true
    → (r.occupied ≡ true) × (r.plate ≡ plate)
unfolding holds_plate
holds_plate-parts plate r h = elim (Bool-cases r.occupied) [
  | inl e ↦ (e, same→eq r.plate plate (rw e at h))
  | inr e ↦ cc (rw e at h)
]

pub Clears-lookup :
    (plate : List ℕ) (table table' : List ParkingRecord)
    → Unique table
    → Clears plate table table'
    → (q : List ℕ) → lookup q table' ≡ (if same plate q then none else lookup q table)
unfolding lookup holds_plate
Clears-lookup plate [] table' u c q = elim c [ ]
Clears-lookup plate (r ∷ table) [] u c q = elim c [ ]
Clears-lookup plate (r ∷ table) (r' ∷ table') u (inl (found, e, et)) q =
    let (used, is_plate) = holds_plate-parts plate r found in
    elim (Bool-cases (same plate q)) [
      | inl eq ↦
          let gone : lookup q table ≡ none =
            subst (λ z. lookup z table ≡ none) (is_plate ∙ same→eq plate q eq) (u.0 used) in
          rw (e, et, eq, gone) refl
      | inr eq ↦ rw (e, et, used, is_plate, eq) refl
    ]
Clears-lookup plate (r ∷ table) (r' ∷ table') u (inr (other, e, later)) q =
    let ih = Clears-lookup plate table table' u.1 later q in
    elim (Bool-cases (same plate q)) [
      | inl eq ↦
          let here : holds_plate q r ≡ false =
            subst (λ z. holds_plate z r ≡ false) (same→eq plate q eq) other in
          ground (arith, e, eq, here, ih)
      | inr eq ↦ ground (arith, e, eq, ih)
    ]

if-same : {A : Type 0} (b : Bool) (x : A) → (if b then x else x) ≡ x
if-same true x = refl
if-same false x = refl

pub Clears-Unique :
    (plate : List ℕ) (table table' : List ParkingRecord)
    → Unique table
    → Clears plate table table'
    → Unique table'
Clears-Unique plate [] table' u c = elim c [ ]
Clears-Unique plate (r ∷ table) [] u c = elim c [ ]
Clears-Unique plate (r ∷ table) (r' ∷ table') u (inl (found, e, et)) =
    rw (e, et) ((λ h. cc (h)), u.1)
Clears-Unique plate (r ∷ table) (r' ∷ table') u (inr (other, e, later)) = rw e (
  (λ used.
      let after = Clears-lookup plate table table' u.1 later r.plate in
      after
      ∙ ap (λ o. if same plate r.plate then none else o) (u.0 used)
      ∙ if-same (same plate r.plate) none),
  Clears-Unique plate table table' u.1 later,
)

pub Clears-IsRecord :
    (plate : List ℕ) (table table' : List ParkingRecord)
    → All IsRecord table
    → Clears plate table table'
    → (All IsRecord table' × (length table' ≡ length table))
Clears-IsRecord plate [] table' h c = elim c [ ]
Clears-IsRecord plate (r ∷ table) [] h c = elim c [ ]
Clears-IsRecord plate (r ∷ table) (r' ∷ table') h (inl (found, e, et)) =
    rw (e, et) (((λ used. cc (used)), h.1), refl)
Clears-IsRecord plate (r ∷ table) (r' ∷ table') h (inr (other, e, later)) =
    let (rest, size) = Clears-IsRecord plate table table' h.1 later in
    (rw e (h.0, rest), ap suc size)

-- The three ends of `leave`: the plate is not there, it came later, or its record is cleared.
module _ (floats : Floats) (hourly_rate : floats.Float) where
  pub leave-absent :
      (plate : List ℕ) (time : ℕ) (table : List ParkingRecord)
      → lookup plate table ≡ none
      → leave floats hourly_rate plate time table ≡ (not_found plate, table)
  unfolding leave
  leave-absent plate time [] h = refl
  leave-absent plate time (r ∷ table) h =
      rw (lookup-head plate r table h, leave-absent plate time table (lookup-tail plate r table h))
        refl

  pub leave-early :
      (plate : List ℕ) (time arrival : ℕ) (table : List ParkingRecord)
      → lookup plate table ≡ some arrival
      → time < arrival
      → leave floats hourly_rate plate time table ≡ (invalid, table)
  unfolding leave lookup
  leave-early plate time arrival [] h lt = cc
  leave-early plate time arrival (r ∷ table) h lt = elim (Bool-cases (holds_plate plate r)) [
    | inl e ↦
        let at : r.arrival_time ≡ arrival = cc (rw e at h) in
        let early : ltb time r.arrival_time ≡ true = ground (arith, at) in rw (e, early) refl
    | inr e ↦ rw (e, leave-early plate time arrival table (rw e at h) lt) refl
  ]

  pub leave-paid :
      (plate : List ℕ) (time arrival : ℕ) (table : List ParkingRecord)
      → lookup plate table ≡ some arrival
      → arrival ≤ time
      → (table' : List ParkingRecord) × (leave floats hourly_rate plate time table
          ≡ (fee (fee_of floats hourly_rate (time - arrival)), table'))
        × Clears plate table table'
  unfolding leave lookup
  leave-paid plate time arrival [] h le = cc
  leave-paid plate time arrival (r ∷ table) h le = elim (Bool-cases (holds_plate plate r)) [
    | inl e ↦
        let came : r.arrival_time ≡ arrival = cc (rw e at h) in
        let late : ltb time arrival ≡ false = ground arith in
        (cleared r ∷ table, rw (e, came, late) refl, inl (e, refl, refl))
    | inr e ↦
        let (table', eq, clears) = leave-paid plate time arrival table (rw e at h) le in
        (r ∷ table', rw (e, eq) refl, inr (e, refl, clears))
  ]
