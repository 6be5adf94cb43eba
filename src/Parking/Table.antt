-- ===== src/Parking/Table.antt =====
-- The parking table as a map from plates to arrival times.
use os_coursework.Prelude.{
  ℕ, zero, suc, ◌≤◌, ◌<◌, ◌≡◌, refl, ap, true, false, Option, none, some, List, [], ◌∷◌,
  if◌then◌else◌, Bool-cases, Option-cases, subst, ◌⊎◌, inl, inr, All, arith, same, same_refl,
  same→eq, length, take,
}
use os_coursework.Parking.{ParkingRecord, holds_plate, duplicate, occupy, is_valid_plate}

-- The arrival time of a parked plate.
unfoldable pub lookup : List ℕ → List ParkingRecord → Option ℕ
lookup plate [] = none
lookup plate (r ∷ table) =
    let later = lookup plate table in if holds_plate plate r then some r.arrival_time else later

-- A record in use has a valid plate and a time of the day.
abbrev pub IsRecord : ParkingRecord → Type 0
IsRecord r =
    r.occupied ≡ true
    → (is_valid_plate r.plate ≡ true) × (0 < r.arrival_time) × (r.arrival_time ≤ 86400)

-- No plate is in two records in use.
abbrev pub Unique : List ParkingRecord → Type 0
Unique [] = Unit
Unique (r ∷ table) = (r.occupied ≡ true → lookup r.plate table ≡ none) × Unique table

-- Plates that are stored fit in a record.
pub take-short : (n : ℕ) (xs : List ℕ) → length xs ≤ n → take n xs ≡ xs
take-short zero [] le = refl
take-short zero (x ∷ xs) le = elim le [ ]
take-short (suc n) [] le = refl
take-short (suc n) (x ∷ xs) le = ap (x ∷◌) (take-short n xs (omega (arith, le)))

pub is_valid_plate-short : (plate : List ℕ) → is_valid_plate plate ≡ true → length plate ≤ 8
unfolding is_valid_plate
is_valid_plate-short plate h = ground (arith, h)

pub duplicate-lookup :
    (plate : List ℕ) (table : List ParkingRecord)
    → duplicate plate table ≡ false
    → lookup plate table ≡ none
unfolding duplicate lookup
duplicate-lookup plate [] h = refl
duplicate-lookup plate (r ∷ table) h = elim (Bool-cases (holds_plate plate r)) [
  | inl e ↦ cc (rw e at h)
  | inr e ↦ rw e (duplicate-lookup plate table (rw e at h))
]

pub same-sym_false : (xs ys : List ℕ) → same xs ys ≡ false → same ys xs ≡ false
same-sym_false xs ys h = elim (Bool-cases (same ys xs)) [
  | inl e ↦ cc (h, ap (λ z. same z ys) (same→eq ys xs e), same_refl ys)
  | inr e ↦ e
]

-- A plate that is not parked is in no record in use.
pub lookup-head :
    (plate : List ℕ) (r : ParkingRecord) (table : List ParkingRecord)
    → lookup plate (r ∷ table) ≡ none
    → holds_plate plate r ≡ false
unfolding lookup
lookup-head plate r table h = elim (Bool-cases (holds_plate plate r)) [
  | inl e ↦ cc (rw e at h)
  | inr e ↦ e
]

pub lookup-tail :
    (plate : List ℕ) (r : ParkingRecord) (table : List ParkingRecord)
    → lookup plate (r ∷ table) ≡ none
    → lookup plate table ≡ none
unfolding lookup
lookup-tail plate r table h = rw (lookup-head plate r table h) at h

-- The record that `park` fills.
abbrev pub parked : List ℕ → ℕ → ParkingRecord
parked plate arrival = record { plate = plate; arrival_time = arrival; occupied = true }

-- The three ends of the loop that looks for a free record.
pub occupy-full :
    (plate : List ℕ) (arrival : ℕ) (table : List ParkingRecord)
    → occupy plate arrival table ≡ none
    → All (λ r. r.occupied ≡ true) table
unfolding occupy
occupy-full plate arrival [] h = tt
occupy-full plate arrival (r ∷ table) h = elim (Bool-cases r.occupied) [
  | inl e ↦ elim (Option-cases (occupy plate arrival table)) [
    | inl none_left ↦ (e, occupy-full plate arrival table none_left)
    | inr (table', found) ↦ cc (rw (e, found) at h)
  ]
  | inr e ↦ cc (rw e at h)
]

-- The second table is the first with its first free record filled.
abbrev pub Fills : List ℕ → ℕ → List ParkingRecord → List ParkingRecord → Type 0
Fills plate arrival [] table' = ⊥
Fills plate arrival (r ∷ table) [] = ⊥
Fills plate arrival (r ∷ table) (r' ∷ table') =
    ((r.occupied ≡ false) × (r' ≡ parked plate arrival) × (table' ≡ table))
    ⊎ ((r.occupied ≡ true) × (r' ≡ r) × Fills plate arrival table table')

pub occupy-Fills :
    (plate : List ℕ) (arrival : ℕ) (table table' : List ParkingRecord)
    → length plate ≤ 8
    → occupy plate arrival table ≡ some table'
    → Fills plate arrival table table'
unfolding occupy
occupy-Fills plate arrival [] table' short h = cc
occupy-Fills plate arrival (r ∷ table) table' short h = elim (Bool-cases r.occupied) [
  | inl e ↦ elim (Option-cases (occupy plate arrival table)) [
    | inl none_left ↦ cc (rw (e, none_left) at h)
    | inr (table2, found) ↦
        let same_table : r ∷ table2 ≡ table' = cc (rw (e, found) at h) in
        subst (Fills plate arrival (r ∷ table)) same_table
          (inr (e, refl, occupy-Fills plate arrival table table2 short found))
  ]
  | inr e ↦
      let whole = take-short 8 plate short in
      let same_table : parked plate arrival ∷ table ≡ table' = cc (rw (e, whole) at h) in
      subst (Fills plate arrival (r ∷ table)) same_table (inl (e, refl, refl))
]

-- What the filled record changes, in a table where the plate is not parked.
pub Fills-lookup :
    (plate : List ℕ) (arrival : ℕ) (table table' : List ParkingRecord)
    → lookup plate table ≡ none
    → Fills plate arrival table table'
    → (q : List ℕ) → lookup q table' ≡ (if same plate q then some arrival else lookup q table)
unfolding lookup holds_plate
Fills-lookup plate arrival [] table' new f q = elim f [ ]
Fills-lookup plate arrival (r ∷ table) [] new f q = elim f [ ]
Fills-lookup plate arrival (r ∷ table) (r' ∷ table') new (inl (free, e, et)) q =
    rw (e, et, free) refl
Fills-lookup plate arrival (r ∷ table) (r' ∷ table') new (inr (used, e, later)) q =
    let ih = Fills-lookup plate arrival table table' (lookup-tail plate r table new) later q in
    elim (Bool-cases (same plate q)) [
      | inl eq ↦
          let other : holds_plate q r ≡ false =
            subst (λ z. holds_plate z r ≡ false) (same→eq plate q eq)
              (lookup-head plate r table new) in
          ground (arith, e, eq, other, ih)
      | inr eq ↦ ground (arith, e, eq, ih)
    ]

pub Fills-Unique :
    (plate : List ℕ) (arrival : ℕ) (table table' : List ParkingRecord)
    → lookup plate table ≡ none
    → Fills plate arrival table table'
    → Unique table
    → Unique table'
unfolding holds_plate
Fills-Unique plate arrival [] table' new f u = elim f [ ]
Fills-Unique plate arrival (r ∷ table) [] new f u = elim f [ ]
Fills-Unique plate arrival (r ∷ table) (r' ∷ table') new (inl (free, e, et)) u =
    rw (e, et) ((λ _. lookup-tail plate r table new), u.1)
Fills-Unique plate arrival (r ∷ table) (r' ∷ table') new (inr (used, e, later)) u =
    let tail = lookup-tail plate r table new in
    let other : same r.plate plate ≡ false = rw used at (lookup-head plate r table new) in
    let added = Fills-lookup plate arrival table table' tail later r.plate in
    rw e (
      (λ _. rw (same-sym_false r.plate plate other, u.0 used) at added),
      Fills-Unique plate arrival table table' tail later u.1,
    )

pub Fills-length :
    (plate : List ℕ) (arrival : ℕ) (table table' : List ParkingRecord)
    → Fills plate arrival table table'
    → length table' ≡ length table
Fills-length plate arrival [] table' f = elim f [ ]
Fills-length plate arrival (r ∷ table) [] f = elim f [ ]
Fills-length plate arrival (r ∷ table) (r' ∷ table') (inl (free, e, et)) =
    ap (λ t. suc (length t)) et
Fills-length plate arrival (r ∷ table) (r' ∷ table') (inr (used, e, later)) =
    ap suc (Fills-length plate arrival table table' later)

pub Fills-IsRecord :
    (plate : List ℕ) (arrival : ℕ) (table table' : List ParkingRecord)
    → IsRecord (parked plate arrival)
    → Fills plate arrival table table'
    → All IsRecord table
    → All IsRecord table'
Fills-IsRecord plate arrival [] table' new f h = elim f [ ]
Fills-IsRecord plate arrival (r ∷ table) [] new f h = elim f [ ]
Fills-IsRecord plate arrival (r ∷ table) (r' ∷ table') new (inl (free, e, et)) h =
    rw (e, et) (new, h.1)
Fills-IsRecord plate arrival (r ∷ table) (r' ∷ table') new (inr (used, e, later)) h =
    rw e (h.0, Fills-IsRecord plate arrival table table' new later h.1)

pub lookup-duplicate :
    (plate : List ℕ) (table : List ParkingRecord)
    → duplicate plate table ≡ true
    → (a : ℕ) × (lookup plate table ≡ some a)
unfolding duplicate lookup
lookup-duplicate plate [] h = cc
lookup-duplicate plate (r ∷ table) h = elim (Bool-cases (holds_plate plate r)) [
  | inl e ↦ (r.arrival_time, rw e refl)
  | inr e ↦ rw e (lookup-duplicate plate table (rw e at h))
]
