-- ===== src/Floppy/Fat.antt =====
-- exercises/ex18: `getFat12` of floppyDir.c and of floppyDirNew.c on a file allocation table that
-- packs two entries of 12 bits in three bytes.
use os_coursework.Prelude.{
  ℕ, suc, ◌+◌, ◌*◌, ◌/◌, ◌%◌, ◌≤◌, ◌<◌, ◌≡◌, refl, sym, ap, ◌∙◌, true, false, some, [], ◌∷◌, ◌==◌,
  arith, bit_and_low_nibble, bit_and_high_nibble, bit_or-shift_left, shift_left, Bool-cases, inl,
  inr, ◌⊎◌, ==_iff, subst,
}
use os_coursework.Floppy.{Disk, bytes_at, read, done, fat_start, get_fat12, get_fat12_new}
use Prim.Native.Nat.{bit_and, bit_or}

-- The table of a disk holds the entries `next` in `pairs` groups of three bytes.
pub record IsFat (next : ℕ → ℕ) (pairs : ℕ) (d : Disk) : Type 0 where
  pub inside : fat_start + 3 * pairs ≤ d.size
  pub small : (i : ℕ) → next i < 4096
  pub low : (k : ℕ) → k < pairs → d.byte (fat_start + k * 3) ≡ next (2 * k) % 256
  pub middle :
      (k : ℕ)
      → k < pairs
      → d.byte (fat_start + k * 3 + 1) ≡ next (2 * k) / 256 + next (2 * k + 1) % 16 * 16
  pub high : (k : ℕ) → k < pairs → d.byte (fat_start + k * 3 + 1 + 1) ≡ next (2 * k + 1) / 16

read_inside : (d : Disk) (pos n : ℕ) → pos + n ≤ d.size → read d pos n ≡ some (bytes_at d pos n)
unfolding read
read_inside d pos n h = ground arith

pack_even :
    (a b : ℕ)
    → a < 4096
    → b < 4096
    → (a % 256 + (a / 256 + b % 16 * 16) * 256 + b / 16 * 65536) % 4096 ≡ a
pack_even a b ha hb = omega arith

pack_odd :
    (a b : ℕ)
    → a < 4096
    → b < 4096
    → (a % 256 + (a / 256 + b % 16 * 16) * 256 + b / 16 * 65536) / 4096 ≡ b
pack_odd a b ha hb = omega arith

fat_pair :
    (d : Disk) (k : ℕ) {next : ℕ → ℕ} {pairs : ℕ}
    → IsFat next pairs d
    → k < pairs
    → read d (fat_start + k * 3) 3
      ≡ some (
          next (2 * k) % 256
          ∷ (next (2 * k) / 256 + next (2 * k + 1) % 16 * 16)
          ∷ next (2 * k + 1) / 16
          ∷ [])
unfolding bytes_at
fat_pair d k f lt =
    read_inside d (fat_start + k * 3) 3 (omega (arith, f.inside))
    ∙ cc (f.low k lt, f.middle k lt, f.high k lt)

half_cases : (idx : ℕ) → (idx ≡ 2 * (idx / 2)) ⊎ (idx ≡ 2 * (idx / 2) + 1)
half_cases idx = elim (Bool-cases (idx % 2 == 1)) [
  | inl odd ↦ inr (omega (arith, (==_iff (idx % 2) 1).0 odd))
  | inr even ↦ inl (ground arith)
]

get_fat12-even :
    {d : Disk} {next : ℕ → ℕ} {pairs : ℕ}
    → IsFat next pairs d
    → (k : ℕ) → k < pairs
    → get_fat12 d (2 * k) ≡ done (next (2 * k))
unfolding get_fat12
get_fat12-even {d} {next} f k lt =
    let half : 2 * k / 2 ≡ k = omega arith in
    let even : (2 * k % 2 == 1) ≡ false = ground arith in
    rw (get_fat12, half, fat_pair d k f lt, even)
      (ap done
        (pack_even (next (2 * k)) (next (2 * k + 1)) (f.small (2 * k)) (f.small (2 * k + 1))))

get_fat12-odd :
    {d : Disk} {next : ℕ → ℕ} {pairs : ℕ}
    → IsFat next pairs d
    → (k : ℕ) → k < pairs
    → get_fat12 d (2 * k + 1) ≡ done (next (2 * k + 1))
unfolding get_fat12
get_fat12-odd {d} {next} f k lt =
    let half : (2 * k + 1) / 2 ≡ k = omega arith in
    let odd : ((2 * k + 1) % 2 == 1) ≡ true = ground arith in
    rw (get_fat12, half, fat_pair d k f lt, odd)
      (ap done (pack_odd (next (2 * k)) (next (2 * k + 1)) (f.small (2 * k)) (f.small (2 * k + 1))))

-- On a table that packs the entries `next`, `getFat12` of floppyDir.c returns the entry of every index
-- the table holds.
pub get_fat12-IsFat :
    {d : Disk} {next : ℕ → ℕ} {pairs : ℕ}
    → IsFat next pairs d
    → (idx : ℕ) → idx < 2 * pairs
    → get_fat12 d idx ≡ done (next idx)
get_fat12-IsFat {d} {next} f idx lt = elim (half_cases idx) [
  | inl even ↦
      subst (λ i. get_fat12 d i ≡ done (next i)) (sym even)
        (get_fat12-even f (idx / 2) (omega arith))
  | inr odd ↦
      subst (λ i. get_fat12 d i ≡ done (next i)) (sym odd) (get_fat12-odd f (idx / 2) (omega arith))
]

new_even :
    (a b : ℕ)
    → a < 4096
    → b < 4096
    → bit_or (a % 256) (bit_and (a / 256 + b % 16 * 16) 15 * 256) ≡ a
new_even a b ha hb =
    let masked : bit_and (a / 256 + b % 16 * 16) 15 ≡ a / 256 =
      bit_and_low_nibble (a / 256 + b % 16 * 16) (omega arith) ∙ omega arith in
    let shifted : shift_left (a / 256) 8 ≡ a / 256 * 256 = omega arith in
    rw (masked, sym shifted, bit_or-shift_left 8 (a % 256) (a / 256) (omega arith)) (omega arith)

new_odd :
    (b c : ℕ)
    → b < 4096
    → bit_or (bit_and (b / 16) 240 / 16) (c % 256 * 16) ≡ b / 256 + c % 256 * 16
new_odd b c hb =
    let masked : bit_and (b / 16) 240 / 16 ≡ b / 256 =
      ap (λ x. x / 16) (bit_and_high_nibble (b / 16) (omega arith)) ∙ omega arith in
    let shifted : shift_left (c % 256) 4 ≡ c % 256 * 16 = omega arith in
    rw (masked, sym shifted, bit_or-shift_left 4 (b / 256) (c % 256) (omega arith)) refl

next_row :
    (d : Disk) (k : ℕ) → d.byte (fat_start + (k * 3 + 1) + 1 + 1) ≡ d.byte (fat_start + suc k * 3)
next_row d k = ap (λ i. d.byte i) (omega arith)

new_row :
    (d : Disk) (k : ℕ) {next : ℕ → ℕ} {pairs : ℕ}
    → IsFat next pairs d
    → suc k < pairs
    → read d (fat_start + (k * 3 + 1)) 3
      ≡ some (
          (next (2 * k) / 256 + next (2 * k + 1) % 16 * 16)
          ∷ next (2 * k + 1) / 16
          ∷ next (2 * suc k) % 256
          ∷ [])
unfolding bytes_at
new_row d k f lt =
    let place : fat_start + (k * 3 + 1) ≡ fat_start + k * 3 + 1 = omega arith in
    read_inside d (fat_start + (k * 3 + 1)) 3 (omega (arith, f.inside))
    ∙ cc (place, f.middle k (omega arith), f.high k (omega arith), f.low (suc k) lt, next_row d k)

get_fat12_new-even :
    {d : Disk} {next : ℕ → ℕ} {pairs : ℕ}
    → IsFat next pairs d
    → (k : ℕ) → k < pairs
    → get_fat12_new d (2 * k) ≡ done (next (2 * k))
unfolding get_fat12_new
get_fat12_new-even {d} {next} f k lt =
    let half : 2 * k + 2 * k / 2 ≡ k * 3 = omega arith in
    let even : (2 * k % 2 == 1) ≡ false = ground arith in
    rw (get_fat12_new, half, fat_pair d k f lt, even)
      (ap done (new_even (next (2 * k)) (next (2 * k + 1)) (f.small (2 * k)) (f.small (2 * k + 1))))

-- On the same table floppyDirNew.c returns the entry of an even index, and for an odd one the high
-- four bits of its entry below the low eight bits of the entry that follows.
get_fat12_new-IsFat :
    {d : Disk} {next : ℕ → ℕ} {pairs : ℕ}
    → IsFat next pairs d
    → (k : ℕ) → suc k < pairs
    → (get_fat12_new d (2 * k) ≡ done (next (2 * k)))
      × (get_fat12_new d (2 * k + 1) ≡ done (next (2 * k + 1) / 256 + next (2 * suc k) % 256 * 16))
unfolding get_fat12_new
get_fat12_new-IsFat {d} {next} f k lt =
    let half : 2 * k + 1 + (2 * k + 1) / 2 ≡ k * 3 + 1 = omega arith in
    let odd : ((2 * k + 1) % 2 == 1) ≡ true = ground arith in
    (
      get_fat12_new-even f k (omega arith),
      rw (get_fat12_new, half, new_row d k f lt, odd)
          (ap done (new_odd (next (2 * k + 1)) (next (2 * suc k)) (f.small (2 * k + 1)))),
    )
