-- ===== src/Floppy.antt =====
-- exercises/ex18: the FAT12 directory readers floppyDir.c and floppyDirNew.c (floppyDirO.c is the
-- first with no directory reader yet). An image is its size and its bytes; no seek or read fails but
-- at the end of the image.
pub mod Entry
pub mod Report
mod Fat
mod Fields
mod Names
mod Walk
mod Fuel
mod Tests
use os_coursework.Prelude.{
  ℕ, zero, suc, ◌+◌, ◌-◌, ◌*◌, ◌/◌, ◌%◌, Bool, true, false, Option, none, some, List, [], ◌∷◌,
  if◌then◌else◌, leb, ◌==◌, get_or,
}
use Prim.Native.Nat.{bit_and, bit_or}

pub record Disk : Type 0 where
  pub size : ℕ
  pub byte : ℕ → ℕ

-- The bytes from a position on.
unfoldable pub bytes_at : Disk → ℕ → ℕ → List ℕ
bytes_at d pos zero = []
bytes_at d pos (suc n) = d.byte pos ∷ bytes_at d (pos + 1) n

-- `fseek` and `fread`; `none` is a read that comes to the end of the image.
unfoldable pub read : Disk → ℕ → ℕ → Option (List ℕ)
read d pos n = if leb (pos + n) d.size then some (bytes_at d pos n) else none

-- What a call comes to: a value, `fail`, or no end within the given rounds.
pub data Result (A : Type 0) : Type 0 where
  done : A → Result A
  failed : Result A
  unfinished : Result A

infixl 5 ◌>>=◌
abbrev pub ◌>>=◌ : {A B : Type 0} → Result A → (A → Result B) → Result B
done a >>= f = f a
failed >>= f = failed
unfinished >>= f = unfinished

abbrev pub sector_size : ℕ
sector_size = 512

abbrev pub fat_start : ℕ
fat_start = 512

abbrev pub chain_end : ℕ
chain_end = 4095

abbrev pub bad_sector : ℕ
bad_sector = 4087

-- `EOC_MARKER_START`
abbrev pub eoc_marker_start : ℕ
eoc_marker_start = 4088

-- `BYTE_OFFSET` or `ROOT_DIR_BYTE_OFFSET`, behind the boot sector and two FATs of nine sectors.
abbrev pub root_start : ℕ
root_start = 9728

abbrev pub root_sectors : ℕ
root_sectors = 14

-- Behind the root directory.
abbrev pub data_start : ℕ
data_start = 16896

-- `getFat12` of floppyDir.c: three bytes hold a pair of entries.
unfoldable pub get_fat12 : Disk → ℕ → Result ℕ
get_fat12 d idx = elim (read d (fat_start + idx / 2 * 3) 3) [
  | none ↦ failed
  | some b ↦
      let pair = get_or b 0 0 + get_or b 1 0 * 256 + get_or b 2 0 * 65536 in
      done (if idx % 2 == 1 then pair / 4096 else pair % 4096)
]

-- `getFat12` of floppyDirNew.c.
unfoldable pub get_fat12_new : Disk → ℕ → Result ℕ
get_fat12_new d idx = elim (read d (fat_start + (idx + idx / 2)) 3) [
  | none ↦ done chain_end
  | some b ↦ done (
      if idx % 2 == 1
      then bit_or (bit_and (get_or b 1 0) 240 / 16) (get_or b 2 0 * 16)
      else bit_or (get_or b 0 0) (bit_and (get_or b 1 0) 15 * 256))
]
